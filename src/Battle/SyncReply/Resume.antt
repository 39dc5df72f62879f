-- ===== src/Battle/SyncReply/Resume.antt =====
-- The point from which a client goes on, services/battle/internal/actor/battle_syncreply.go.
use atlas_game_layout.Common.{
  ℕ, zero, suc, ◌+◌, ◌-◌, ◌%◌, ◌^◌, ◌≤◌, ◌<◌, false, List, [], ◌∷◌, none, some, ◌≡◌, ◌≢◌, inl, inr,
  refl, sym, ◌∙◌, ap, subst, arith, length, ltb, leb, ◌==◌, nat_key, if◌then◌else◌, Bool-cases,
  ==_ne,
}
use atlas_game_layout.Battle.SyncReply.{
  SyncReply, FrameInputs, Sizes, take, get_elem?, frame_of_group, frame_at, with_continuation,
  next_u64, sync_candidate, sync_fits_budget, fit_sync_groups, clip_sync_reply,
}

length-take : {A : Type 0} (n : ℕ) (xs : List A) → n ≤ length xs → length (take n xs) ≡ n
length-take zero xs h = refl
length-take (suc n) [] h = absurd (omega (arith, h))
length-take (suc n) (x ∷ xs) h = ap suc (length-take n xs (omega (arith, h)))

take-length : {A : Type 0} (xs : List A) → take (length xs) xs ≡ xs
take-length [] = refl
take-length (x ∷ xs) = ap (λ ys. x ∷ ys) (take-length xs)

get_elem-some :
    {A : Type 0} (xs : List A) (n : ℕ) → n < length xs → (x : A) × (get_elem? xs n ≡ some x)
get_elem-some [] n h = absurd (omega (arith, h))
get_elem-some (x ∷ xs) zero h = (x, refl)
get_elem-some (x ∷ xs) (suc n) h = get_elem-some xs n (omega (arith, h))

-- The groups are those of the frames after `seen`, up to the current one.
pub record IsNumbered (seen : ℕ) (r : SyncReply) : Type 0 where
  pub frames :
      (n : ℕ) (g : FrameInputs) → get_elem? r.missed n ≡ some g → frame_of_group g ≡ seen + n + 1
  pub current : r.current_frame ≡ seen + length r.missed

-- The cut reply holds a beginning of the groups, at least one, and names the frame after it.
abbrev pub GoesOn : ℕ → SyncReply → SyncReply → Type 0
GoesOn seen r out =
    (0 < length out.missed)
    × (out.missed ≡ take (length out.missed) r.missed)
    × (out.next_frame ≡ (seen + length out.missed + 1) % 2 ^ 64)
    × (out.has_more ≡ ltb (length out.missed) (length r.missed))

frame_at-get_elem :
    (gs : List FrameInputs) (n : ℕ) (g : FrameInputs)
    → get_elem? gs n ≡ some g
    → frame_at gs n ≡ frame_of_group g
unfolding frame_at
frame_at-get_elem gs n g e = rw (e, frame_at) refl

sync_candidate-GoesOn :
    (seen k : ℕ) (r : SyncReply)
    → IsNumbered seen r
    → length r.missed ≢ 0
    → 0 < k
    → GoesOn seen r (sync_candidate r k)
unfolding sync_candidate with_continuation
sync_candidate-GoesOn seen k r i l p = elim (Bool-cases (leb (length r.missed) k)) [
  | inl t ↦ rw (t) (
    omega (arith, l),
    sym (take-length r.missed),
    ap (λ c. (c + 1) % 2 ^ 64) i.current,
    ground (arith, Bool-cases (ltb (length r.missed) (length r.missed))),
  )
  | inr f ↦ rw (f) (
      let short : k < length r.missed = ground (arith, f) in
      let size = length-take k r.missed (omega (arith, short)) in
      let g = get_elem-some r.missed (k - 1) (omega (arith, short, p)) in
      let number : seen + (k - 1) + 1 ≡ seen + k = omega (arith, p) in
      let frame = i.frames (k - 1) g.0 g.1 in
      (
        omega (arith, size, p),
        ap (λ n. take n r.missed) (sym size),
        ap (λ c. (c + 1) % 2 ^ 64) (frame_at-get_elem r.missed (k - 1) g.0 g.1 ∙ frame ∙ number)
            ∙ ap (λ c. (seen + c + 1) % 2 ^ 64) (sym size),
        rw (size) (ground (arith, short)),
      ))
]

-- A reply of groups that follow the last frame seen, without a gap and up to the current frame, is
-- cut to a beginning of at least one group, if it is not refused; the next frame that it names is
-- the one after its last group, and it says that there is more just where groups were cut.
pub clip_sync_reply-GoesOn :
    (sizes : Sizes) (budget seen : ℕ) (r out : SyncReply)
    → IsNumbered seen r
    → length r.missed ≢ 0
    → clip_sync_reply sizes budget r ≡ some out
    → GoesOn seen r out
unfolding clip_sync_reply
clip_sync_reply-GoesOn sizes budget seen r out i l h =
    let n = fit_sync_groups sizes budget r in
    let c = sync_candidate r n in
    let kept : (if n == 0 then none else if sync_fits_budget sizes budget c then some c else none)
        ≡ some out =
      subst
        (λ t.
          (if t
            then some (with_continuation r (next_u64 r.current_frame) false)
            else if n == 0
            then none
            else if sync_fits_budget sizes budget c
            then some c
            else none)
          ≡ some out)
        (==_ne (length r.missed) 0 l) h in
    elim (Bool-cases (n == 0)) [
      | inl t ↦ absurd (ground (arith, t, kept))
      | inr f ↦
          let same : c ≡ out = ground (arith, f, kept) in
          subst (GoesOn seen r) same (sync_candidate-GoesOn seen n r i l (ground (arith, f)))
    ]
