-- ===== src/Battle/SyncReply.antt =====
-- The reply to a client that asks for frames it missed, cut to the budget of one packet:
-- battle_syncreply.go. The sizes of a reply in JSON and in protobuf are parameters; the size in
-- JSON is `none` where the encoder fails. A frame number is a `uint64`.
pub mod Fit
pub mod Resume
use atlas_game_layout.Common.{
  ℕ, zero, suc, ◌+◌, ◌-◌, ◌/◌, ◌%◌, ◌^◌, Bool, true, false, ◌&&◌, List, [], ◌∷◌, Option, none, some,
  length, ltb, leb, ◌==◌, nat_key, if◌then◌else◌,
}
use atlas_game_layout.Frame.{Input, Snapshot}

-- `FrameInputs` of the lockstep protocol.
pub record FrameInputs : Type 0 where
  pub frame_id : ℕ
  pub inputs : List Input

-- `SyncFramesReply`.
pub record SyncReply : Type 0 where
  pub current_frame : ℕ
  pub snapshot : Option Snapshot
  pub missed : List FrameInputs
  pub next_frame : ℕ
  pub has_more : Bool

pub record Sizes : Type 0 where
  pub json : SyncReply → Option ℕ
  pub protobuf : SyncReply → ℕ

-- `+ 1` on a `uint64`.
abbrev pub next_u64 : ℕ → ℕ
next_u64 n = (n + 1) % 2 ^ 64

-- `groups[:k]`
abbrev pub take {ℓ} : {A : Type ℓ} → ℕ → List A → List A
take zero xs = []
take (suc n) [] = []
take (suc n) (x ∷ xs) = x ∷ take n xs

abbrev pub get_elem? {ℓ} : {A : Type ℓ} → List A → ℕ → Option A
get_elem? [] n = none
get_elem? (x ∷ xs) zero = some x
get_elem? (x ∷ xs) (suc n) = get_elem? xs n

-- `frameOfGroup`.
unfoldable pub frame_of_group : FrameInputs → ℕ
frame_of_group g =
    if g.frame_id == 0 then elim g.inputs [ [] ↦ 0 | i ∷ is ↦ i.frame_id ] else g.frame_id

-- `frameOfGroup` of `groups[n]`, which is there.
unfoldable pub frame_at : List FrameInputs → ℕ → ℕ
frame_at groups n = elim (get_elem? groups n) [ none ↦ 0 | some g ↦ frame_of_group g ]

-- `withContinuation`.
unfoldable pub with_continuation : SyncReply → ℕ → Bool → SyncReply
with_continuation r next more = record r { next_frame = next; has_more = more }

-- `syncCandidate`; k is not 0 where the code calls it.
unfoldable pub sync_candidate : SyncReply → ℕ → SyncReply
unfolding with_continuation frame_at frame_of_group
sync_candidate r k =
    if leb (length r.missed) k
    then with_continuation r (next_u64 r.current_frame) false
    else with_continuation (record r { missed = take k r.missed })
        (next_u64 (frame_at r.missed (k - 1))) true

module _ (sizes : Sizes) (budget : ℕ) where
  -- `syncFitsBudget`.
  unfoldable pub sync_fits_budget : SyncReply → Bool
  sync_fits_budget r = elim (sizes.json r) [
    | none ↦ false
    | some n ↦ leb n budget && leb (sizes.protobuf r) budget
  ]

  -- The binary search of `fitSyncGroups`, on fuel.
  unfoldable pub search_fit : ℕ → SyncReply → ℕ → ℕ → ℕ
  unfolding sync_fits_budget
  search_fit zero r lo hi = lo
  search_fit (suc fuel) r lo hi =
      let mid = (lo + hi + 1) / 2 in
      let fits = sync_fits_budget (sync_candidate r mid) in
      let rest = search_fit fuel r (if fits then mid else lo) (if fits then hi else mid - 1) in
      if ltb lo hi then rest else lo

  -- The loop at the end of `fitSyncGroups`.
  unfoldable pub settle_fit : SyncReply → ℕ → ℕ
  unfolding sync_fits_budget
  settle_fit r zero = zero
  settle_fit r (suc lo) =
      let down = settle_fit r lo in
      if sync_fits_budget (sync_candidate r (suc lo)) then suc lo else down

  -- `fitSyncGroups`; each turn of the search halves the range.
  unfoldable pub fit_sync_groups : SyncReply → ℕ
  unfolding search_fit settle_fit
  fit_sync_groups r = settle_fit r (search_fit (length r.missed) r 0 (length r.missed))

  -- `clipSyncReply`: `none` is `syncOversizeErr`.
  unfoldable pub clip_sync_reply : SyncReply → Option SyncReply
  unfolding fit_sync_groups with_continuation sync_fits_budget
  clip_sync_reply r =
      if length r.missed == 0
      then some (with_continuation r (next_u64 r.current_frame) false)
      else let kept = fit_sync_groups r in
        if kept == 0
        then none
        else let out = sync_candidate r kept in if sync_fits_budget out then some out else none
