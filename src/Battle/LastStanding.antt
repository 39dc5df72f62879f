-- ===== src/Battle/LastStanding.antt =====
-- The winner of an elimination, `lastStanding` of services/battle/internal/actor/battle_offline.go,
-- and sets of players.
use atlas_game_layout.Common.{
  String, Bool, true, false, List, [], ◌∷◌, none, some, ◌≡◌, ◌≢◌, refl, sym, ◌∙◌, ap, arith, Map,
  Unique, insert, delete, lookup-insert, lookup-delete, Bool-cases, inl, inr, ◌==◌, string_key,
  str_iff, ==_ne, member, Distinct, if◌then◌else◌,
}
use atlas_game_layout.Battle.{Players, has, keys}
use atlas_game_layout.Battle.Offline.{last_of, last_standing}

pub has-insert :
    {V : Type 0} (p q : String) (v : V) (m : Map String V)
    → has q (insert p v m) ≡ (if p == q then true else has q m)
has-insert p q v m = ground (arith, lookup-insert p q v m)

pub has-delete :
    {V : Type 0} (p q : String) (m : Map String V)
    → has q (delete p m) ≡ (if p == q then false else has q m)
has-delete p q m = ground (arith, lookup-delete p q m)

pub member-keys : {V : Type 0} (q : String) (m : Map String V) → member q (keys m) ≡ has q m
member-keys q [] = refl
member-keys q ((p, v) ∷ m) = ground (arith, member-keys q m)

pub keys-Distinct : {V : Type 0} (m : Map String V) → Unique m → Distinct (keys m)
keys-Distinct [] u = tt
keys-Distinct ((p, v) ∷ m) u = (ground (arith, member-keys p m, u.0), keys-Distinct m u.1)

-- Every name is `p`.
abbrev only : String → List String → Bool
only p [] = true
only p (q ∷ qs) = let rest = only p qs in if q == p then rest else false

only-true :
    (p : String) (ks : List String) → ((q : String) → member q ks ≡ true → q ≡ p) → only p ks ≡ true
only-true p [] h = refl
only-true p (k ∷ ks) h =
    ground (
      arith,
      str_iff k p,
      str_iff k k,
      h k,
      only-true p ks λ q m. h q (ground (arith, str_iff k q)),
    )

only-member : (p q : String) (ks : List String) → only p ks ≡ true → member q ks ≡ true → q ≡ p
only-member p q [] h m = absurd (ground (arith))
only-member p q (k ∷ ks) h m = ground (arith, str_iff k p, str_iff k q, only-member p q ks)

last_of-found :
    (p : String) (ks : List String) (r : String)
    → r ≢ ""
    → ((q : String) → member q ks ≡ true → q ≢ "")
    → last_of p ks r ≡ (if only p ks then some r else none)
unfolding last_of
last_of-found p [] r h hs = rw (==_ne r "" h) refl
last_of-found p (k ∷ ks) r h hs =
    let rest = last_of-found p ks r h λ q m. hs q (ground (arith, str_iff k q)) in
    rw (==_ne r "" h) (ground (arith, str_iff k p, rest))

-- `w` is the one player of the list besides `p`.
abbrev pub IsLast : (String → Bool) → String → String → Type 0
IsLast listed p w = (listed w ≡ true) × (w ≢ p) × ((q : String) → listed q ≡ true → q ≢ p → q ≡ w)

last_of-some :
    (p w : String) (ks : List String)
    → ((q : String) → member q ks ≡ true → q ≢ "")
    → last_of p ks "" ≡ some w
    → IsLast (λ q. member q ks) p w
unfolding last_of
last_of-some p w [] hs h = absurd (ground (arith, str_iff "" ""))
last_of-some p w (k ∷ ks) hs h = elim (Bool-cases (k == p)) [
  | inl t ↦
      let at : last_of p ks "" ≡ some w = ground (arith, t, h) in
      let found = last_of-some p w ks (λ q m. hs q (ground (arith, str_iff k q))) at in
      (
        ground (arith, found.0),
        found.1,
        λ q m ne. found.2 q (ground (arith, str_iff k p, str_iff k q)) ne,
      )
  | inr f ↦
      let tail =
        last_of-found p ks k (hs k (ground (arith, str_iff k k)))
          λ q m. hs q (ground (arith, str_iff k q)) in
      let at : (if only p ks then some k else none) ≡ some w =
        ground (arith, f, h, tail, str_iff "" "") in
      let same : k ≡ w = ground (arith, at) in
      let alone : only p ks ≡ true = ground (arith, at) in
      (
        ground (arith, str_iff k w),
        λ e. ground (arith, str_iff k p, f),
        λ q m ne. ground (arith, str_iff k q, only-member p q ks alone),
      )
]

last_of-none :
    (p w : String) (ks : List String)
    → ((q : String) → member q ks ≡ true → q ≢ "")
    → Distinct ks
    → last_of p ks "" ≡ none
    → IsLast (λ q. member q ks) p w
    → ⊥
unfolding last_of
last_of-none p w [] hs d h l = ground (arith, l.0)
last_of-none p w (k ∷ ks) hs d h l = elim (Bool-cases (k == p)) [
  | inl t ↦
      let at : last_of p ks "" ≡ none = ground (arith, t, h) in
      last_of-none p w ks (λ q m. hs q (ground (arith, str_iff k q))) d.1 at
        (
          ground (arith, str_iff k p, str_iff k w, l.0, l.1),
          l.1,
          λ q m ne. l.2 q (ground (arith, str_iff k q)) ne,
        )
  | inr f ↦
      let tail =
        last_of-found p ks k (hs k (ground (arith, str_iff k k)))
          λ q m. hs q (ground (arith, str_iff k q)) in
      let kw : k ≡ w = l.2 k (ground (arith, str_iff k k)) (λ e. ground (arith, str_iff k p, f)) in
      let alone = only-true p ks λ q m. elim (Bool-cases (q == p)) [
        | inl t ↦ (str_iff q p).0 t
        | inr g ↦
            let qw = l.2 q (ground (arith, str_iff k q)) (λ e. ground (arith, str_iff q p, g)) in
            absurd (ground (arith, d.0, m, qw, kw, str_iff k q))
      ] in
      ground (arith, f, h, tail, alone, str_iff "" "")
]

module _ (players : Players) (p : String) (u : Unique players)
    (named : has "" players ≡ false) where
  names : (q : String) → member q (keys players) ≡ true → q ≢ ""
  names q m e = ground (arith, member-keys q players, ap (λ x. has x players) e, named)

  listed_IsLast :
      (w : String) → IsLast (λ q. member q (keys players)) p w → IsLast (λ q. has q players) p w
  listed_IsLast w l =
      (sym (member-keys w players) ∙ l.0, l.1, λ q m ne. l.2 q (member-keys q players ∙ m) ne)

  pub last_standing-some :
      (w : String) → last_standing players p ≡ some w → IsLast (λ q. has q players) p w
  unfolding last_standing
  last_standing-some w h = listed_IsLast w (last_of-some p w (keys players) names h)

  pub last_standing-none :
      (w : String) → last_standing players p ≡ none → IsLast (λ q. has q players) p w → ⊥
  unfolding last_standing
  last_standing-none w h l =
      last_of-none p w (keys players) names (keys-Distinct players u) h
        (member-keys w players ∙ l.0, l.1, λ q m ne. l.2 q (sym (member-keys q players) ∙ m) ne)
