-- ===== src/Guard.antt =====
-- The owner guard of the edge, services/edge/internal/guard/guard.go: the streams of a battle are
-- torn down when its owner changes. The watches of the directory are a parameter: a watch that was
-- opened is a number, and what is cancelled is listed. A call that takes the lock twice is two
-- steps. The ids of the streams are of a type with Go's `==`; the callbacks are left out, and the
-- ids that are torn down are listed.
pub mod Watches
pub mod Owners
use atlas_game_layout.Common.{
  ℕ, String, Bool, true, false, not, ◌&&◌, List, [], ◌∷◌, ◌++◌, Option, none, some, Map, Key,
  lookup, insert, delete, is_some, to_list, held, ◌==◌, string_key, if◌then◌else◌,
}

-- A subscriber is the owner at the time of its registration.
pub record BattleWatch (Stream : Type 0) : Type 0 where
  pub cancel : Option ℕ
  pub subs : Map Stream String

abbrev pub Guard : Type 0 → Type 0
Guard Stream = Map String (BattleWatch Stream)

module _ {Stream : Type 0} ⦃e : Key Stream⦄ where
  -- The first part of `Register`: the new table, and whether a watch is to be started. The
  -- callback is there.
  unfoldable pub register : Guard Stream → String → Stream → String → Guard Stream × Bool
  register g battle id owner = if battle == "" then (g, false) else elim (lookup battle g) [
    | none ↦ (insert battle (record { cancel = none; subs = (id, owner) ∷ [] }) g, true)
    | some bw ↦ (insert battle (record bw { subs = insert id owner bw.subs }) g, false)
  ]

  -- The second part of `startWatch`, of a watch that was opened: it goes into the table, or is
  -- cancelled.
  unfoldable pub started : Guard Stream → String → ℕ → Guard Stream × List ℕ
  started g battle watch = elim (lookup battle g) [
    | none ↦ (g, watch ∷ [])
    | some bw ↦ (insert battle (record bw { cancel = some watch }) g, [])
  ]

  -- The loop of `onOwnerChange`, which may take any order.
  unfoldable pub targets : Map Stream String → String → List Stream
  targets [] owner = []
  targets ((id, was) ∷ subs) owner =
      let rest = targets subs owner in if was == owner then rest else id ∷ rest

  -- `onOwnerChange`: the streams that are torn down.
  unfoldable pub on_owner_change : Guard Stream → String → String → List Stream
  unfolding targets
  on_owner_change g battle owner = elim (lookup battle g) [
    | none ↦ []
    | some bw ↦ targets bw.subs owner
  ]

  abbrev pub is_empty : Map Stream String → Bool
  is_empty [] = true
  is_empty (x ∷ xs) = false

  -- `unregister`.
  unfoldable pub unregister : Guard Stream → String → Stream → Guard Stream × List ℕ
  unregister g battle id = elim (lookup battle g) [
    | none ↦ (g, [])
    | some bw ↦
        let subs = delete id bw.subs in
        if is_empty subs
        then (delete battle g, to_list bw.cancel)
        else (insert battle (record bw { subs = subs }) g, [])
  ]

  abbrev pub watch_of : BattleWatch Stream → List ℕ
  watch_of bw = to_list bw.cancel

  abbrev pub watches : Guard Stream → List ℕ
  watches g = held watch_of g

  -- `Close`.
  unfoldable pub close : Guard Stream → Guard Stream × List ℕ
  close g = ([], watches g)
