-- ===== src/Common/Held.antt =====
-- What the values of a map hold: lists of handles that are released once each.
use Prim.Native.Nat.{ℕ, ◌+◌}
use mathlib.Core.Path.{◌≡◌, refl}
use mathlib.Core.Bool.{Bool, not}
use mathlib.Core.Option.{Option, none, some}
use mathlib.Core.List.{List, [], ◌∷◌, ◌++◌}
use native.Mathlib.Omega.{arith}
use atlas_game_layout.Common.Tests.{Key}
use atlas_game_layout.Common.Tests.{nat_key}
use atlas_game_layout.Common.Lists.{times, times-append}
use atlas_game_layout.Common.Maps.{Map, lookup, insert, delete, filter_map, Unique}

module _ {ℓ} {K V : Type ℓ} (f : V → List ℕ) where
  abbrev pub held : Map K V → List ℕ
  held [] = []
  held ((k, v) ∷ m) = f v ++ held m

abbrev pub held_at {ℓ} : {V : Type ℓ} → (V → List ℕ) → Option V → List ℕ
held_at f none = []
held_at f (some v) = f v

module _ {ℓ} {K V : Type ℓ} ⦃e : Key K⦄ (f : V → List ℕ) where
  pub held-insert :
      (w : ℕ) (k : K) (v : V) (m : Map K V)
      → times w (held f (insert k v m)) + times w (held_at f (lookup k m))
        ≡ times w (held f m) + times w (f v)
  held-insert w k v [] = ground (arith, times-append w (f v) [])
  held-insert w k v ((j, u) ∷ m) = ground (
    arith,
    e.beq_iff j k,
    held-insert w k v m,
    times-append w (f v) (held f m),
    times-append w (f u) (held f m),
    times-append w (f u) (held f (insert k v m)),
  )

  delete_missing : (k : K) (m : Map K V) → lookup k m ≡ none → delete k m ≡ m
  delete_missing k [] h = refl
  delete_missing k ((j, u) ∷ m) h = ground (arith, delete_missing k m)

  pub held-delete :
      (w : ℕ) (k : K) (m : Map K V)
      → Unique m
      → times w (held f (delete k m)) + times w (held_at f (lookup k m)) ≡ times w (held f m)
  held-delete w k [] u = refl
  held-delete w k ((j, v) ∷ m) u = ground (
    arith,
    e.beq_iff j k,
    held-delete w k m u.1,
    delete_missing k m,
    times-append w (f v) (held f m),
    times-append w (f v) (held f (delete k m)),
  )

  pub held-filter_map :
      (w : ℕ) (p : K → V → Bool) (m : Map K V)
      → times w (held f (filter_map p m)) + times w (held f (filter_map (λ k v. not (p k v)) m))
        ≡ times w (held f m)
  held-filter_map w p [] = refl
  held-filter_map w p ((j, v) ∷ m) = ground (
    arith,
    held-filter_map w p m,
    times-append w (f v) (held f m),
    times-append w (f v) (held f (filter_map p m)),
    times-append w (f v) (held f (filter_map (λ k u. not (p k u)) m)),
  )
