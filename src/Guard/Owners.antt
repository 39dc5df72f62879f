-- ===== src/Guard/Owners.antt =====
-- The owners of the streams: registration, its end, and `onOwnerChange` of guard.go.
use atlas_game_layout.Common.{
  String, Bool, true, false, not, ◌&&◌, [], ◌∷◌, Option, none, some, ◌≡◌, ◌≢◌, refl, Map, Key,
  lookup, insert, delete, lookup-insert, lookup-delete, Unique, member, ◌==◌, string_key, str_iff,
  if◌then◌else◌, arith, Option-cases, inl, inr,
}
use atlas_game_layout.Guard.{
  BattleWatch, Guard, register, unregister, targets, on_owner_change, is_empty,
}

-- Whether a stream of an owner is torn down by the change to another.
abbrev pub is_left : Option String → String → Bool
is_left none owner = false
is_left (some was) owner = not (was == owner)

module _ {Stream : Type 0} ⦃e : Key Stream⦄ where
  -- The owner that the guard has written down for a stream.
  abbrev pub owner_of : Guard Stream → String → Stream → Option String
  owner_of g battle id = elim (lookup battle g) [ none ↦ none | some bw ↦ lookup id bw.subs ]

  member-targets :
      (id : Stream) (subs : Map Stream String) (owner : String)
      → Unique subs
      → member id (targets subs owner) ≡ is_left (lookup id subs) owner
  unfolding targets
  member-targets id [] owner u = refl
  member-targets id ((j, was) ∷ subs) owner u =
      ground (arith, e.beq_iff j id, member-targets id subs owner u.1)

  -- Where a battle has no stream twice, a change of its owner tears down exactly the streams of
  -- the battle that were registered under another owner; where the owner is gone, that is under
  -- any.
  pub member-on_owner_change :
      (g : Guard Stream) (battle owner : String) (id : Stream)
      → ((bw : BattleWatch Stream) → lookup battle g ≡ some bw → Unique bw.subs)
      → member id (on_owner_change g battle owner) ≡ is_left (owner_of g battle id) owner
  unfolding on_owner_change
  member-on_owner_change g battle owner id u = elim (Option-cases (lookup battle g)) [
    | inl none_yet ↦ ground arith
    | inr (bw, at) ↦ ground (arith, member-targets id bw.subs owner (u bw at))
  ]

  -- A registration for a battle with an id writes down the owner of the stream and leaves those of
  -- all others, of this battle and of others.
  pub owner_of-register :
      (g : Guard Stream) (b c : String) (i j : Stream) (owner : String)
      → b ≢ ""
      → owner_of (register g b i owner).0 c j
        ≡ (if (b == c) && (i == j) then some owner else owner_of g c j)
  unfolding register
  owner_of-register g b c i j owner some_b = elim (Option-cases (lookup b g)) [
    | inl none_yet ↦ ground (
      arith,
      str_iff b "",
      str_iff b c,
      lookup-insert b c (record { cancel = none; subs = (i, owner) ∷ [] }) g,
    )
    | inr (bw, at) ↦ ground (
      arith,
      str_iff b "",
      str_iff b c,
      lookup-insert b c (record bw { subs = insert i owner bw.subs }) g,
      lookup-insert i j owner bw.subs,
    )
  ]

  empty_lookup :
      (subs : Map Stream String) (j : Stream) → is_empty subs ≡ true → lookup j subs ≡ none
  empty_lookup [] j h = refl
  empty_lookup (x ∷ subs) j h = absurd (ground arith)

  -- A deregistration takes away the stream and leaves all others, also where it was the last one
  -- of its battle.
  pub owner_of-unregister :
      (g : Guard Stream) (b c : String) (i j : Stream)
      → owner_of (unregister g b i).0 c j ≡ (if (b == c) && (i == j) then none else owner_of g c j)
  unfolding unregister
  owner_of-unregister g b c i j = elim (Option-cases (lookup b g)) [
    | inl none_yet ↦ ground (arith, str_iff b c)
    | inr (bw, at) ↦ ground (
      arith,
      str_iff b c,
      lookup-insert b c (record bw { subs = delete i bw.subs }) g,
      lookup-delete b c g,
      lookup-delete i j bw.subs,
      empty_lookup (delete i bw.subs) j,
    )
  ]
