-- ===== src/Guard/Watches.antt =====
-- The directory watches that the guard of guard.go opens and cancels, over runs of it.
use atlas_game_layout.Common.{
  ℕ, ◌+◌, String, Bool, true, false, List, [], ◌∷◌, ◌++◌, Option, none, some, ◌≡◌, refl, Key,
  lookup, insert, delete, lookup-insert, held-insert, held-delete, times, times-append, Unique,
  insert-Unique, delete-Unique, nat_key, string_key, str_iff, arith, Option-cases, inl, inr,
}
use atlas_game_layout.Guard.{
  BattleWatch, Guard, register, started, unregister, close, watches, watch_of,
}

-- A registration of which the watch, if one is to be started, is opened under its number or fails
-- to open before anything else happens; the end of a stream; and the end of the guard.
pub data Act (Stream : Type 0) : Type 0 where
  joins : String → Stream → String → Option ℕ → Act Stream
  leaves : String → Stream → Act Stream
  closes : Act Stream

module _ {Stream : Type 0} ⦃e : Key Stream⦄ where
  abbrev open_watch : Guard Stream → String → Bool → Option ℕ → Guard Stream × List ℕ × List ℕ
  open_watch g battle false o = (g, [], [])
  open_watch g battle true none = (g, [], [])
  open_watch g battle true (some w) =
      let (g', stopped) = started g battle w in (g', w ∷ [], stopped)

  -- The new table, the watches that are opened, and those that are cancelled.
  unfoldable pub step : Guard Stream → Act Stream → Guard Stream × List ℕ × List ℕ
  unfolding register started unregister close
  step g (joins battle id owner o) =
      let (g', fresh) = register g battle id owner in open_watch g' battle fresh o
  step g (leaves battle id) = let (g', stopped) = unregister g battle id in (g', [], stopped)
  step g closes = let (g', stopped) = close g in (g', [], stopped)

  unfoldable pub run : Guard Stream → List (Act Stream) → Guard Stream × List ℕ × List ℕ
  unfolding step
  run g [] = (g, [], [])
  run g (a ∷ rest) =
      let (g', opened, stopped) = step g a in
      let (g'', more, others) = run g' rest in (g'', opened ++ more, stopped ++ others)

  join_balance :
      (w : ℕ) (g : Guard Stream) (b : String) (id : Stream) (owner : String) (o : Option ℕ)
      → let (g', opened, stopped) = step g (joins b id owner o) in
        times w opened + times w (watches g) ≡ times w stopped + times w (watches g')
  unfolding step register started
  join_balance w g b id owner o = elim (Option-cases (lookup b g)) [
    | inr (bw, at) ↦
        ground (arith, held-insert watch_of w b (record bw { subs = insert id owner bw.subs }) g)
    | inl none_yet ↦
        let new : BattleWatch Stream = record { cancel = none; subs = (id, owner) ∷ [] } in
        elim (Option-cases o) [
          | inl failed ↦ ground (arith, held-insert watch_of w b new g)
          | inr (n, opened) ↦ ground (
            arith,
            str_iff b b,
            lookup-insert b b new g,
            held-insert watch_of w b new g,
            held-insert watch_of w b (record new { cancel = some n }) (insert b new g),
          )
        ]
  ]

  leave_balance :
      (w : ℕ) (g : Guard Stream) (b : String) (id : Stream)
      → Unique g
      → let (g', opened, stopped) = step g (leaves b id) in
        times w opened + times w (watches g) ≡ times w stopped + times w (watches g')
  unfolding step unregister
  leave_balance w g b id u = elim (Option-cases (lookup b g)) [
    | inl none_yet ↦ ground arith
    | inr (bw, at) ↦ ground (
      arith,
      held-delete watch_of w b g u,
      held-insert watch_of w b (record bw { subs = delete id bw.subs }) g,
    )
  ]

  step_balance :
      (w : ℕ) (g : Guard Stream) (a : Act Stream)
      → Unique g
      → let (g', opened, stopped) = step g a in
        times w opened + times w (watches g) ≡ times w stopped + times w (watches g')
  unfolding step close
  step_balance w g (joins b id owner o) u = join_balance w g b id owner o
  step_balance w g (leaves b id) u = leave_balance w g b id u
  step_balance w g closes u = omega arith

  started-Unique : (g : Guard Stream) (b : String) (n : ℕ) → Unique g → Unique (started g b n).0
  unfolding started
  started-Unique g b n u = elim (Option-cases (lookup b g)) [
    | inl none_yet ↦ ground arith
    | inr (bw, at) ↦ ground (arith, insert-Unique b (record bw { cancel = some n }) g u)
  ]

  register-Unique :
      (g : Guard Stream) (b : String) (id : Stream) (owner : String)
      → Unique g
      → Unique (register g b id owner).0
  unfolding register
  register-Unique g b id owner u = elim (Option-cases (lookup b g)) [
    | inl none_yet ↦
        ground (arith, insert-Unique b (record { cancel = none; subs = (id, owner) ∷ [] }) g u)
    | inr (bw, at) ↦
        ground (arith, insert-Unique b (record bw { subs = insert id owner bw.subs }) g u)
  ]

  open_watch-Unique :
      (g : Guard Stream) (b : String) (fresh : Bool) (o : Option ℕ)
      → Unique g
      → Unique (open_watch g b fresh o).0
  open_watch-Unique g b false o u = u
  open_watch-Unique g b true none u = u
  open_watch-Unique g b true (some n) u = started-Unique g b n u

  step-Unique : (g : Guard Stream) (a : Act Stream) → Unique g → Unique (step g a).0
  unfolding step unregister close
  step-Unique g (joins b id owner o) u =
      open_watch-Unique (register g b id owner).0 b (register g b id owner).1 o
        (register-Unique g b id owner u)
  step-Unique g (leaves b id) u = elim (Option-cases (lookup b g)) [
    | inl none_yet ↦ ground arith
    | inr (bw, at) ↦
        ground
          (arith, delete-Unique b g u, insert-Unique b (record bw { subs = delete id bw.subs }) g u)
  ]
  step-Unique g closes u = tt

  run_balance :
      (w : ℕ) (g : Guard Stream) (acts : List (Act Stream))
      → Unique g
      → let (g', opened, stopped) = run g acts in
        times w opened + times w (watches g) ≡ times w stopped + times w (watches g')
  unfolding run
  run_balance w g [] u = omega arith
  run_balance w g (a ∷ acts) u =
      let (g', opened, stopped) = step g a in
      let (g'', more, others) = run g' acts in
      omega (
        arith,
        step_balance w g a u,
        run_balance w g' acts (step-Unique g a u),
        times-append w opened more,
        times-append w stopped others,
      )

  -- Where a watch is opened before anything else happens, none is lost: after any registrations,
  -- ends of streams and closings on a new guard, the times that a watch was opened are those that
  -- it was cancelled and those that it is still held; and closing the guard then cancels these.
  pub run-watches :
      (w : ℕ) (acts : List (Act Stream))
      → let (g, opened, stopped) = run [] acts in
        (times w opened ≡ times w stopped + times w (watches g))
        × (times w opened ≡ times w stopped + times w (close g).1)
        × ((close g).0 ≡ [])
  unfolding close
  run-watches w acts =
      let same = run_balance w [] acts tt in (omega (arith, same), omega (arith, same), refl)
