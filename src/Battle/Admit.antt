-- ===== src/Battle/Admit.antt =====
-- The first success of `Admit` and the calls after it, services/battle/internal/actor/battle_admit.go.
use atlas_game_layout.Common.{
  ℕ, String, true, false, not, List, [], ◌∷◌, ◌++◌, map, Option, none, some, ◌≡◌, refl, sym, ◌∙◌,
  ap, subst, arith, Unique, Bool-cases, inl, inr, length, ◌==◌, string_key, nat_key, str_iff,
  if_elim, member, sort, member-sort, string_order, Distinct, sort_canonical, Bytes,
}
use atlas_game_layout.Common.Int.{pos, ltb_ℤ}
use atlas_game_layout.Battle.{
  Battle, Config, World, keys, sorted_keys, Admission, TicketEntry, begin_seating, pause_session,
}
use atlas_game_layout.Battle.Quiet.{begin_seating-Quiet}
use atlas_game_layout.Battle.Tickets.{
  Ticket, Reply, done, failed, enlist, new_names, merged_roster, sign_one, sign_each, admission_of,
  sign_tickets, admit, admit_from, admit_signed, empty_roster, ticket_for,
}
use atlas_game_layout.Battle.LastStanding.{member-keys, keys-Distinct}
use atlas_game_layout.Battle.Roster.Names.{enlist-has, enlist-Unique, member-append}

new_names-seen :
    (q : String) (seen ps : List String)
    → member q seen ≡ true
    → member q (new_names seen ps) ≡ false
unfolding new_names
new_names-seen q seen [] h = refl
new_names-seen q seen (p ∷ ps) h =
    ground (arith, str_iff p q, new_names-seen q seen ps h, new_names-seen q (p ∷ seen) ps, h)

new_names-Distinct : (seen ps : List String) → Distinct (new_names seen ps)
unfolding new_names
new_names-Distinct seen [] = tt
new_names-Distinct seen (p ∷ ps) = ground (
  arith,
  str_iff p p,
  new_names-Distinct seen ps,
  new_names-Distinct (p ∷ seen) ps,
  new_names-seen p (p ∷ seen) ps,
)

append-Distinct :
    (xs ys : List String)
    → Distinct xs
    → Distinct ys
    → ((q : String) → member q xs ≡ true → member q ys ≡ false)
    → Distinct (xs ++ ys)
append-Distinct [] ys dx dy h = dy
append-Distinct (x ∷ xs) ys dx dy h = (
  ground (arith, member-append x xs ys, dx.0, h x, str_iff x x),
  append-Distinct xs ys dx.1 dy λ q m. h q (ground (arith, str_iff x q)),
)

-- The merged roster is the roster that `Admit` leaves.
merged_roster-enlist :
    (b : Battle) (names : List String)
    → Unique b.players
    → sort (keys (enlist (merged_roster b names) b.players)) ≡ merged_roster b names
unfolding merged_roster
merged_roster-enlist b names u =
    let old = keys b.players in
    let new = new_names old names in
    let ps = sort (old ++ new) in
    sort_canonical (keys (enlist ps b.players)) (old ++ new)
      (keys-Distinct (enlist ps b.players) (enlist-Unique ps b.players u))
      (append-Distinct old new (keys-Distinct b.players u) (new_names-Distinct old names)
        λ q m. new_names-seen q old names m)
      λ q. ground (
        arith,
        member-keys q (enlist ps b.players),
        enlist-has q ps b.players,
        member-sort q (old ++ new),
        member-append q old new,
        member-keys q b.players,
      )

begin_seating-admission :
    (cfg : Config) (w : World) (b : Battle) → (begin_seating cfg w b).admission ≡ b.admission
unfolding begin_seating
begin_seating-admission cfg w b = elim (Bool-cases (not (ltb_ℤ (pos 0) cfg.seat_window))) [
  | inl t ↦ rw (t) refl
  | inr f ↦ rw (f) (elim (Bool-cases (length b.players == 0)) [
    | inl t ↦ rw (t) refl
    | inr g ↦ rw (g) (elim (Bool-cases (w.delivered (pause_session "seat_window"))) [
      | inl t ↦ rw (t) refl
      | inr e ↦ rw (e) refl
    ])
  ])
]

-- What `signTickets` gave: the tickets are for these players, in order.
abbrev IsFor : List String → Reply (List TicketEntry) → Type 0
IsFor ps (failed e) = Unit
IsFor ps (done es) = map (λ t. t.player_id) es ≡ ps

abbrev IsSigned : List String → Reply Admission → Type 0
IsSigned ps (failed e) = Unit
IsSigned ps (done a) = map (λ t. t.player_id) a.tickets ≡ ps

module _ (encode : Ticket → Bytes → Option Bytes) (crc32 : String → ℕ) (cfg : Config)
    (w : World) where
  sign_one-IsFor :
      (p : String) (ps : List String) (o : Option Bytes) (r : Reply (List TicketEntry))
      → IsFor ps r
      → IsFor (p ∷ ps) (sign_one encode crc32 cfg w p o r)
  unfolding sign_one
  sign_one-IsFor p ps none r h = tt
  sign_one-IsFor p ps (some raw) (failed e) h = tt
  sign_one-IsFor p ps (some raw) (done es) h = ap (λ x. p ∷ x) h

  sign_each-IsFor : (id : String) (ps : List String) → IsFor ps (sign_each encode crc32 cfg w id ps)
  unfolding sign_each
  sign_each-IsFor id [] = refl
  sign_each-IsFor id (p ∷ ps) =
      sign_one-IsFor p ps (encode (ticket_for encode crc32 cfg w id p) cfg.ticket_key)
        (sign_each encode crc32 cfg w id ps) (sign_each-IsFor id ps)

  admission_of-IsSigned :
      (ps : List String) (r : Reply (List TicketEntry))
      → IsFor ps r
      → IsSigned ps (admission_of encode crc32 cfg w r)
  unfolding admission_of
  admission_of-IsSigned ps (failed e) h = tt
  admission_of-IsSigned ps (done es) h = h

  sign_tickets-IsSigned :
      (id : String) (ps : List String) → IsSigned ps (sign_tickets encode crc32 cfg w id ps)
  unfolding sign_tickets
  sign_tickets-IsSigned id ps =
      admission_of-IsSigned ps (sign_each encode crc32 cfg w id ps) (sign_each-IsFor id ps)

  -- What `Admit` leaves on each outcome.
  abbrev pub IsAllOrNothing : Battle → Battle × Reply Admission → Type 0
  IsAllOrNothing b (c, failed e) = c ≡ b
  IsAllOrNothing b (c, done a) =
      (map (λ t. t.player_id) a.tickets ≡ sorted_keys c.players) × (c.admission ≡ some a)

  admit_signed-IsAllOrNothing :
      (id : String) (names : List String) (b : Battle) (r : Reply Admission)
      → Unique b.players
      → IsSigned (merged_roster b names) r
      → IsAllOrNothing b (admit_signed encode crc32 cfg w id (merged_roster b names) b r)
  admit_signed-IsAllOrNothing id names b (failed e) u s = refl
  admit_signed-IsAllOrNothing id names b (done a) u s =
      let ps = merged_roster b names in
      let listed : Battle = record b {
        match_id = id;
        players = enlist ps b.players;
        admission = some a;
      } in
      (
        s
            ∙ sym (merged_roster-enlist b names u)
            ∙ ap sorted_keys (sym (begin_seating-Quiet cfg w listed).0),
        begin_seating-admission cfg w listed,
      )

  -- `Admit` of a battle without an admission, whose roster holds no name twice, is all or nothing:
  -- it fails and leaves the battle as it was, or it keeps the reply that it gives, whose tickets are
  -- those of the new roster, one for each player, in order.
  pub admit-IsAllOrNothing :
      (id : String) (names : List String) (b : Battle)
      → Unique b.players
      → b.admission ≡ none
      → IsAllOrNothing b (admit encode crc32 cfg w id names b)
  unfolding admit
  admit-IsAllOrNothing id names b u n =
      subst (λ o. IsAllOrNothing b (admit_from encode crc32 cfg w id names b o)) (sym n)
        (let ps = merged_roster b names in
          let r = sign_tickets encode crc32 cfg w b.battle_id ps in
          if_elim (IsAllOrNothing b) (length ps == 0) {x = (b, failed empty_roster)}
            {y = admit_signed encode crc32 cfg w id ps b r} (λ t. refl)
            λ f. admit_signed-IsAllOrNothing id names b r u (sign_tickets-IsSigned b.battle_id ps))

  admit_again :
      (id : String) (names : List String) (b : Battle) (a : Admission)
      → b.admission ≡ some a
      → admit encode crc32 cfg w id names b ≡ (b, done a)
  unfolding admit
  admit_again id names b a e = ap (admit_from encode crc32 cfg w id names b) e

-- After a first success of `Admit`, on a roster that holds no name twice, every further call gives
-- the same reply, for any request and in any world, and changes nothing.
pub admit-twice :
    (encode : Ticket → Bytes → Option Bytes) (crc32 : String → ℕ) (cfg : Config) (w w' : World)
    (id id' : String) (names names' : List String) (b c : Battle) (a : Admission)
    → Unique b.players
    → b.admission ≡ none
    → admit encode crc32 cfg w id names b ≡ (c, done a)
    → admit encode crc32 cfg w' id' names' c ≡ (c, done a)
admit-twice encode crc32 cfg w w' id id' names names' b c a u n e =
    let kept =
      subst (IsAllOrNothing encode crc32 cfg w b) e
        (admit-IsAllOrNothing encode crc32 cfg w id names b u n) in
    admit_again encode crc32 cfg w' id' names' c a kept.1
