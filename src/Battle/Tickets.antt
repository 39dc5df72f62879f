-- ===== src/Battle/Tickets.antt =====
-- The roster of a battle and its tickets, battle_ticket.go and battle_admit.go. The encoder of
-- contrib/edge/ticket and CRC-32 are parameters.
use atlas_game_layout.Common.{
  sym, subst, Option-cases, inl, inr, if_elim, ℕ, ◌+◌, ◌-◌, ◌/◌, ◌%◌, String, List, [], ◌∷◌, ◌++◌,
  Option, none, some, insert, member, length, ◌==◌, nat_key, string_key, string_order, sort, Bytes,
  if◌then◌else◌,
}
use atlas_game_layout.Battle.{
  Players, keys, sorted_keys, Endpoint, TicketEntry, Admission, Config, World, Battle,
  begin_seating,
}

-- `ticket.Ticket`.
pub record Ticket : Type 0 where
  pub version : ℕ
  pub kid : ℕ
  pub player_id : String
  pub battle_id : String
  pub issued_at : ℕ
  pub expires_at : ℕ

pub data AdmitError : Type 0 where
  empty_roster battle_not_found : AdmitError
  sign_failed : String → AdmitError

pub data Reply (A : Type 0) : Type 0 where
  done : A → Reply A
  failed : AdmitError → Reply A

-- `edgeInstances`.
unfoldable pub edge_instances : Config → List (List Endpoint)
edge_instances cfg = elim cfg.edge_instances [
  | [] ↦ cfg.edge_endpoints ∷ []
  | x ∷ xs ↦ cfg.edge_instances
]

-- The element at an index; the code indexes within bounds only.
abbrev pub at : List (List Endpoint) → ℕ → List Endpoint
at [] n = []
at (x ∷ xs) n = let rest = at xs (n - 1) in if n == 0 then x else rest

-- `Create`.
unfoldable pub add_players : List String → Players → Players
add_players [] ps = ps
add_players (p ∷ qs) ps = add_players qs (if p == "" then ps else insert p tt ps)

unfoldable pub create : String → List String → Battle → Battle
unfolding add_players
create match_id ps b = record b { match_id = match_id; players = add_players ps b.players }

-- The second loop of `mergedRoster`.
unfoldable pub new_names : List String → List String → List String
new_names seen [] = []
new_names seen (p ∷ ps) =
    let skip = new_names seen ps in
    let taken = new_names (p ∷ seen) ps in
    if p == "" then skip else if member p seen then skip else p ∷ taken

-- `mergedRoster`.
unfoldable pub merged_roster : Battle → List String → List String
unfolding new_names
merged_roster b ps = let old = keys b.players in sort (old ++ new_names old ps)

-- The loop of `Admit` that fills the roster.
unfoldable pub enlist : List String → Players → Players
enlist [] ps = ps
enlist (p ∷ qs) ps = enlist qs (insert p tt ps)

module _ (encode : Ticket → Bytes → Option Bytes) (crc32 : String → ℕ) (cfg : Config)
    (w : World) where
  -- `edgeInstanceOf`.
  unfoldable pub edge_instance_of : List (List Endpoint) → String → List Endpoint
  edge_instance_of [] p = []
  edge_instance_of (x ∷ xs) p = at (x ∷ xs) (crc32 p % length (x ∷ xs))

  abbrev pub ticket_for : String → String → Ticket
  ticket_for battle_id p = record {
    version = 1;
    kid = 1;
    player_id = p;
    battle_id = battle_id;
    issued_at = w.now;
    expires_at = w.now + cfg.ticket_ttl;
  }

  -- One turn of the loop of `signTickets`, from what the encoder and the later turns give.
  unfoldable pub sign_one :
      String → Option Bytes → Reply (List TicketEntry) → Reply (List TicketEntry)
  unfolding edge_instances edge_instance_of
  sign_one p none rest = failed (sign_failed p)
  sign_one p (some raw) (failed e) = failed e
  sign_one p (some raw) (done es) = done (
      record { player_id = p; ticket = raw; endpoints = edge_instance_of (edge_instances cfg) p }
      ∷ es)

  -- The loop of `signTickets`.
  unfoldable pub sign_each : String → List String → Reply (List TicketEntry)
  unfolding sign_one
  sign_each battle_id [] = done []
  sign_each battle_id (p ∷ ps) =
      sign_one p (encode (ticket_for battle_id p) cfg.ticket_key) (sign_each battle_id ps)

  unfoldable pub admission_of : Reply (List TicketEntry) → Reply Admission
  unfolding edge_instances
  admission_of (failed e) = failed e
  admission_of (done es) = done record {
    endpoints = at (edge_instances cfg) 0;
    tickets = es;
    expires_at_unix_ms = (w.now + cfg.ticket_ttl) / 1000000;
    max_network_gap_ms = cfg.max_network_gap / 1000000;
  }

  -- `signTickets`.
  unfoldable pub sign_tickets : String → List String → Reply Admission
  unfolding sign_each admission_of
  sign_tickets battle_id ps = admission_of (sign_each battle_id ps)

  -- `IssueEntryTicket`.
  unfoldable pub issue_entry_ticket : Battle → Reply Admission
  unfolding sign_tickets
  issue_entry_ticket b = elim b.admission [
    | some a ↦ done a
    | none ↦
        let ps = sorted_keys b.players in
        if length ps == 0 then failed battle_not_found else sign_tickets b.battle_id ps
  ]

  -- The end of `Admit`, from what `signTickets` gives for the roster.
  abbrev pub admit_signed :
      String → List String → Battle → Reply Admission → Battle × Reply Admission
  admit_signed match_id ps b (failed e) = (b, failed e)
  admit_signed match_id ps b (done a) = (
    begin_seating cfg w
        (record b { match_id = match_id; players = enlist ps b.players; admission = some a }),
    done a,
  )

  -- `Admit`, from the admission that is there.
  abbrev pub admit_from :
      String → List String → Battle → Option Admission → Battle × Reply Admission
  admit_from match_id names b (some a) = (b, done a)
  admit_from match_id names b none =
      let ps = merged_roster b names in
      if length ps == 0
      then (b, failed empty_roster)
      else admit_signed match_id ps b (sign_tickets b.battle_id ps)

  -- `Admit`.
  unfoldable pub admit : String → List String → Battle → Battle × Reply Admission
  unfolding merged_roster sign_tickets enlist begin_seating
  admit match_id names b = admit_from match_id names b b.admission

  module _ {κ} (P : Battle → Type κ) (match_id : String) (names : List String) (b : Battle) where
    admit_signed_elim :
        (r : Reply Admission)
        → P b
        → ((a : Admission)
            → P (
                begin_seating cfg w (record b {
                  match_id = match_id;
                  players = enlist (merged_roster b names) b.players;
                  admission = some a;
                })))
        → P (admit_signed match_id (merged_roster b names) b r).0
    admit_signed_elim (failed e) h f = h
    admit_signed_elim (done a) h f = f a

    -- The state after `Admit` is the old one, or that of a first success.
    pub admit_elim :
        P b
        → ((a : Admission)
            → P (
                begin_seating cfg w (record b {
                  match_id = match_id;
                  players = enlist (merged_roster b names) b.players;
                  admission = some a;
                })))
        → P (admit match_id names b).0
    unfolding admit
    admit_elim h f = elim (Option-cases b.admission) [
      | inr s ↦ subst (λ o. P (admit_from match_id names b o).0) (sym s.1) h
      | inl n ↦
          subst (λ o. P (admit_from match_id names b o).0) (sym n)
            (let ps = merged_roster b names in
              let signed = sign_tickets b.battle_id ps in
              if_elim (λ r. P r.0) (length ps == 0) {x = (b, failed empty_roster)}
                {y = admit_signed match_id ps b signed} (λ t. h) λ g. admit_signed_elim signed h f)
    ]
