-- ===== src/Tests/Sessions.antt =====
-- Two gateways over one route table.
use atlas_game_layout.Common.{
  ℕ, String, true, false, List, [], ◌∷◌, none, some, ◌≡◌, ◌≢◌, refl, Map, lookup, insert, delete,
  lookup-insert, lookup-delete, ◌==◌, nat_key, string_key, str_iff, arith,
}
use atlas_game_layout.Session.{
  Session, Conn, Route, Manager, Store, new_manager, bind, bind_local, persist_route, unbind,
  validate, player_by_ref, player_by_token, local_session, ref_of,
}
use atlas_game_layout.Session.Expiry.{sweep_once}
use atlas_game_layout.Session.Index.Runs.{Call, binds, unbinds, beats, sweeps, run, run-player_by}
use atlas_game_layout.Session.Takeover.{IsWritten, unbind-bind_elsewhere}
use atlas_game_layout.Session.Routes.{RemovesOne, reports, sweep_once-elsewhere}

abbrev table : Store (Map String Route)
table = record {
  get_set = λ s p r ttl. (insert p r s, some (lookup p s));
  get = λ s p. some (lookup p s);
  remove = λ s p. delete p s;
  expire = λ s p ttl. (s, true);
}

table-IsWritten : IsWritten table
table-IsWritten = record {
  get-get_set = λ s p r ttl old e. ground (arith, lookup-insert p p r s, str_iff p p);
}

table-RemovesOne : RemovesOne table
table-RemovesOne = record {
  get-remove = λ s p q ne. ground (arith, lookup-delete p q s, str_iff p q);
}

abbrev conn : ℕ → String → Conn
conn id ref = record { id = id; kind = "ws"; ref = ref }

abbrev calls : List Call
calls =
    binds "ann" (some (conn 1 "ws:1")) "t1" 5
    ∷ beats "ann" "t1" 7
    ∷ binds "ann" (some (conn 2 "ws:2")) "t2" 9
    ∷ unbinds "ann" 1
    ∷ sweeps 20
    ∷ []

run-player_by_example :
    let m = (run table [] (new_manager 30 "gw-a" 0 0) calls).1 in
    (player_by_ref m "ws:2" ≡ some "ann"
      → (t : Session) × (local_session m "ann" ≡ some t) × (ref_of t ≡ "ws:2"))
    × (player_by_token m "ws:2" ≡ some "ann"
        → (t : Session) × (local_session m "ann" ≡ some t) × (t.token ≡ "ws:2"))
run-player_by_example = run-player_by table [] 30 "gw-a" 0 0 calls "ws:2" "ann"

abbrev ann : Session
ann = record { player_id = "ann"; token = "t1"; conn = some (conn 1 "ws:1"); last_heartbeat = 5 }

abbrev gateway : String → Manager
gateway id = record {
  instance_id = id;
  ttl = 30;
  sweep_interval = 15;
  local = ("ann", ann) ∷ [];
  refs = ("ws:1", "ann") ∷ [];
  toks = ("t1", "ann") ∷ [];
}

non_empty : (a : String) → (a == "") ≡ false → a ≢ ""
non_empty a h e = absurd (ground (arith, str_iff a ""))

different : (a b : String) → (a == b) ≡ false → a ≢ b
different a b h e = absurd (ground (arith, str_iff a b))

-- "ann" is on gateway A, logs in on gateway B, and then the old connection ends.
unbind-bind_elsewhere_example :
    let s' = (bind table [] (gateway "gw-b") "ann" (some (conn 7 "ws:7")) "t2" 9).0 in
    ((unbind table s' (gateway "gw-a") "ann" 1).0 ≡ s')
    × (validate table s' "ann" "t1" ≡ some false)
unfolding bind persist_route bind_local
unbind-bind_elsewhere_example =
    unbind-bind_elsewhere table [] (gateway "gw-a") (gateway "gw-b") "ann" (conn 7 "ws:7") "t2" "t1"
      9 1 none table-IsWritten (different "gw-a" "gw-b" refl) refl

abbrev elsewhere : Route
elsewhere = record { instance_id = "gw-b"; token = "t2"; conn_id = 7; kind = "ws"; updated_at = 0 }

sweep_once-elsewhere_example :
    let out = sweep_once table (("ann", elsewhere) ∷ []) (gateway "gw-a") 40 in
    (table.get out.store_state "ann" ≡ some (some elsewhere)) × (reports "ann" out.swept ≡ false)
sweep_once-elsewhere_example =
    sweep_once-elsewhere table (("ann", elsewhere) ∷ []) (gateway "gw-a") 40 "ann" elsewhere
      table-RemovesOne refl (different "gw-b" "gw-a" refl)
