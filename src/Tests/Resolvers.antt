-- ===== src/Tests/Resolvers.antt =====
-- The resolver of the edge with two battles and two frame instances.
use atlas_game_layout.Common.{
  str_iff, ◌*◌, arith, ◌+◌, String, false, List, [], ◌∷◌, Option, none, some, ◌≡◌, refl, times,
  nat_key, string_key,
}
use atlas_game_layout.Resolver.{
  sweep, store_owner, new_entry, Resolver, OwnerEntry, Instance, new_resolver, Act, step, run,
  close, all_watches, Answers, lookup_owner, on_owner_change, begin_owner_watch, attach_owner_watch,
  begins, attaches, changes, ensures, stores, looks_up, lists, sweeps, ensures_frames, second,
}
use atlas_game_layout.Resolver.Watches.{run-all_watches}
use atlas_game_layout.Resolver.Closed.{IsShut, run-close}
use atlas_game_layout.Resolver.Facts.{event-lookup_owner}

abbrev frame_a : Instance
frame_a = record {
  id = "f1";
  node_id = "node-a";
  host = "";
  ports = ("ws", "8001") ∷ ("kcp", "x") ∷ [];
  endpoint_host = "10.0.0.1";
}

abbrev acts : List Act
acts =
    ensures "b1" 100 101 (some 7)
    ∷ stores "b1" "node-a" 100
    ∷ ensures_frames 110 111 (some 3)
    ∷ lists (frame_a ∷ []) 120
    ∷ looks_up "b1" 130
    ∷ ensures "b2" 140 141 (some 8)
    ∷ changes "b1" "" 150
    ∷ []

run-all_watches_example :
    let (r, opened, stopped) = run new_resolver acts in
    times 7 opened ≡ times 7 stopped + times 7 (all_watches r)
run-all_watches_example = run-all_watches 7 acts (tt, (tt, (tt, (tt, (tt, (tt, (tt, tt)))))))

abbrev entry : OwnerEntry
entry = record {
  owner = "node-a";
  seen = 100;
  event_at = 0;
  cancel = some 7;
  starting = false;
  retry_at = 0;
}

abbrev cached : Resolver
cached = record {
  owners = ("b1", entry) ∷ [];
  snapshot = some (record { by_node = ("node-a", frame_a) ∷ []; at = 100 });
  frame_watch = some 3;
  frame_starting = false;
  frame_retry = 0;
  closed = false;
  on_change = none;
  reports = [];
}

-- A watch that is opened while the resolver closes.
run-close_example :
    let (r', stopped) = close cached in
    let (r'', opened, cancelled) = run r' (attaches "b2" 9 ∷ stores "b1" "node-b" 90 ∷ []) in
    (stopped ≡ all_watches cached) × IsShut r'' × (opened ≡ cancelled)
run-close_example = run-close cached (attaches "b2" 9 ∷ stores "b1" "node-b" 90 ∷ []) refl

abbrev later : List Act
later = stores "b1" "node-a" 190 ∷ looks_up "b1" 210 ∷ sweeps (400 * second) ∷ []

-- The query that started at 190 does not undo the event of 200.
event-lookup_owner_example :
    (lookup_owner (run (step cached (changes "b1" "node-b" 200)).0 later).0 "b1" 220).1 ≡ "node-b"
unfolding lookup_owner run step sweep store_owner on_owner_change
event-lookup_owner_example =
    event-lookup_owner "b1" "node-b" 200 220 cached later (refl, tt) refl
      (λ e. ground (arith, (str_iff "node-b" "").1 e))
      ((λ e. omega arith), ((λ e. omega arith), (omega arith, tt))) refl

abbrev answers : Answers
answers = record {
  started = 200;
  began = 201;
  failed_at = 202;
  owner_watch = none;
  owner_node = none;
  looked = 203;
  frame_began = 204;
  frame_failed_at = 205;
  frame_watch_answer = none;
  instances = some (frame_a ∷ []);
  listed = 206;
}

abbrev pid_of : String → Option String
pid_of battle = some battle

-- Two openings of one battle's watch that overlap: while the first opens watch 1, the entry goes and
-- comes back, and the second opens watch 2. Watch 1 is not cancelled and no longer held.
abbrev overlap : List Act
overlap =
    begins "b1" 10 ∷ changes "b1" "" 20 ∷ begins "b1" 30 ∷ attaches "b1" 1 ∷ attaches "b1" 2 ∷ []

overlap_loses :
    ((run new_resolver overlap).1 ≡ 1 ∷ 2 ∷ [])
    × ((run new_resolver overlap).2 ≡ [])
    × (all_watches (run new_resolver overlap).0 ≡ 2 ∷ [])
unfolding new_entry run step new_resolver begin_owner_watch on_owner_change attach_owner_watch
overlap_loses = (refl, refl, refl)
