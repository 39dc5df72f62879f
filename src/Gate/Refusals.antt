-- ===== src/Gate/Refusals.antt =====
-- How long a gate may believe that a battle has not ended, and how much it remembers,
-- services/battle/internal/ledger.
use atlas_game_layout.Common.{
  ℕ, suc, ◌+◌, ◌≤◌, ◌<◌, String, Bool, true, false, not, ◌||◌, List, [], ◌∷◌, Option, none, some,
  ◌≡◌, refl, arith, Map, All, lookup, insert, delete, filter_map, length, ◌==◌, string_key, str_iff,
  nat_key, ltb, if◌then◌else◌, if_elim, Bool-cases, inl, inr, ◌≢◌,
}
use atlas_game_layout.Common.Int.{ℤ, pos, pos_part, ltb_ℤ}
use atlas_game_layout.Gate.{
  Gate, negative_cache_ttl, max_negative_cache_ttl, negative_cache_max_entries, new_gate,
  miss_cached, cached_entry, prune_locked, remember, is_full, cache_miss, Answer, failed, missing,
  ended, Verdict, allowed, refused, judge, allow_activation, Call, run,
}

-- The number of entries, and their times, are bounded.
abbrev pub IsBounded : ℕ → Map String ℕ → Type 0
IsBounded t m = All (λ (e : String × ℕ). e.1 ≤ t + max_negative_cache_ttl) m

insert-IsBounded :
    (t : ℕ) (k : String) (v : ℕ) (m : Map String ℕ)
    → v ≤ t + max_negative_cache_ttl
    → IsBounded t m
    → IsBounded t (insert k v m) × (length (insert k v m) ≤ suc (length m))
insert-IsBounded t k v [] h b = ((h, tt), omega arith)
insert-IsBounded t k v ((j, w) ∷ m) h b = elim (Bool-cases (j == k)) [
  | inl y ↦ rw (y) ((h, b.1), omega arith)
  | inr f ↦
      let rest = insert-IsBounded t k v m h b.1 in rw (f) ((b.0, rest.0), omega (arith, rest.1))
]

delete-IsBounded :
    (t : ℕ) (k : String) (m : Map String ℕ)
    → IsBounded t m
    → IsBounded t (delete k m) × (length (delete k m) ≤ length m)
delete-IsBounded t k [] b = (tt, omega arith)
delete-IsBounded t k ((j, w) ∷ m) b =
    let rest = delete-IsBounded t k m b.1 in
    elim (Bool-cases (j == k)) [
      | inl y ↦ rw (y) (rest.0, omega (arith, rest.1))
      | inr f ↦ rw (f) ((b.0, rest.0), omega (arith, rest.1))
    ]

filter_map-IsBounded :
    (t : ℕ) (p : String → ℕ → Bool) (m : Map String ℕ)
    → IsBounded t m
    → IsBounded t (filter_map p m) × (length (filter_map p m) ≤ length m)
filter_map-IsBounded t p [] b = (tt, omega arith)
filter_map-IsBounded t p ((j, w) ∷ m) b =
    let rest = filter_map-IsBounded t p m b.1 in
    elim (Bool-cases (p j w)) [
      | inl y ↦ rw (y) ((b.0, rest.0), omega (arith, rest.1))
      | inr f ↦ rw (f) (rest.0, omega (arith, rest.1))
    ]

lookup-IsBounded :
    (t : ℕ) (k : String) (v : ℕ) (m : Map String ℕ)
    → IsBounded t m
    → lookup k m ≡ some v
    → v ≤ t + max_negative_cache_ttl
lookup-IsBounded t k v [] b h = absurd (ground (arith, h))
lookup-IsBounded t k v ((j, w) ∷ m) b h = elim (Bool-cases (j == k)) [
  | inl y ↦ let e : w ≡ v = ground (arith, y, h) in omega (arith, e, b.0)
  | inr f ↦ lookup-IsBounded t k v m b.1 (ground (arith, f, h))
]

abbrev pub IsKept : String → ℕ → Gate → Type 0
IsKept a t g =
    (g.neg_ttl ≤ max_negative_cache_ttl)
    × IsBounded t g.miss_until
    × (length g.miss_until ≤ negative_cache_max_entries)
    × (g.actor_type ≡ a)

negative_cache_ttl-bound : (d : ℤ) → negative_cache_ttl d ≤ max_negative_cache_ttl
unfolding negative_cache_ttl
negative_cache_ttl-bound d =
    if_elim (λ n. n ≤ max_negative_cache_ttl) (not (ltb_ℤ (pos 0) d)) {x = 0}
      {y = if ltb max_negative_cache_ttl (pos_part d) then max_negative_cache_ttl else pos_part d}
      (λ h. omega arith)
      λ h.
        if_elim (λ n. n ≤ max_negative_cache_ttl) (ltb max_negative_cache_ttl (pos_part d))
          {x = max_negative_cache_ttl} {y = pos_part d} (λ h. omega arith) λ f. ground (arith, f)

new_gate-IsKept : (t : ℕ) (a : String) (d : ℤ) → IsKept a t (new_gate a d)
unfolding new_gate
new_gate-IsKept t a d = (negative_cache_ttl-bound d, tt, omega arith, refl)

cached_entry-IsKept :
    (a : String) (t now : ℕ) (uid : String) (g : Gate) (o : Option ℕ)
    → IsKept a t g
    → IsKept a t (cached_entry now uid g o).0
cached_entry-IsKept a t now uid g none k = k
cached_entry-IsKept a t now uid g (some until) k =
    let left = delete-IsBounded t uid g.miss_until k.1 in
    let gone : Gate = record g { miss_until = delete uid g.miss_until } in
    if_elim (λ (r : Gate × Bool). IsKept a t r.0) (ltb now until) {x = (g, true)}
      {y = (gone, false)} (λ h. k) λ h. (k.0, left.0, omega (arith, left.1, k.2), k.3)

miss_cached-IsKept :
    (a : String) (t now : ℕ) (uid : String) (g : Gate)
    → IsKept a t g
    → IsKept a t (miss_cached now uid g).0
unfolding miss_cached
miss_cached-IsKept a t now uid g k =
    let found = cached_entry now uid g (lookup uid g.miss_until) in
    if_elim (λ (r : Gate × Bool). IsKept a t r.0) ((g.neg_ttl == 0) || (uid == "")) {x = (g, false)}
      {y = found} (λ h. k) λ h. cached_entry-IsKept a t now uid g (lookup uid g.miss_until) k

remember-IsKept :
    (a : String) (t now : ℕ) (uid : String) (g : Gate)
    → now ≤ t
    → is_full g ≡ false
    → IsKept a t g
    → IsKept a t (remember now uid g)
remember-IsKept a t now uid g le room k =
    let b = insert-IsBounded t uid (now + g.neg_ttl) g.miss_until (omega (arith, le, k.0)) k.1 in
    let less : length g.miss_until < negative_cache_max_entries = ground (arith, room) in
    (k.0, b.0, omega (arith, b.1, less), k.3)

cache_miss-IsKept :
    (a : String) (t now : ℕ) (uid : String) (g : Gate)
    → now ≤ t
    → IsKept a t g
    → IsKept a t (cache_miss now uid g)
unfolding cache_miss prune_locked
cache_miss-IsKept a t now uid g le k =
    let pruned = prune_locked now g in
    let f = filter_map-IsBounded t (λ uid until. ltb now until) g.miss_until k.1 in
    let p : IsKept a t pruned = (k.0, f.0, omega (arith, f.1, k.2), k.3) in
    let inner = if is_full pruned then pruned else remember now uid pruned in
    let outer = if is_full g then inner else remember now uid g in
    if_elim (IsKept a t) ((g.neg_ttl == 0) || (uid == "")) {x = g} {y = outer} (λ h. k)
      λ h.
        if_elim (IsKept a t) (is_full g) {x = inner} {y = remember now uid g}
          (λ h.
            if_elim (IsKept a t) (is_full pruned) {x = pruned} {y = remember now uid pruned}
              (λ h. p) λ room. remember-IsKept a t now uid pruned le room p)
          λ room. remember-IsKept a t now uid g le room k

judge-IsKept :
    (a : String) (t later : ℕ) (uid : String) (g : Gate) (answer : Answer)
    → later ≤ t
    → IsKept a t g
    → IsKept a t (judge later uid g answer).0
unfolding judge
judge-IsKept a t later uid g failed le k = k
judge-IsKept a t later uid g missing le k = cache_miss-IsKept a t later uid g le k
judge-IsKept a t later uid g (ended winner) le k = k

allow_activation-IsKept :
    (a : String) (t now later : ℕ) (pid_type uid : String) (answer : Answer) (g : Gate)
    → later ≤ t
    → IsKept a t g
    → IsKept a t (allow_activation now later pid_type uid answer g).0
unfolding allow_activation
allow_activation-IsKept a t now later pid_type uid answer g le k =
    let asked = miss_cached now uid g in
    let m = miss_cached-IsKept a t now uid g k in
    let inner = if asked.1 then (asked.0, allowed) else judge later uid asked.0 answer in
    if_elim (λ (r : Gate × Verdict). IsKept a t r.0)
      ((g.actor_type == "") || not (pid_type == g.actor_type)) {x = (g, allowed)} {y = inner}
      (λ h. k)
      λ h.
        if_elim (λ (r : Gate × Verdict). IsKept a t r.0) asked.1 {x = (asked.0, allowed)}
          {y = judge later uid asked.0 answer} (λ h. m)
          λ h. judge-IsKept a t later uid asked.0 answer le m

run-IsKept :
    (a : String) (t : ℕ) (cs : List Call) (g : Gate)
    → All (λ c. c.later ≤ t) cs
    → IsKept a t g
    → IsKept a t (run cs g)
unfolding run
run-IsKept a t [] g h k = k
run-IsKept a t (c ∷ cs) g h k =
    run-IsKept a t cs (allow_activation c.now c.later c.pid_type c.uid c.answer g).0 h.1
      (allow_activation-IsKept a t c.now c.later c.pid_type c.uid c.answer g h.0 k)

cached_entry-late :
    (t now : ℕ) (uid : String) (g : Gate) (o : Option ℕ)
    → t + max_negative_cache_ttl ≤ now
    → ((v : ℕ) → o ≡ some v → v ≤ t + max_negative_cache_ttl)
    → (cached_entry now uid g o).1 ≡ false
cached_entry-late t now uid g none le h = refl
cached_entry-late t now uid g (some until) le h = let b = h until refl in ground (arith, b, le)

miss_cached-late :
    (a : String) (t now : ℕ) (uid : String) (g : Gate)
    → t + max_negative_cache_ttl ≤ now
    → IsKept a t g
    → (miss_cached now uid g).1 ≡ false
unfolding miss_cached
miss_cached-late a t now uid g le k =
    let found = cached_entry now uid g (lookup uid g.miss_until) in
    if_elim (λ (r : Gate × Bool). r.1 ≡ false) ((g.neg_ttl == 0) || (uid == "")) {x = (g, false)}
      {y = found} (λ h. refl)
      λ h.
        cached_entry-late t now uid g (lookup uid g.miss_until) le
          λ v e. lookup-IsBounded t uid v g.miss_until k.1 e

guarded : (a b : String) → a ≢ "" → b ≡ a → ((b == "") || not (a == b)) ≡ false
guarded a b ne e = ground (arith, str_iff b "", str_iff a b, e, ne)

ended-refused :
    (a : String) (now later : ℕ) (uid winner : String) (g : Gate)
    → a ≢ ""
    → g.actor_type ≡ a
    → (miss_cached now uid g).1 ≡ false
    → (allow_activation now later a uid (ended winner) g).1 ≡ refused winner
unfolding allow_activation judge
ended-refused a now later uid winner g ne e miss =
    let asked = miss_cached now uid g in
    let last = judge later uid asked.0 (ended winner) in
    let Named : Gate × Verdict → Type 0 = λ r. r.1 ≡ refused winner in
    if_elim Named ((g.actor_type == "") || not (a == g.actor_type)) {x = (g, allowed)}
      {y = if asked.1 then (asked.0, allowed) else last}
      (λ h. absurd (ground (arith, h, guarded a g.actor_type ne e)))
      λ h.
        if_elim Named asked.1 {x = (asked.0, allowed)} {y = last}
          (λ h. absurd (ground (arith, h, miss))) λ h. refl

-- After any calls, of which none asked the ledger later than at a time `t`, a gate refuses to start a
-- battle that the ledger knows as ended from 200 milliseconds after `t` on, whatever time to believe
-- a miss it was given, and names the winner; and it never remembers more than 4096 misses. The battle
-- is of the type that the gate is for, which is not empty.
pub run-refused :
    (a : String) (d : ℤ) (t : ℕ) (cs : List Call) (now later : ℕ) (uid winner : String)
    → a ≢ ""
    → All (λ c. c.later ≤ t) cs
    → t + max_negative_cache_ttl ≤ now
    → ((allow_activation now later a uid (ended winner) (run cs (new_gate a d))).1 ≡ refused winner)
      × (length (run cs (new_gate a d)).miss_until ≤ negative_cache_max_entries)
run-refused a d t cs now later uid winner ne h le =
    let g = run cs (new_gate a d) in
    let k = run-IsKept a t cs (new_gate a d) h (new_gate-IsKept t a d) in
    let miss = miss_cached-late a t now uid g le k in
    (ended-refused a now later uid winner g ne k.3 miss, k.2)
