-- ===== src/Simulator/Hash.antt =====
-- The hash of a race, services/battle/internal/biz/simulator/hash.go: FNV-1a over the players in
-- order. A `uint64` is a number below 2 ^ 64; a `uint32` of a position is its value modulo 2 ^ 32.
pub mod Order
use Prim.Native.Char.{code}
use atlas_game_layout.Common.{
  ℕ, zero, suc, ◌+◌, ◌-◌, ◌*◌, ◌/◌, ◌%◌, ◌^◌, String, List, [], ◌∷◌, ◌++◌, Map, lookup, length,
  member, string_key, nat_key, string_order, ltb, Bytes, if◌then◌else◌,
}
use atlas_game_layout.Common.Int.{ℤ, pos, negsuc}
use atlas_game_layout.Simulator.{Race, value}

-- The bytes of a string in UTF-8.
abbrev pub utf8_of : ℕ → Bytes
utf8_of c =
    if ltb c 128
    then c ∷ []
    else if ltb c 2048
    then (192 + c / 64) ∷ (128 + c % 64) ∷ []
    else if ltb c 65536
    then (224 + c / 4096) ∷ (128 + c / 64 % 64) ∷ (128 + c % 64) ∷ []
    else (240 + c / 262144) ∷ (128 + c / 4096 % 64) ∷ (128 + c / 64 % 64) ∷ (128 + c % 64) ∷ []

abbrev pub utf8 : String → Bytes
utf8 String.[] = []
utf8 (String.◌∷◌ c s) = utf8_of (code c) ++ utf8 s

-- `^` on numbers of n bits.
abbrev pub xor : ℕ → ℕ → ℕ → ℕ
xor zero a b = 0
xor (suc n) a b = (a + b) % 2 + 2 * xor n (a / 2) (b / 2)

abbrev pub fnv_offset64 : ℕ
fnv_offset64 = 14695981039346656037

abbrev pub fnv_prime64 : ℕ
fnv_prime64 = 1099511628211

-- One byte.
unfoldable pub mix : ℕ → ℕ → ℕ
mix h byte = xor 64 h byte * fnv_prime64 % 2 ^ 64

-- The loop of `hashU64`, of which n turns are left.
unfoldable pub hash_bytes_of : ℕ → ℕ → ℕ → ℕ
hash_bytes_of zero h v = h
hash_bytes_of (suc n) h v = hash_bytes_of n (mix h (v % 256)) (v / 256)

-- `hashU64`.
unfoldable pub hash_u64 : ℕ → ℕ → ℕ
hash_u64 h v = hash_bytes_of 8 h v

-- The loop of `hashString`.
unfoldable pub hash_all : ℕ → Bytes → ℕ
hash_all h [] = h
hash_all h (c ∷ cs) = hash_all (mix h c) cs

-- `hashString`.
unfoldable pub hash_string : ℕ → String → ℕ
hash_string h s = hash_all (hash_u64 h (length (utf8 s))) (utf8 s)

-- The two loops that gather the keys; `hasKey` is `member`.
unfoldable pub add_keys : Map String ℤ → List String → List String
add_keys [] ks = ks
add_keys ((p, v) ∷ m) ks = add_keys m (if member p ks then ks else ks ++ p ∷ [])

abbrev pub keys_of : Map String ℤ → List String
keys_of [] = []
keys_of ((p, v) ∷ m) = p ∷ keys_of m

-- One turn of the outer loop of `sortKeys`: the key goes down the sorted part, whose last element
-- comes first here.
unfoldable pub sink : String → List String → List String
sink k [] = k ∷ []
sink k (p ∷ ps) = let rest = sink k ps in if string_order.before k p then p ∷ rest else k ∷ p ∷ ps

abbrev pub sink_all : List String → List String → List String
sink_all [] done = done
sink_all (k ∷ ks) done = sink_all ks (sink k done)

abbrev pub reverse_onto : List String → List String → List String
reverse_onto [] acc = acc
reverse_onto (x ∷ xs) acc = reverse_onto xs (x ∷ acc)

-- `sortKeys`.
unfoldable pub sort_keys : List String → List String
unfolding sink
sort_keys ks = reverse_onto (sink_all ks []) []

-- `uint64(uint32(v))`.
unfoldable pub as_u32 : ℤ → ℕ
as_u32 (pos n) = n % 2 ^ 32
as_u32 (negsuc n) = 2 ^ 32 - 1 - n % 2 ^ 32

-- The loop of `Hash` over one of the maps.
unfoldable pub hash_entries : ℕ → Map String ℤ → List String → ℕ
hash_entries h m [] = h
hash_entries h m (p ∷ ps) =
    hash_entries (hash_u64 (hash_string h p) (as_u32 (value (lookup p m)))) m ps

-- `Hash`.
unfoldable pub hash : Race → ℕ
hash r =
    let ks = sort_keys (add_keys r.scores (keys_of r.positions)) in
    let h = hash_entries (hash_u64 fnv_offset64 (length ks)) r.positions ks in
    hash_string (hash_entries (hash_u64 h (length ks)) r.scores ks) r.winner
