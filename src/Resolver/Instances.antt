-- ===== src/Resolver/Instances.antt =====
-- The frame instances of the registry, `Instance` of services/edge/internal/resolver/ports.go and
-- `hasPort` of resolver.go: an instance's address on a face, and whether it has a port there.
use Prim.Native.Char.{code}
use atlas_game_layout.Common.{
  atoi, ℕ, String, Bool, false, Option, none, some, Map, lookup, ◌==◌, ◌||◌, ltb, nat_key,
  string_key, if◌then◌else◌,
}

pub record Instance : Type 0 where
  pub id : String
  pub node_id : String
  pub host : String
  pub ports : Map String String
  pub endpoint_host : String

-- `i.host()`.
unfoldable pub host_of : Instance → String
host_of i = if i.host == "" then i.endpoint_host else i.host

abbrev text_of : Option String → String
text_of none = ""
text_of (some s) = s

-- `i.port(face)`.
unfoldable pub port_of : Instance → String → String
port_of i face = text_of (lookup face i.ports)

abbrev append : String → String → String
append String.[] t = t
append (String.◌∷◌ c s) t = String.◌∷◌ c (append s t)

abbrev has_colon : String → Bool
has_colon String.[] = false
has_colon (String.◌∷◌ c s) = (code c == 58) || has_colon s

-- `net.JoinHostPort`.
abbrev join_host_port : String → String → String
join_host_port h p =
    if has_colon h then append "[" (append h (append "]:" p)) else append h (append ":" p)

-- `i.Address(face)`.
unfoldable pub address : Instance → String → String
unfolding host_of port_of
address i face = join_host_port (host_of i) (port_of i face)

abbrev is_positive : Option ℕ → Bool
is_positive none = false
is_positive (some n) = ltb 0 n

-- `i.hasPort(face)`.
unfoldable pub has_port : Instance → String → Bool
unfolding port_of
has_port i face = is_positive (atoi (port_of i face))
