-- ===== src/Std/Net.antt =====
-- Package net: SplitHostPort, JoinHostPort and the print of an IPv4 address.
pub mod RoundTrip
use sentinel_zero_trust.Common.{
  ℕ, zero, suc, ◌+◌, ◌-◌, ◌≡◌, refl, sym, ap, ◌∙◌, ◌≢◌, Bool, true, false, ◌||◌, List, [], ◌∷◌,
  ◌++◌, map, Text, codes, arith, ◌==◌, ==_iff, if◌then◌else◌, All, All-append, All-map, Option,
  none, some, length, take, drop, Result, ok, err, map_err, append-nil, append_assoc,
}
use sentinel_zero_trust.Std.Strings.{
  contains, contains-append, split, join, Lacks, Lacks-contains, split-join,
}
use sentinel_zero_trust.Std.Strconv.{itoa, IsDigit, itoa-IsDigit, itoa-injective, itoa-ne-nil}

unfoldable pub index_byte : ℕ → Text → Option ℕ
index_byte c [] = none
index_byte c (x ∷ s) =
    if x == c then some 0 else elim (index_byte c s) [ none ↦ none | some i ↦ some (suc i) ]

unfoldable pub last_index_byte : ℕ → Text → Option ℕ
last_index_byte c [] = none
last_index_byte c (x ∷ s) = elim (last_index_byte c s) [
  | some i ↦ some (suc i)
  | none ↦ if x == c then some 0 else none
]

pub addr_error : Text → Text → Text
addr_error addr why = codes "address " ++ (addr ++ (codes ": " ++ why))

-- The checks for stray brackets in `hostport[j:]` and `hostport[k:]`, then the result.
checked : Text → Text → Text → Text → Text → Result (Text × Text)
unfolding contains
checked hostport host port from_j from_k =
    if contains b'[' from_j
    then err (addr_error hostport (codes "unexpected '[' in address"))
    else if contains b']' from_k
    then err (addr_error hostport (codes "unexpected ']' in address"))
    else ok (host, port)

-- `hostport` begins with '[' and its last colon is at `i`.
bracketed : Text → ℕ → Result (Text × Text)
unfolding index_byte checked
bracketed s i = elim (index_byte b']' s) [
  | none ↦ err (addr_error s (codes "missing ']' in address"))
  | some end ↦
      if suc end == length s
      then err (addr_error s (codes "missing port in address"))
      else if suc end == i
      then checked s (take (end - 1) (drop 1 s)) (drop (suc i) s) (drop 1 s) (drop (suc end) s)
      else if contains b':' (take 1 (drop (suc end) s))
      then err (addr_error s (codes "too many colons in address"))
      else err (addr_error s (codes "missing port in address"))
]

pub plain : Text → ℕ → Result (Text × Text)
unfolding checked
plain s i =
    if contains b':' (take i s)
    then err (addr_error s (codes "too many colons in address"))
    else checked s (take i s) (drop (suc i) s) s s

-- `net.SplitHostPort`
unfoldable pub split_host_port : Text → Result (Text × Text)
unfolding last_index_byte bracketed plain addr_error
split_host_port s = elim (last_index_byte b':' s) [
  | none ↦ err (addr_error s (codes "missing port in address"))
  | some i ↦ if contains b'[' (take 1 s) then bracketed s i else plain s i
]

-- `net.JoinHostPort`
unfoldable pub join_host_port : Text → Text → Text
join_host_port host port =
    if contains b':' host
    then codes "[" ++ (host ++ (codes "]:" ++ port))
    else host ++ (b':' ∷ port)

pub record Ipv4 : Type 0 where
  pub b0 : ℕ
  pub b1 : ℕ
  pub b2 : ℕ
  pub b3 : ℕ

abbrev pub octets : Ipv4 → List Text
octets ip = itoa ip.b0 ∷ itoa ip.b1 ∷ itoa ip.b2 ∷ itoa ip.b3 ∷ []

-- `IP.String()` of four bytes
unfoldable pub ip_string : Ipv4 → Text
unfolding itoa
ip_string ip = join (codes ".") (octets ip)

-- A `*net.TCPAddr` and its `String()`
pub record TcpAddr : Type 0 where
  pub ip : Ipv4
  pub port : ℕ

unfoldable pub addr_string : TcpAddr → Text
unfolding ip_string join_host_port itoa
addr_string a = join_host_port (ip_string a.ip) (itoa a.port)
