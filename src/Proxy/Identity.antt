-- ===== src/Proxy/Identity.antt =====
-- data-plane/internal/proxy/proxy.go: ExtractIdentity and ExtractServerName.
use sentinel_zero_trust.Common.{
  ◌≡◌, refl, ap, ◌⊎◌, inl, inr, Bool, true, false, Bool-cases, List, [], ◌∷◌, ◌++◌, Text, codes, ok,
  err, All, if◌then◌else◌,
}
use sentinel_zero_trust.Std.Strings.{has_prefix}
use sentinel_zero_trust.Std.Net.{split_host_port, TcpAddr, addr_string, ip_string}
use sentinel_zero_trust.Std.Net.RoundTrip.{split_host_port-addr_string}
use sentinel_zero_trust.Proxy.Defs.{PeerCertificate}

abbrev pub is_spiffe : Text → Bool
is_spiffe san = has_prefix san (codes "spiffe://")

san_loop : List Text → Text → Text
san_loop [] common_name = common_name
san_loop (san ∷ sans) common_name = if is_spiffe san then san else san_loop sans common_name

unfoldable pub extract_identity : PeerCertificate → Text
unfolding san_loop
extract_identity cert = san_loop cert.dns_names cert.common_name

unfoldable pub extract_server_name : Text → Text
extract_server_name addr = elim (split_host_port addr) [ err e ↦ addr | ok (host, port) ↦ host ]

-- The first of the names that begins with "spiffe://".
abbrev pub IsFirstSpiffe : List Text → Text → Type 0
IsFirstSpiffe sans san =
    (before : List Text) × (rest : List Text) × (sans ≡ before ++ (san ∷ rest))
    × All (λ s. is_spiffe s ≡ false) before
    × (is_spiffe san ≡ true)

IsFirstSpiffe-cons :
    (s san : Text) (sans : List Text)
    → is_spiffe s ≡ false
    → IsFirstSpiffe sans san
    → IsFirstSpiffe (s ∷ sans) san
IsFirstSpiffe-cons s san sans n (before, rest, e, h, t) =
    (s ∷ before, rest, ap (λ ss. s ∷ ss) e, (n, h), t)

san_loop_lem :
    (sans : List Text) (cn : Text)
    → IsFirstSpiffe sans (san_loop sans cn)
      ⊎ ((san_loop sans cn ≡ cn) × All (λ s. is_spiffe s ≡ false) sans)
unfolding san_loop
san_loop_lem [] cn = inr (refl, tt)
san_loop_lem (s ∷ sans) cn = elim (Bool-cases (is_spiffe s)) [
  | inl e ↦ rw (e, san_loop) (inl ([], sans, refl, tt, e))
  | inr e ↦
      rw (e, san_loop)
        (elim (san_loop_lem sans cn) [
          | inl first ↦ inl (IsFirstSpiffe-cons s (san_loop sans cn) sans e first)
          | inr (q, h) ↦ inr (q, (refl, h))
        ])
]

-- The identity of a peer is the first of its DNS names that begins with "spiffe://", or, if none
-- does, its common name.
pub extract_identity_lem :
    (cert : PeerCertificate)
    → IsFirstSpiffe cert.dns_names (extract_identity cert)
      ⊎ ((extract_identity cert ≡ cert.common_name) × All (λ s. is_spiffe s ≡ false) cert.dns_names)
unfolding extract_identity
extract_identity_lem cert = san_loop_lem cert.dns_names cert.common_name

-- The server name of a printed TCP address is the print of its IP.
pub extract_server_name-addr_string :
    (a : TcpAddr) → extract_server_name (addr_string a) ≡ ip_string a.ip
unfolding extract_server_name
extract_server_name-addr_string a = rw (split_host_port-addr_string a, extract_server_name)
