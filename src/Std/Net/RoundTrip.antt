-- ===== src/Std/Net/RoundTrip.antt =====
-- Reading an address back from its print.
use sentinel_zero_trust.Common.{
  ℕ, suc, ◌≡◌, refl, sym, ap, ◌∙◌, ◌≢◌, ◌⊎◌, inl, inr, false, List, [], ◌∷◌, ◌++◌, Text, codes,
  arith, ◌==◌, All, All-append, All-map, none, some, length, take, drop, ok,
}
use sentinel_zero_trust.Std.Strings.{
  contains, contains-append, split, join, Lacks, Lacks-contains, split-join,
}
use sentinel_zero_trust.Std.Strconv.{itoa, IsDigit, itoa-IsDigit, itoa-injective, itoa-ne-nil}
use sentinel_zero_trust.Std.Net.{
  last_index_byte, plain, split_host_port, join_host_port, Ipv4, octets, ip_string, TcpAddr,
  addr_string,
}

last_index_byte-Lacks : (c : ℕ) (s : Text) → contains c s ≡ false → last_index_byte c s ≡ none
unfolding last_index_byte contains
last_index_byte-Lacks c [] h = refl
last_index_byte-Lacks c (x ∷ s) h = ground (arith, last_index_byte-Lacks c s)

last_index_byte-append :
    (c : ℕ) (s t : Text) → contains c t ≡ false → last_index_byte c (s ++ (c ∷ t)) ≡ some (length s)
unfolding last_index_byte
last_index_byte-append c [] t h = ground (arith, last_index_byte-Lacks c t)
last_index_byte-append c (x ∷ s) t h = ground (arith, last_index_byte-append c s t)

take-append : (s t : Text) → take (length s) (s ++ t) ≡ s
take-append [] t = refl
take-append (x ∷ s) t = ap (λ r. x ∷ r) (take-append s t)

drop-append : (s t : Text) (c : ℕ) → drop (suc (length s)) (s ++ (c ∷ t)) ≡ t
drop-append [] t c = refl
drop-append (x ∷ s) t c = drop-append s t c

-- A host without colon or brackets and a port without them.
pub record IsPlain (s : Text) : Type 0 where
  pub no_colon : contains b':' s ≡ false
  pub no_open : contains b'[' s ≡ false
  pub no_close : contains b']' s ≡ false

contains-pair :
    (c : ℕ) (host port : Text)
    → (b':' == c) ≡ false
    → contains c host ≡ false
    → contains c port ≡ false
    → contains c (host ++ (b':' ∷ port)) ≡ false
unfolding contains
contains-pair c host port n h p = ground (arith, contains-append c host (b':' ∷ port))

contains-take_one : (c : ℕ) (s : Text) → contains c s ≡ false → contains c (take 1 s) ≡ false
unfolding contains
contains-take_one c [] h = refl
contains-take_one c (x ∷ s) h = ground arith

module _ (host port : Text) (h : IsPlain host) (p : IsPlain port) where
  no_open_pair : contains b'[' (host ++ (b':' ∷ port)) ≡ false
  no_open_pair = contains-pair b'[' host port refl h.no_open p.no_open

  plain_lem : plain (host ++ (b':' ∷ port)) (length host) ≡ ok (host, port)
  unfolding plain
  plain_lem = rw (
    take-append host (b':' ∷ port),
    h.no_colon,
    no_open_pair,
    contains-pair b']' host port refl h.no_close p.no_close,
    drop-append host port b':',
  )

  -- `host:port` is split at its colon.
  split_host_port-plain : split_host_port (host ++ (b':' ∷ port)) ≡ ok (host, port)
  unfolding split_host_port
  split_host_port-plain =
      rw
        (
          last_index_byte-append b':' host port p.no_colon,
          split_host_port,
          contains-take_one b'[' _ no_open_pair,
        )
        plain_lem

  pub split_host_port-join : split_host_port (join_host_port host port) ≡ ok (host, port)
  unfolding join_host_port
  split_host_port-join = rw (h.no_colon) split_host_port-plain

-- The print of an address holds digits and dots only.
abbrev IsDigitOrDot : ℕ → Type 0
IsDigitOrDot c = IsDigit c ⊎ (c ≡ b'.')

IsDigitOrDot-IsPlain : (s : Text) → All IsDigitOrDot s → IsPlain s
IsDigitOrDot-IsPlain s h = record {
  no_colon = Lacks-contains b':' s (All-map (λ c d. not_colon c d) s h);
  no_open = Lacks-contains b'[' s (All-map (λ c d. not_open c d) s h);
  no_close = Lacks-contains b']' s (All-map (λ c d. not_close c d) s h);
}
  where
    not_colon : (c : ℕ) → IsDigitOrDot c → (c == b':') ≡ false
    not_colon c d = ground arith

    not_open : (c : ℕ) → IsDigitOrDot c → (c == b'[') ≡ false
    not_open c d = ground arith

    not_close : (c : ℕ) → IsDigitOrDot c → (c == b']') ≡ false
    not_close c d = ground arith

itoa-IsDigitOrDot : (n : ℕ) → All IsDigitOrDot (itoa n)
itoa-IsDigitOrDot n = All-map (λ c h. inl h) (itoa n) (itoa-IsDigit n)

pub itoa-IsPlain : (n : ℕ) → IsPlain (itoa n)
itoa-IsPlain n = IsDigitOrDot-IsPlain (itoa n) (itoa-IsDigitOrDot n)

join-IsDigitOrDot :
    (ws : List Text) → All (All IsDigitOrDot) ws → All IsDigitOrDot (join (codes ".") ws)
join-IsDigitOrDot [] h = tt
join-IsDigitOrDot (w ∷ []) (h, _) = h
join-IsDigitOrDot (w ∷ v ∷ ws) (h, hs) =
    All-append IsDigitOrDot w _ h (inr refl, join-IsDigitOrDot (v ∷ ws) hs)

pub ip_string-IsPlain : (ip : Ipv4) → IsPlain (ip_string ip)
unfolding ip_string
ip_string-IsPlain ip = IsDigitOrDot-IsPlain _ (
    join-IsDigitOrDot (octets ip) (
      itoa-IsDigitOrDot ip.b0,
      (itoa-IsDigitOrDot ip.b1, (itoa-IsDigitOrDot ip.b2, (itoa-IsDigitOrDot ip.b3, tt))),
    ))

-- The host part of a printed address is the print of its IP, the port part that of its port.
pub split_host_port-addr_string :
    (a : TcpAddr) → split_host_port (addr_string a) ≡ ok (ip_string a.ip, itoa a.port)
unfolding addr_string
split_host_port-addr_string a =
    split_host_port-join (ip_string a.ip) (itoa a.port) (ip_string-IsPlain a.ip)
      (itoa-IsPlain a.port)

itoa-Lacks : (n : ℕ) → Lacks b'.' (itoa n)
itoa-Lacks n = All-map (λ c h. no_dot c h) (itoa n) (itoa-IsDigit n)
  where
    no_dot : (c : ℕ) → IsDigit c → (c == b'.') ≡ false
    no_dot c h = ground arith

split-ip_string : (ip : Ipv4) → split b'.' (ip_string ip) ≡ octets ip
unfolding ip_string
split-ip_string ip =
    split-join b'.' (octets ip) (cc)
      (itoa-Lacks ip.b0, (itoa-Lacks ip.b1, (itoa-Lacks ip.b2, (itoa-Lacks ip.b3, tt))))

-- Two addresses with one print are one address.
pub ip_string-injective : (a b : Ipv4) → ip_string a ≡ ip_string b → a ≡ b
ip_string-injective a b e = ground (
  arith,
  same,
  itoa-injective a.b0 b.b0,
  itoa-injective a.b1 b.b1,
  itoa-injective a.b2 b.b2,
  itoa-injective a.b3 b.b3,
)
  where
    same : octets a ≡ octets b
    same = sym (split-ip_string a) ∙ ap (split b'.') e ∙ split-ip_string b

join-ne-nil : (w : Text) (ws : List Text) → w ≢ [] → join (codes ".") (w ∷ ws) ≢ []
join-ne-nil w [] h = h
join-ne-nil [] (v ∷ ws) h = absurd (h refl)
join-ne-nil (c ∷ w) (v ∷ ws) h = cc

pub ip_string-ne-nil : (ip : Ipv4) → ip_string ip ≢ []
unfolding ip_string
ip_string-ne-nil ip =
    join-ne-nil (itoa ip.b0) (itoa ip.b1 ∷ itoa ip.b2 ∷ itoa ip.b3 ∷ []) (itoa-ne-nil ip.b0)
