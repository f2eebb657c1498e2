-- ===== src/Utils/HostAddress.antt =====
-- data-plane/internal/utils/utils.go: GetHostAddress.
use sentinel_zero_trust.Common.{
  ◌≡◌, refl, sym, ap, ◌∙◌, Option, none, some, List, [], ◌∷◌, ◌++◌, Text, codes, concat,
}
use sentinel_zero_trust.Std.Net.{Ipv4, ip_string}

-- A `net.IP`: nil, one that has four bytes (or stands for such), or a proper IPv6 address.
pub data Ip : Type 0 where
  nil_ip : Ip
  v4 : Ipv4 → Ip
  v6 : Text → Ip

-- The dynamic type of a `net.Addr`.
pub data Addr : Type 0 where
  ip_net : Ip → Addr
  ip_addr : Ip → Addr
  other : Addr

unfoldable pub to4 : Ip → Option Ipv4
to4 (v4 ip) = some ip
to4 nil_ip = none
to4 (v6 bytes) = none

-- The value that one address leaves in `ip`. `byte('1')` is 49.
unfoldable pub ip_of : Addr → Ip
ip_of (ip_net ip) = ip
ip_of (ip_addr ip) = ip
ip_of other = v4 (record { b0 = b'1'; b1 = b'2'; b2 = b'3'; b3 = b'4' })

addrs_loop : Ip → List Addr → Ip
unfolding ip_of
addrs_loop ip [] = ip
addrs_loop ip (a ∷ as') = addrs_loop (ip_of a) as'

ifaces_loop : Ip → List (List Addr) → Ip
unfolding addrs_loop
ifaces_loop ip [] = ip
ifaces_loop ip (addrs ∷ rest) = ifaces_loop (addrs_loop ip addrs) rest

-- `ip.To4().String()`
unfoldable pub to4_string : Ip → Text
unfolding to4
to4_string ip = elim (to4 ip) [ none ↦ codes "<nil>" | some a ↦ ip_string a ]

-- The argument is what `net.Interfaces` and `Addrs` answer, their errors read as no entries.
unfoldable pub get_host_address : List (List Addr) → Text
unfolding ifaces_loop to4_string
get_host_address ifaces = to4_string (ifaces_loop nil_ip ifaces)

addrs_loop-append :
    (ip : Ip) (xs ys : List Addr) → addrs_loop ip (xs ++ ys) ≡ addrs_loop (addrs_loop ip xs) ys
unfolding addrs_loop
addrs_loop-append ip [] ys = refl
addrs_loop-append ip (x ∷ xs) ys = addrs_loop-append (ip_of x) xs ys

ifaces_loop-concat :
    (ip : Ip) (ifaces : List (List Addr)) → ifaces_loop ip ifaces ≡ addrs_loop ip (concat ifaces)
unfolding ifaces_loop
ifaces_loop-concat ip [] = refl
ifaces_loop-concat ip (addrs ∷ rest) =
    ifaces_loop-concat (addrs_loop ip addrs) rest ∙ sym (addrs_loop-append ip addrs (concat rest))

abbrev pub print_of : Addr → Text
print_of (ip_net ip) = to4_string ip
print_of (ip_addr ip) = to4_string ip
print_of other = codes "49.50.51.52"

to4_string-ip_of : (a : Addr) → to4_string (ip_of a) ≡ print_of a
unfolding ip_of to4_string ip_string
to4_string-ip_of (ip_net ip) = refl
to4_string-ip_of (ip_addr ip) = refl
to4_string-ip_of other = refl

addrs_loop_last : (ip : Ip) (a : Addr) → addrs_loop ip (a ∷ []) ≡ ip_of a
unfolding addrs_loop
addrs_loop_last ip a = refl

-- The address found is the last of the last interface that has one, printed if it is an IPv4
-- address and "<nil>" if it is IPv6; an address of any other kind gives 49.50.51.52.
pub get_host_address_last :
    (ifaces : List (List Addr)) (xs : List Addr) (a : Addr)
    → concat ifaces ≡ xs ++ (a ∷ [])
    → get_host_address ifaces ≡ print_of a
unfolding get_host_address
get_host_address_last ifaces xs a e =
    ap to4_string (
      ifaces_loop-concat nil_ip ifaces
      ∙ ap (addrs_loop nil_ip) e
      ∙ addrs_loop-append nil_ip xs (a ∷ [])
      ∙ addrs_loop_last (addrs_loop nil_ip xs) a)
    ∙ to4_string-ip_of a
