-- ===== src/Utils/OriginalDest/Layout.antt =====
-- The layout of `struct sockaddr_in` against what GetOriginalDest reads from it.
use sentinel_zero_trust.Common.{ℕ, ◌/◌, ◌%◌, ◌<◌, ◌≡◌, ok, arith, ◌==◌, if◌then◌else◌, [], ◌∷◌}
use sentinel_zero_trust.Std.Net.{TcpAddr}
use sentinel_zero_trust.Utils.OriginalDest.{
  Multiaddr, file_opened, file_closed, addr_of, get_original_dest,
}

-- The kernel's encoding: family, port in network order, four bytes of address, padding.
unfoldable pub sockaddr_in : TcpAddr → Multiaddr
sockaddr_in a i =
    if i == 0
    then 2
    else if i == 2
    then a.port / 256
    else if i == 3
    then a.port % 256
    else if i == 4
    then a.ip.b0
    else if i == 5
    then a.ip.b1
    else if i == 6
    then a.ip.b2
    else if i == 7
    then a.ip.b3
    else 0

addr_of-sockaddr_in : (a : TcpAddr) → addr_of (sockaddr_in a) ≡ a
unfolding addr_of sockaddr_in
addr_of-sockaddr_in a = ground arith

-- What the kernel laid out as a `sockaddr_in` is read back exactly, and the duplicate of the
-- connection's file is closed.
pub get_original_dest-sockaddr_in :
    (a : TcpAddr)
    → get_original_dest (record { dup_file = ok tt; original_dst = ok (sockaddr_in a) })
      ≡ (file_opened ∷ file_closed ∷ [], ok a)
unfolding get_original_dest
get_original_dest-sockaddr_in a = rw (addr_of-sockaddr_in a)

-- From bytes the port is a uint16.
pub port-addr_of : (m : Multiaddr) → ((i : ℕ) → m i < 256) → (addr_of m).port < 65536
unfolding addr_of
port-addr_of m h = omega (arith, h 2, h 3)
