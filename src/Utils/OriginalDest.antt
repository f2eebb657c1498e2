-- ===== src/Utils/OriginalDest.antt =====
-- data-plane/internal/utils/utils.go: GetOriginalDest, which asks the kernel where a redirected
-- connection was going.
pub mod Layout
use sentinel_zero_trust.Common.{ℕ, ◌+◌, ◌*◌, List, [], ◌∷◌, ◌++◌, Text, codes, Result, ok, err}
use sentinel_zero_trust.Std.Net.{Ipv4, TcpAddr}

-- `Multiaddr`, the sixteen bytes that `getsockopt` fills.
abbrev pub Multiaddr : Type 0
Multiaddr = ℕ → ℕ

-- What the kernel answers for one connection.
pub record Sockopt : Type 0 where
  pub dup_file : Result (Unit {0})  -- `conn.File()`
  pub original_dst : Result Multiaddr  -- `GetsockoptIPv6Mreq(…, SO_ORIGINAL_DST)`

pub data FileEvent : Type 0 where
  file_opened file_closed : FileEvent

-- `binary.BigEndian.Uint16`
abbrev pub big_endian_uint16 : ℕ → ℕ → ℕ
big_endian_uint16 hi lo = hi * 256 + lo

unfoldable pub addr_of : Multiaddr → TcpAddr
addr_of m = record {
  ip = record { b0 = m 4; b1 = m 5; b2 = m 6; b3 = m 7 };
  port = big_endian_uint16 (m 2) (m 3);
}

-- The duplicated file is closed on every path by `defer`.
unfoldable pub get_original_dest : Sockopt → List FileEvent × Result TcpAddr
unfolding addr_of
get_original_dest k = elim k.dup_file [
  | err e ↦ ([], err (codes "Failed to get file: " ++ e))
  | ok _ ↦ (
    file_opened ∷ file_closed ∷ [],
    elim k.original_dst [
      | err e ↦ err (codes "Failed to get original destination: " ++ e)
      | ok m ↦ ok (addr_of m)
    ],
  )
]
