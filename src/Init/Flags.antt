-- ===== src/Init/Flags.antt =====
-- sentinel-init/cmd/main.go: the flags, and the verbs of package fmt that print them.
pub mod Words
unfoldable pub use sentinel_zero_trust.Std.Strconv.{fmt_d}
use sentinel_zero_trust.Common.{
  ℕ, zero, suc, ◌+◌, ◌-◌, ◌/◌, ◌%◌, Bool, [], ◌∷◌, Text, ltb, if◌then◌else◌,
}
use sentinel_zero_trust.Common.Int.{ℤ, pos, negsuc}
use sentinel_zero_trust.Std.Strconv.{itoa}

pub record Flags : Type 0 where
  pub mode : Text
  pub inbound_port : ℤ
  pub outbound_port : ℤ
  pub service_port : Text
  pub proxy_uid : ℤ
  pub proxy_mark : ℤ
  pub exclude_ports : Text
  pub dry_run : Bool

hex_digit : ℕ → ℕ
hex_digit d = if ltb d 10 then b'0' + d else b'a' + (d - 10)

hex_from : ℕ → ℕ → Text → Text
unfolding hex_digit
hex_from zero n rest = rest
hex_from (suc f) n rest =
    let more = hex_from f (n / 16) (hex_digit (n % 16) ∷ rest) in
    if ltb n 16 then hex_digit n ∷ rest else more

-- `%x`; `suc n` rounds are enough, since each divides by sixteen.
unfoldable pub fmt_x : ℤ → Text
unfolding hex_from
fmt_x (pos n) = hex_from (suc n) n []
fmt_x (negsuc n) = b'-' ∷ hex_from (suc (suc n)) (suc n) []
