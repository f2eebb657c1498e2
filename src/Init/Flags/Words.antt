-- ===== src/Init/Flags/Words.antt =====
-- A printed number is one word of a command line.
use sentinel_zero_trust.Common.{
  ℕ, zero, suc, ◌/◌, ◌%◌, ◌<◌, ◌≡◌, refl, inl, inr, false, Bool-cases, [], ◌∷◌, ◌++◌, Text, codes,
  ltb, All-append, All-map, arith,
}
use sentinel_zero_trust.Common.Int.{ℤ, pos, negsuc}
use sentinel_zero_trust.Std.Strings.{is_space, NoSpace, IsWord}
use sentinel_zero_trust.Std.Strconv.{itoa, IsDigit, itoa-IsDigit, itoa-ne-nil}
use sentinel_zero_trust.Init.Flags.{fmt_d, fmt_x, hex_digit, hex_from}

digit_no_space : (c : ℕ) → IsDigit c → is_space c ≡ false
digit_no_space c h = ground arith

itoa-NoSpace : (n : ℕ) → NoSpace (itoa n)
itoa-NoSpace n = All-map digit_no_space (itoa n) (itoa-IsDigit n)

pub fmt_d-IsWord : (z : ℤ) → IsWord (fmt_d z)
unfolding fmt_d
fmt_d-IsWord (pos n) = (itoa-ne-nil n, itoa-NoSpace n)
fmt_d-IsWord (negsuc n) = (λ e. cc, (refl, itoa-NoSpace (suc n)))

hex_digit_no_space : (d : ℕ) → d < 16 → is_space (hex_digit d) ≡ false
unfolding hex_digit
hex_digit_no_space d h = ground arith

hex_from-NoSpace : (f n : ℕ) (rest : Text) → NoSpace rest → NoSpace (hex_from f n rest)
unfolding hex_from
hex_from-NoSpace zero n rest h = h
hex_from-NoSpace (suc f) n rest h = elim (Bool-cases (ltb n 16)) [
  | inl e ↦ rw (e, hex_from) (hex_digit_no_space n (ground arith), h)
  | inr e ↦
      rw (e, hex_from)
        (hex_from-NoSpace f (n / 16) (hex_digit (n % 16) ∷ rest)
          (hex_digit_no_space (n % 16) (omega arith), h))
]

fmt_x-NoSpace : (z : ℤ) → NoSpace (fmt_x z)
unfolding fmt_x
fmt_x-NoSpace (pos n) = hex_from-NoSpace (suc n) n [] tt
fmt_x-NoSpace (negsuc n) = (refl, hex_from-NoSpace (suc (suc n)) (suc n) [] tt)

-- The mark as the rules print it.
pub mark-IsWord : (z : ℤ) → IsWord (codes "0x" ++ (fmt_x z ++ codes "/0xfff"))
mark-IsWord z = (
  λ e. cc,
  (
    refl,
    (
      refl,
      All-append _ (fmt_x z) (codes "/0xfff") (fmt_x-NoSpace z)
          (refl, (refl, (refl, (refl, (refl, (refl, tt)))))),
    ),
  ),
)
