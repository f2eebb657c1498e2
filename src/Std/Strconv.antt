-- ===== src/Std/Strconv.antt =====
-- Package strconv, and `%d` of package fmt: decimal numbers.
use sentinel_zero_trust.Common.{
  ℕ, zero, suc, ◌+◌, ◌-◌, ◌*◌, ◌/◌, ◌%◌, ◌^◌, ◌<◌, ◌≡◌, refl, ap, ◌≢◌, Bool, true, false, ◌&&◌, [],
  ◌∷◌, Text, codes, arith, leb, ltb, ◌==◌, if◌then◌else◌, All, Option, none, some, Result, ok, err,
  Bool-cases, inl, inr,
}
use sentinel_zero_trust.Common.Int.{ℤ, pos, negsuc, sub_ℕ}

-- Digits of `n` in front of `rest`, on fuel: each round divides by ten, so `suc n` rounds are
-- enough (`scan-itoa`).
unfoldable pub digits_from : ℕ → ℕ → Text → Text
digits_from zero n rest = rest
digits_from (suc f) n rest =
    let more = digits_from f (n / 10) ((b'0' + n % 10) ∷ rest) in
    if ltb n 10 then (b'0' + n) ∷ rest else more

unfoldable pub itoa : ℕ → Text
unfolding digits_from
itoa n = digits_from (suc n) n []

-- `%d` of an `int`.
unfoldable pub fmt_d : ℤ → Text
unfolding itoa
fmt_d (pos n) = itoa n
fmt_d (negsuc n) = b'-' ∷ itoa (suc n)

abbrev pub is_digit : ℕ → Bool
is_digit c = leb b'0' c && leb c b'9'

-- The number that digits spell behind `n`.
unfoldable pub scan : Text → ℕ → Option ℕ
scan [] n = some n
scan (c ∷ s) n = if is_digit c then scan s (n * 10 + (c - b'0')) else none

-- The range of `int` on a 64-bit machine.
in_range : Bool → ℕ → Result ℤ
in_range true n = if leb n (2 ^ 63) then ok (sub_ℕ 0 n) else err (codes "value out of range")
in_range false n = if ltb n (2 ^ 63) then ok (pos n) else err (codes "value out of range")

magnitude : Bool → Text → Result ℤ
unfolding in_range scan
magnitude negative [] = err (codes "invalid syntax")
magnitude negative (c ∷ s) = elim (scan (c ∷ s) 0) [
  | none ↦ err (codes "invalid syntax")
  | some n ↦ in_range negative n
]

-- `strconv.Atoi`
unfoldable pub atoi : Text → Result ℤ
unfolding magnitude
atoi [] = err (codes "invalid syntax")
atoi (c ∷ s) =
    if c == b'-'
    then magnitude true s
    else if c == b'+'
    then magnitude false s
    else magnitude false (c ∷ s)

abbrev pub IsDigit : ℕ → Type 0
IsDigit c = is_digit c ≡ true

digits_from-IsDigit :
    (f n : ℕ) (rest : Text) → All IsDigit rest → All IsDigit (digits_from f n rest)
unfolding digits_from
digits_from-IsDigit zero n rest h = h
digits_from-IsDigit (suc f) n rest h = elim (Bool-cases (ltb n 10)) [
  | inl e ↦ rw (e, digits_from) (ground arith, h)
  | inr e ↦
      rw (e, digits_from)
        (digits_from-IsDigit f (n / 10) ((b'0' + n % 10) ∷ rest) (ground arith, h))
]

scan-digits_from : (f n : ℕ) (rest : Text) → n < f → scan (digits_from f n rest) 0 ≡ scan rest n
unfolding scan digits_from
scan-digits_from zero n rest h = absurd (omega arith)
scan-digits_from (suc f) n rest h =
    ground (arith, scan-digits_from f (n / 10) ((b'0' + n % 10) ∷ rest))

-- The decimal print of a number is all digits and spells that number, so it determines it.
pub itoa-IsDigit : (n : ℕ) → All IsDigit (itoa n)
unfolding itoa
itoa-IsDigit n = digits_from-IsDigit (suc n) n [] tt

pub scan-itoa : (n : ℕ) → scan (itoa n) 0 ≡ some n
unfolding itoa scan
scan-itoa n = scan-digits_from (suc n) n [] (omega arith)

pub itoa-injective : (m n : ℕ) → itoa m ≡ itoa n → m ≡ n
itoa-injective m n e = cc (scan-itoa m, scan-itoa n, ap (λ s. scan s 0) e)

digits_from-ne-nil : (f n : ℕ) (rest : Text) → rest ≢ [] → digits_from f n rest ≢ []
unfolding digits_from
digits_from-ne-nil zero n rest h = h
digits_from-ne-nil (suc f) n rest h =
    ground (arith, digits_from-ne-nil f (n / 10) ((b'0' + n % 10) ∷ rest))

pub itoa-ne-nil : (n : ℕ) → itoa n ≢ []
unfolding itoa digits_from
itoa-ne-nil n = ground (arith, digits_from-ne-nil n (n / 10) ((b'0' + n % 10) ∷ []))

atoi-digits :
    (s : Text) (n : ℕ)
    → s ≢ []
    → All IsDigit s
    → scan s 0 ≡ some n
    → n < 2 ^ 63
    → atoi s ≡ ok (pos n)
unfolding atoi
atoi-digits [] n ne h e lt = absurd (ne refl)
atoi-digits (c ∷ s) n ne (hc, h) e lt = ground arith

-- Every `int` that is not negative is read back from its decimal print.
pub atoi-itoa : (n : ℕ) → n < 2 ^ 63 → atoi (itoa n) ≡ ok (pos n)
atoi-itoa n h = atoi-digits (itoa n) n (itoa-ne-nil n) (itoa-IsDigit n) (scan-itoa n) h
