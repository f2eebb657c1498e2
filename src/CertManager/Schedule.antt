-- ===== src/CertManager/Schedule.antt =====
-- When the rotation loop wakes: the renewal time and the sleep before it, in nanoseconds.
use sentinel_zero_trust.Common.{ℕ, ◌-◌, ◌*◌, ◌^◌, ◌≡◌, arith, if◌then◌else◌}
use sentinel_zero_trust.Common.Int.{
  ℤ, pos, negsuc, ◌-ℤ◌, ◌+ℤ◌, ◌≤ℤ◌, ◌<ℤ◌, leb_ℤ, +ℤ_parts, -ℤ_parts, is_zero,
}

abbrev pub second : ℕ
second = 1000000000

abbrev pub minute : ℕ
minute = 60 * second

abbrev pub max_duration : ℕ
max_duration = 2 ^ 63 - 1

-- `time.Time.Sub` saturates at the ends of int64.
unfoldable pub saturate : ℤ → ℤ
saturate d =
    if leb_ℤ (pos max_duration) d
    then pos max_duration
    else if leb_ℤ d (negsuc max_duration)
    then negsuc max_duration
    else d

-- The window that is used: 0 stands for five minutes.
unfoldable pub effective_window : ℤ → ℤ
effective_window w = if is_zero w then pos (5 * minute) else w

-- `leaf.NotAfter.Add(-window)`
unfoldable pub renew_time : ℤ → ℤ → ℤ
unfolding effective_window ◌-ℤ◌
renew_time window not_after = not_after -ℤ effective_window window

-- `time.Until(renewTime)`, or ten seconds where that has passed.
unfoldable pub sleep_duration : ℤ → ℤ → ℤ → ℤ
sleep_duration window not_after now =
    let d = saturate (renew_time window not_after -ℤ now) in
    if leb_ℤ d (pos 0) then pos (10 * second) else d

or_ten_seconds_pos : (d : ℤ) → pos 0 <ℤ (if leb_ℤ d (pos 0) then pos (10 * second) else d)
or_ten_seconds_pos d = ground arith

-- The sleep is always positive, whatever the window, the certificate and the clock.
pub sleep_duration_pos : (window not_after now : ℤ) → pos 0 <ℤ sleep_duration window not_after now
unfolding sleep_duration
sleep_duration_pos window not_after now =
    or_ten_seconds_pos (saturate (renew_time window not_after -ℤ now))

saturate_le : (d : ℤ) → pos 0 <ℤ d → (pos 0 <ℤ saturate d) × (saturate d ≤ℤ d)
unfolding saturate
saturate_le d h = ground arith

saturate_neg : (d : ℤ) → d ≤ℤ pos 0 → saturate d ≤ℤ pos 0
unfolding saturate
saturate_neg d h = ground arith

or_ten_seconds_of_pos :
    (d : ℤ) → pos 0 <ℤ d → (if leb_ℤ d (pos 0) then pos (10 * second) else d) ≡ d
or_ten_seconds_of_pos d h = ground arith

or_ten_seconds_of_neg :
    (d : ℤ) → d ≤ℤ pos 0 → (if leb_ℤ d (pos 0) then pos (10 * second) else d) ≡ pos (10 * second)
or_ten_seconds_of_neg d h = ground arith

-- Before the renewal time the loop wakes no later than that time.
pub sleep_duration-le-renew_time :
    (window not_after now : ℤ)
    → now <ℤ renew_time window not_after
    → now +ℤ sleep_duration window not_after now ≤ℤ renew_time window not_after
unfolding sleep_duration
sleep_duration-le-renew_time window not_after now h =
    rw (or_ten_seconds_of_pos _ (saturate_le _ left).0) (
      omega (
        arith,
        saturate_le _ left,
        -ℤ_parts (renew_time window not_after) now,
        +ℤ_parts now (saturate (renew_time window not_after -ℤ now)),
      ))
  where
    left : pos 0 <ℤ renew_time window not_after -ℤ now
    left = omega (arith, -ℤ_parts (renew_time window not_after) now)

-- From the renewal time on it retries every ten seconds.
pub sleep_duration_late :
    (window not_after now : ℤ)
    → renew_time window not_after ≤ℤ now
    → sleep_duration window not_after now ≡ pos (10 * second)
unfolding sleep_duration
sleep_duration_late window not_after now h =
    or_ten_seconds_of_neg _
      (saturate_neg _ (omega (arith, -ℤ_parts (renew_time window not_after) now)))
