-- ===== src/AutoEvent/Frequency.antt =====
-- device-sdk-c/src/c/autoevent.c: `parseTime`, the interval of an automatic event in milliseconds.
-- `unsigned long` has 64 bits, and `strtoul` reads as the C standard has it.
use device_service_zigbee.Prelude.{
  ℕ, ◌-◌, ◌*◌, ◌%◌, ◌^◌, ◌<◌, ◌≡◌, refl, sym, ap, ◌∙◌, List, [], ◌∷◌, ◌++◌, Bytes, codes, All,
  arith, if◌then◌else◌, ltb, ◌==◌, str_eq, append-nil, false, lt→ltb,
}
use device_service_zigbee.Prelude.Decimal.{
  decimal, is_digit, IsDigit, scan_digits, skip_space, decimal-cons, decimal-IsDigit,
  scan_digits-append,
}

-- the table `suffixes`
abbrev pub suffixes : List (Bytes × ℕ)
suffixes = (codes "ms", 1) ∷ (codes "s", 1000) ∷ (codes "m", 60000) ∷ (codes "h", 3600000) ∷ []

pub skip_digits : Bytes → Bytes
skip_digits [] = []
skip_digits (c ∷ s) = let rest = skip_digits s in if is_digit c then rest else c ∷ s

-- the largest number where the magnitude does not fit
abbrev saturated : ℕ → ℕ → ℕ
saturated n wanted = if ltb n (2 ^ 64) then wanted else 2 ^ 64 - 1

-- the digits behind the sign; with none, 0 and the whole text
magnitude : Bytes → Bytes → (ℕ → ℕ) → ℕ × Bytes
magnitude spec [] sign = (0, spec)
magnitude spec (c ∷ s) sign =
    if is_digit c
    then (saturated (scan_digits (c ∷ s) 0) (sign (scan_digits (c ∷ s) 0)), skip_digits (c ∷ s))
    else (0, spec)

signed_magnitude : Bytes → Bytes → ℕ × Bytes
signed_magnitude spec [] = (0, spec)
signed_magnitude spec (c ∷ s) =
    if c == b'-'
    then magnitude spec s (λ n. (2 ^ 64 - n) % 2 ^ 64)
    else if c == b'+'
    then magnitude spec s (λ n. n)
    else magnitude spec (c ∷ s) (λ n. n)

-- `strtoul (spec, &fend, 10)`: the number, and the text at `fend`
pub strtoul : Bytes → ℕ × Bytes
unfolding magnitude signed_magnitude
strtoul spec = signed_magnitude spec (skip_space spec)

-- the loop of `parseTime`
pub scaled : ℕ → Bytes → List (Bytes × ℕ) → ℕ
scaled n fend [] = 0
scaled n fend ((str, factor) ∷ rest) =
    let later = scaled n fend rest in if str_eq fend str then (n * factor) % 2 ^ 64 else later

-- `parseTime`
pub parse_time : Bytes → ℕ
unfolding strtoul scaled
parse_time spec = let (n, fend) = strtoul spec in scaled n fend suffixes

skip_digits-append : (s t : Bytes) → All IsDigit s → skip_digits (s ++ t) ≡ skip_digits t
unfolding skip_digits
skip_digits-append [] t h = refl
skip_digits-append (c ∷ s) t h = ground (arith, h.0, skip_digits-append s t h.1)

magnitude-digit :
    (c : ℕ) (s : Bytes)
    → IsDigit c
    → strtoul (c ∷ s)
      ≡ (saturated (scan_digits (c ∷ s) 0) (scan_digits (c ∷ s) 0), skip_digits (c ∷ s))
unfolding strtoul skip_space signed_magnitude magnitude
magnitude-digit c s h = ground arith

-- `strtoul` reads a number below 2 ^ 64 and stops behind its digits.
strtoul-decimal :
    (n : ℕ) (t : Bytes)
    → n < 2 ^ 64
    → scan_digits t n ≡ n
    → skip_digits t ≡ t
    → strtoul (decimal n ++ t) ≡ (n, t)
strtoul-decimal n t h stop rest =
    let (c, s, e) = decimal-cons n in
    let all : All IsDigit (c ∷ s) = rw e at (decimal-IsDigit n) in
    let value : scan_digits (c ∷ (s ++ t)) 0 ≡ n = rw e at (scan_digits-append n t ∙ stop) in
    let behind : skip_digits (c ∷ (s ++ t)) ≡ t = skip_digits-append (c ∷ s) t all ∙ rest in
    rw e (magnitude-digit c (s ++ t) all.0 ∙ rw (value, behind, lt→ltb n (2 ^ 64) h) refl)

unit_read :
    (n : ℕ) (c : ℕ) (t : Bytes)
    → is_digit c ≡ false
    → n < 2 ^ 64
    → strtoul (decimal n ++ (c ∷ t)) ≡ (n, c ∷ t)
unfolding scan_digits skip_digits
unit_read n c t d h = strtoul-decimal n (c ∷ t) h (rw d refl) (rw d refl)

-- A whole number of milliseconds, seconds, minutes or hours is read as what it says, as long as that
-- many hours are below 2 ^ 64 milliseconds.
pub parse_time-decimal :
    (n : ℕ)
    → n * 3600000 < 2 ^ 64
    → All (λ (unit : Bytes × ℕ). parse_time (decimal n ++ unit.0) ≡ n * unit.1) suffixes
unfolding parse_time scaled
parse_time-decimal n h =
    let small : n < 2 ^ 64 = omega arith in
    (
      rw (unit_read n b'm' (codes "s") refl small) (omega arith),
      (
        rw (unit_read n b's' [] refl small) (omega arith),
        (
          rw (unit_read n b'm' [] refl small) (omega arith),
          (rw (unit_read n b'h' [] refl small) (omega arith), tt),
        ),
      ),
    )

-- A number without a unit is no interval.
pub parse_time_bare : (n : ℕ) → n < 2 ^ 64 → parse_time (decimal n) ≡ 0
unfolding parse_time scaled
parse_time_bare n h =
    let bare : strtoul (decimal n) ≡ (n, []) =
      ap strtoul (sym (append-nil (decimal n)))
      ∙ strtoul-decimal n [] h (unfold scan_digits in refl) (unfold skip_digits in refl) in
    rw bare refl
