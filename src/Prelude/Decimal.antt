-- ===== src/Prelude/Decimal.antt =====
-- Decimal numbers: what `printf` writes for `%u`, and what `atoi` reads.
use Prim.Native.Nat.{ℕ, zero, suc, ◌+◌, ◌-◌, ◌*◌, ◌/◌, ◌%◌, ◌^◌, ◌≤◌, ◌<◌}
use mathlib.Core.Path.{◌≡◌, refl, sym, ap, ◌∙◌}
use mathlib.Core.Bool.{Bool, ◌&&◌, ◌||◌}
use mathlib.Core.List.{[], ◌∷◌, ◌++◌, append_assoc, append-nil}
use native.Mathlib.Omega.{arith}
use native.Mathlib.Nat.{pow-suc}
use device_service_zigbee.Prelude.Tests.{ltb, leb, ◌==◌, if◌then◌else◌, lt→ltb, not-ltb}
use native.Mathlib.Decide.{dec_lt}
use device_service_zigbee.Prelude.Lists.{length, length-append, All, All-append}
use device_service_zigbee.Prelude.Text.{Bytes}
use device_service_zigbee.Prelude.Int.{ℤ, pos, negsuc}
use device_service_zigbee.Prelude.Outcome.{Outcome, done, fault, bad_arithmetic}

-- One round for each digit; `suc n` rounds are enough.
digits : ℕ → ℕ → Bytes
digits zero n = []
digits (suc fuel) n =
    let rest = digits fuel (n / 10) in (if ltb n 10 then [] else rest) ++ (b'0' + n % 10) ∷ []

unfoldable pub decimal : ℕ → Bytes
unfolding digits
decimal n = digits (suc n) n

abbrev pub is_digit : ℕ → Bool
is_digit c = leb b'0' c && leb c b'9'

abbrev pub IsDigit : ℕ → Type 0
IsDigit c = (b'0' ≤ c) × (c ≤ b'9')

-- the number that the digits at the front of a text spell behind `acc`
unfoldable pub scan_digits : Bytes → ℕ → ℕ
scan_digits [] acc = acc
scan_digits (c ∷ s) acc =
    let rest = scan_digits s (acc * 10 + (c - b'0')) in if is_digit c then rest else acc

-- `isspace` in the C locale
abbrev pub is_space : ℕ → Bool
is_space c = c == 32 || leb 9 c && leb c 13

unfoldable pub skip_space : Bytes → Bytes
skip_space [] = []
skip_space (c ∷ s) = if is_space c then skip_space s else c ∷ s

-- the `int` of a sign and a magnitude; C gives no meaning to one that does not fit
abbrev pos_int : ℕ → Outcome ℤ
pos_int n = if ltb n (2 ^ 31) then done (pos n) else fault bad_arithmetic

abbrev neg_int : ℕ → Outcome ℤ
neg_int n =
    if n == 0
    then done (pos 0)
    else if leb n (2 ^ 31)
    then done (negsuc (n - 1))
    else fault bad_arithmetic

signed : Bytes → Outcome ℤ
unfolding scan_digits
signed [] = done (pos 0)
signed (c ∷ s) =
    if c == b'-'
    then neg_int (scan_digits s 0)
    else if c == b'+'
    then pos_int (scan_digits s 0)
    else pos_int (scan_digits (c ∷ s) 0)

-- `atoi`
unfoldable pub atoi : Bytes → Outcome ℤ
unfolding signed skip_space
atoi s = signed (skip_space s)

digits_step :
    (fuel n : ℕ) → 10 ≤ n → digits (suc fuel) n ≡ digits fuel (n / 10) ++ (b'0' + n % 10) ∷ []
unfolding digits
digits_step fuel n h = rw (not-ltb n 10 h)

digits_last : (fuel n : ℕ) → n < 10 → digits (suc fuel) n ≡ (b'0' + n) ∷ []
unfolding digits
digits_last fuel n h = rw (lt→ltb n 10 h) (ap (λ k. (b'0' + k) ∷ []) (omega arith))

scan_digits_cons :
    (d acc : ℕ) (s : Bytes)
    → d < 10
    → scan_digits ((b'0' + d) ∷ s) acc ≡ scan_digits s (acc * 10 + d)
unfolding scan_digits
scan_digits_cons d acc s h = ground arith

-- Reading back the digits of a number gives the number.
scan_digits-digits :
    (fuel n : ℕ) (s : Bytes) → n < fuel → scan_digits (digits fuel n ++ s) 0 ≡ scan_digits s n
scan_digits-digits zero n s h = absurd (omega arith)
scan_digits-digits (suc fuel) n s h = elim (dec_lt n 10) [
  | yes small ↦
      rw (digits_last fuel n small)
        (scan_digits_cons n 0 s small ∙ ap (scan_digits s) (omega arith))
  | no large ↦
      rw (digits_step fuel n (omega arith), append_assoc)
        (scan_digits-digits fuel (n / 10) ((b'0' + n % 10) ∷ s) (omega arith)
          ∙ scan_digits_cons (n % 10) (n / 10) s (omega arith)
          ∙ ap (scan_digits s) (omega arith))
]

digits-IsDigit : (fuel n : ℕ) → All IsDigit (digits fuel n)
unfolding digits
digits-IsDigit zero n = tt
digits-IsDigit (suc fuel) n = elim (dec_lt n 10) [
  | yes small ↦ rw (lt→ltb n 10 small) (omega arith)
  | no large ↦
      rw (not-ltb n 10 (omega arith))
        (All-append IsDigit (digits fuel (n / 10)) _ (digits-IsDigit fuel (n / 10)) (omega arith))
]

digits-cons : (fuel n : ℕ) → (c : ℕ) × (s : Bytes) × (digits (suc fuel) n ≡ c ∷ s)
digits-cons zero n = elim (dec_lt n 10) [
  | yes small ↦ (b'0' + n, [], digits_last 0 n small)
  | no large ↦ (b'0' + n % 10, [], unfold digits in digits_step 0 n (omega arith))
]
digits-cons (suc fuel) n = elim (dec_lt n 10) [
  | yes small ↦ (b'0' + n, [], digits_last (suc fuel) n small)
  | no large ↦
      let (c, s, e) = digits-cons fuel (n / 10) in
      (c, s ++ (b'0' + n % 10) ∷ [], rw (digits_step (suc fuel) n (omega arith), e))
]

-- The first digit of a number that is not 0 is not 0.
digits_head :
    (fuel n : ℕ) → n < fuel → 0 < n → (c : ℕ) × (s : Bytes) × (digits fuel n ≡ c ∷ s) × (b'0' < c)
digits_head zero n h p = absurd (omega arith)
digits_head (suc fuel) n h p = elim (dec_lt n 10) [
  | yes small ↦ (b'0' + n, [], digits_last fuel n small, omega arith)
  | no large ↦
      let (c, s, e, q) = digits_head fuel (n / 10) (omega arith) (omega arith) in
      (c, s ++ (b'0' + n % 10) ∷ [], rw (digits_step fuel n (omega arith), e), q)
]

pub decimal_head : (n : ℕ) → 0 < n → (c : ℕ) × (s : Bytes) × (decimal n ≡ c ∷ s) × (b'0' < c)
unfolding decimal
decimal_head n p = digits_head (suc n) n (omega arith) p

pub decimal-IsDigit : (n : ℕ) → All IsDigit (decimal n)
unfolding decimal
decimal-IsDigit n = digits-IsDigit (suc n) n

pub decimal-cons : (n : ℕ) → (c : ℕ) × (s : Bytes) × (decimal n ≡ c ∷ s)
unfolding decimal
decimal-cons n = digits-cons n n

pub scan_digits-append : (n : ℕ) (s : Bytes) → scan_digits (decimal n ++ s) 0 ≡ scan_digits s n
unfolding decimal
scan_digits-append n s = scan_digits-digits (suc n) n s (omega arith)

pub scan_digits-decimal : (n : ℕ) → scan_digits (decimal n) 0 ≡ n
unfolding decimal
scan_digits-decimal n =
    ap (λ s. scan_digits s 0) (sym (append-nil (digits (suc n) n)))
    ∙ scan_digits-digits (suc n) n [] (omega arith)
    ∙ unfold scan_digits in refl

signed-digit :
    (c : ℕ) (s : Bytes) → IsDigit c → signed (skip_space (c ∷ s)) ≡ pos_int (scan_digits (c ∷ s) 0)
unfolding signed skip_space
signed-digit c s h = ground arith

-- `atoi` reads back what `%u` writes, up to the largest `int`.
pub atoi-decimal : (n : ℕ) → n < 2 ^ 31 → atoi (decimal n) ≡ done (pos n)
unfolding atoi
atoi-decimal n h =
    let (c, s, e) = decimal-cons n in
    let all : All IsDigit (c ∷ s) = rw e at (decimal-IsDigit n) in
    let value : scan_digits (c ∷ s) 0 ≡ n = rw e at (scan_digits-decimal n) in
    rw e (signed-digit c s all.0 ∙ rw (value, lt→ltb n (2 ^ 31) h))

tenth-lt : (k n : ℕ) → n < 10 ^ suc (suc k) → n / 10 < 10 ^ suc k
tenth-lt k n h = omega (arith, pow-suc 10 (suc k))

length-digits : (k fuel n : ℕ) → n < 10 ^ suc k → length (digits fuel n) ≤ suc k
length-digits zero zero n h = unfold digits in omega arith
length-digits zero (suc fuel) n h = rw (digits_last fuel n h) (omega arith)
length-digits (suc k) zero n h = unfold digits in omega arith
length-digits (suc k) (suc fuel) n h = elim (dec_lt n 10) [
  | yes small ↦ rw (digits_last fuel n small) (omega arith)
  | no large ↦ rw (digits_step fuel n (omega arith)) (
      omega (
        arith,
        length-append (digits fuel (n / 10)) ((b'0' + n % 10) ∷ []),
        length-digits k fuel (n / 10) (tenth-lt k n h),
      ))
]

-- A number below 10 ^ (k + 1) has at most k + 1 digits.
pub length-decimal : (k n : ℕ) → n < 10 ^ suc k → length (decimal n) ≤ suc k
unfolding decimal
length-decimal k n h = length-digits k (suc n) n h

length-digits_ge : (k fuel n : ℕ) → n < fuel → 10 ^ k ≤ n → suc k ≤ length (digits fuel n)
length-digits_ge k zero n h p = absurd (omega arith)
length-digits_ge zero (suc fuel) n h p = elim (dec_lt n 10) [
  | yes small ↦ rw (digits_last fuel n small) (omega arith)
  | no large ↦
      rw (digits_step fuel n (omega arith))
        (omega (arith, length-append (digits fuel (n / 10)) ((b'0' + n % 10) ∷ [])))
]
length-digits_ge (suc k) (suc fuel) n h p =
    let large : 10 * 10 ^ k ≤ n = omega (arith, pow-suc 10 k) in
    rw (digits_step fuel n (omega (arith, pow_pos k))) (
      omega (
        arith,
        length-append (digits fuel (n / 10)) ((b'0' + n % 10) ∷ []),
        length-digits_ge k fuel (n / 10) (omega (arith, pow_pos k)) (omega arith),
      ))
  where
    pow_pos : (k : ℕ) → 1 ≤ 10 ^ k
    pow_pos zero = omega arith
    pow_pos (suc k) = omega (arith, pow-suc 10 k, pow_pos k)

-- A number from 10 ^ k on has more than k digits.
pub length-decimal_ge : (k n : ℕ) → 10 ^ k ≤ n → suc k ≤ length (decimal n)
unfolding decimal
length-decimal_ge k n h = length-digits_ge k (suc n) n (omega arith) h
