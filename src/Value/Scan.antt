-- ===== src/Value/Scan.antt =====
-- `sscanf` with `%u` and `%i` into an integer of some width. A number that does not fit has no
-- meaning in C.
pub mod Numbers
use device_service_zigbee.Prelude.{
  ℕ, zero, suc, ◌^◌, ◌+◌, ◌-◌, ◌*◌, ◌≤◌, ◌<◌, Bool, true, false, ◌&&◌, ◌||◌, Option, none, some, [],
  ◌∷◌, Bytes, if◌then◌else◌, ◌==◌, ltb, leb,
}
use device_service_zigbee.Prelude.Int.{ℤ, pos, negsuc}
use device_service_zigbee.Prelude.Outcome.{Outcome, done, fault, bad_arithmetic}
use device_service_zigbee.Prelude.Decimal.{is_digit, skip_space}

-- the value of a digit in the bases up to 16; 16 for any other character
abbrev pub digit_value : ℕ → ℕ
digit_value c =
    if is_digit c
    then c - b'0'
    else if leb b'a' c && leb c b'f'
    then c - b'a' + 10
    else if leb b'A' c && leb c b'F'
    then c - b'A' + 10
    else 16

-- the number that the digits at the front spell behind `acc`
pub scan_base : ℕ → Bytes → ℕ → ℕ
scan_base b [] acc = acc
scan_base b (c ∷ s) acc =
    let rest = scan_base b s (acc * b + digit_value c) in
    if ltb (digit_value c) b then rest else acc

-- at least one digit
pub number : ℕ → Bytes → Option ℕ
number b [] = none
number b (c ∷ s) = if ltb (digit_value c) b then some (scan_base b (c ∷ s) 0) else none

-- the base that `%i` reads off the front: "0x" is 16, "0" is 8
hex_or_octal : Bytes → Option ℕ
hex_or_octal [] = some 0
hex_or_octal (c ∷ s) = if c == b'x' || c == b'X' then number 16 s else number 8 (b'0' ∷ c ∷ s)

pub any_base : Bytes → Option ℕ
any_base [] = none
any_base (c ∷ s) = if c == b'0' then hex_or_octal s else number 10 (c ∷ s)

-- whether there is a '-', and what follows the sign
pub split_sign : Bytes → Bool × Bytes
split_sign [] = (false, [])
split_sign (c ∷ s) =
    if c == b'-' then (true, s) else if c == b'+' then (false, s) else (false, c ∷ s)

-- The number behind a '-' is negated in 64 bits, as `strtoul` does; a narrower target holds only 0.
pub unsigned_of : ℕ → Bool → Option ℕ → Outcome (Option ℕ)
unsigned_of k minus none = done none
unsigned_of k minus (some n) =
    if minus
    then (if n == 0
        then done (some 0)
        else if k == 64 && ltb n (2 ^ 64)
        then done (some (2 ^ 64 - n))
        else fault bad_arithmetic)
    else if ltb n (2 ^ k)
    then done (some n)
    else fault bad_arithmetic

pub signed_of : ℕ → Bool → Option ℕ → Outcome (Option ℤ)
signed_of k minus none = done none
signed_of k minus (some zero) = done (some (pos 0))
signed_of k minus (some (suc n)) =
    if ltb (if minus then n else suc n) (2 ^ (k - 1))
    then done (some (if minus then negsuc n else pos (suc n)))
    else fault bad_arithmetic

-- `%u`, with the width of the target
unfoldable pub scan_unsigned : ℕ → Bytes → Outcome (Option ℕ)
unfolding skip_space split_sign number scan_base unsigned_of
scan_unsigned k s = let (minus, t) = split_sign (skip_space s) in unsigned_of k minus (number 10 t)

-- `%i`, with the width of the target
unfoldable pub scan_signed : ℕ → Bytes → Outcome (Option ℤ)
unfolding skip_space split_sign number scan_base hex_or_octal any_base signed_of
scan_signed k s = let (minus, t) = split_sign (skip_space s) in signed_of k minus (any_base t)
