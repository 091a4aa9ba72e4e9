-- ===== src/Base64/Floats.antt =====
-- The base64 texts of a float and of a double: the length and the '=' by which `populateValue` tells
-- them from decimal texts.
use device_service_zigbee.Prelude.{
  ℕ, ◌≡◌, ◌≤◌, refl, List, [], ◌∷◌, ◌++◌, some, Bytes, length, get_elem?, arith, All, Bool-cases,
  inl, inr, ◌==◌, if◌then◌else◌, ◌+◌, ◌*◌, ◌/◌, ◌%◌,
}
use device_service_zigbee.Base64.{encode, decode, encode_size, encode_groups, max_decode_size}
use device_service_zigbee.Base64.Bounds.{length-text}
use device_service_zigbee.Base64.RoundTrip.{IsByte, padding, encode-fits, decode-text}

abbrev pub Padded : Bytes → ℕ → List ℕ → Type 0
Padded s n [] = length s ≡ n
Padded s n (i ∷ is) = (get_elem? s i ≡ some b'=') × Padded s n is

pub text : Bytes → Bytes
text b = encode_groups b ++ padding b

float_text : (b : Bytes) → length b ≡ 4 → Padded (text b) 8 (6 ∷ 7 ∷ [])
unfolding text encode_groups
float_text (a ∷ b ∷ c ∷ d ∷ []) h = (refl, (refl, refl))
float_text [] h = absurd (omega arith)
float_text (a ∷ []) h = absurd (omega arith)
float_text (a ∷ b ∷ []) h = absurd (omega arith)
float_text (a ∷ b ∷ c ∷ []) h = absurd (omega arith)
float_text (a ∷ b ∷ c ∷ d ∷ e ∷ s) h = absurd (omega arith)

double_text : (b : Bytes) → length b ≡ 8 → Padded (text b) 12 (11 ∷ [])
unfolding text encode_groups
double_text (a ∷ b ∷ c ∷ d ∷ e ∷ f ∷ g ∷ h ∷ []) l = (refl, refl)
double_text _ l = absurd (omega arith)

-- How a float goes through its text: the 32 characters are enough, the '=' are where
-- `populateValue` looks for them, and the bytes come back.
pub float_packed :
    (b : Bytes)
    → All IsByte b
    → length b ≡ 4
    → (encode b 32 ≡ some (text b)) × Padded (text b) 8 (6 ∷ 7 ∷ []) × (decode 4 (text b) ≡ some b)
unfolding text encode_size
float_packed b h l =
    (encode-fits b 32 (rw l (omega arith)), float_text b l, decode-text b 4 h (omega (arith, l)))

pub double_packed :
    (b : Bytes)
    → All IsByte b
    → length b ≡ 8
    → (encode b 32 ≡ some (text b)) × Padded (text b) 12 (11 ∷ []) × (decode 8 (text b) ≡ some b)
unfolding text encode_size
double_packed b h l =
    (encode-fits b 32 (rw l (omega arith)), double_text b l, decode-text b 8 h (omega (arith, l)))

room_of :
    (t n q : ℕ) → t ≡ q * 4 → n ≤ q * 3 → n ≤ (if t % 4 == 0 then t / 4 * 3 else t / 4 * 3 + 2)
room_of t n q e h = let whole : t % 4 ≡ 0 = omega arith in rw whole (omega arith)

quads : (n : ℕ) → (q : ℕ) × (encode_size n ≡ q * 4 + 1) × (n ≤ q * 3)
unfolding encode_size
quads n = elim (Bool-cases (n % 3 == 0)) [
  | inl e ↦ (n / 3, rw e, ground (arith, e))
  | inr e ↦ (n / 3 + 1, rw e (omega arith), omega arith)
]

room : (b : Bytes) → length b ≤ max_decode_size (text b)
unfolding text max_decode_size
room b =
    let (q, e, h) = quads (length b) in
    room_of (length (text b)) (length b) q (omega (arith, length-text b)) h

pub binary_packed :
    (b : Bytes)
    → All IsByte b
    → (encode b (encode_size (length b)) ≡ some (text b))
      × (decode (max_decode_size (text b)) (text b) ≡ some b)
unfolding text
binary_packed b h =
    (encode-fits b (encode_size (length b)) (omega arith), decode-text b _ h (room b))
