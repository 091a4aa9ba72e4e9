-- ===== src/Base64/RoundTrip.antt =====
-- What base64.c encodes, it decodes.
use device_service_zigbee.Prelude.{
  ℕ, ◌+◌, ◌/◌, ◌%◌, ◌^◌, ◌≤◌, ◌<◌, ◌≡◌, refl, sym, ap, ◌∙◌, [], ◌∷◌, ◌++◌, some, Bytes, All, length,
  arith, append-nil, append_assoc, length-append, not-ltb, get_or,
}
use device_service_zigbee.Base64.{
  Decoder, dec, shift_in, symbol, round, finish, decode_loop, decode, word3, sextet, enc_at,
  encode_groups, pad, encode, encode_size,
}
use device_service_zigbee.Base64.Tables.{dec-enc_at}

abbrev pub IsByte : ℕ → Type 0
IsByte b = b < 256

abbrev at : ℕ → ℕ → Bytes → Decoder
at i w out = record { iter = i; buf = w; out = out }

round-enc_at : (limit n : ℕ) (d : Decoder) → n < 64 → round limit (enc_at n) d ≡ symbol limit n d
unfolding round
round-enc_at limit n d h = ground (arith, dec-enc_at n h)

more :
    (limit n i w : ℕ) (out s : Bytes)
    → n < 64
    → i < 3
    → decode_loop limit (enc_at n ∷ s) (at i w out)
      ≡ decode_loop limit s (at (i + 1) (shift_in w n) out)
unfolding decode_loop symbol
more limit n i w out s h few = ground (arith, round-enc_at limit n (at i w out) h)

abbrev three_bytes : ℕ → Bytes
three_bytes n = (n / 2 ^ 16 % 256) ∷ (n / 2 ^ 8 % 256) ∷ (n % 256) ∷ []

full :
    (limit n w : ℕ) (out s : Bytes)
    → n < 64
    → length out + 3 ≤ limit
    → decode_loop limit (enc_at n ∷ s) (at 3 w out)
      ≡ decode_loop limit s (at 0 0 (out ++ three_bytes (shift_in w n)))
unfolding decode_loop symbol
full limit n w out s h room = ground (arith, round-enc_at limit n (at 3 w out) h)

stops : (limit : ℕ) (d : Decoder) (s : Bytes) → decode_loop limit (b'=' ∷ s) d ≡ finish limit d
unfolding decode_loop round dec get_or
stops limit d s = refl

abbrev quad : ℕ → ℕ → ℕ → ℕ → ℕ
quad a b c d = shift_in (shift_in (shift_in (shift_in 0 a) b) c) d

sextet-lt : (k n : ℕ) → sextet k n < 64
unfolding sextet
sextet-lt k n = omega arith

group :
    (limit n : ℕ) (out s : Bytes)
    → length out + 3 ≤ limit
    → decode_loop limit
        (enc_at (sextet 18 n)
          ∷ enc_at (sextet 12 n)
          ∷ enc_at (sextet 6 n)
          ∷ enc_at (sextet 0 n)
          ∷ s)
        (at 0 0 out)
      ≡ decode_loop limit s
          (at 0 0 (out ++ three_bytes (quad (sextet 18 n) (sextet 12 n) (sextet 6 n) (sextet 0 n))))
group limit n out s room =
    more limit (sextet 18 n) 0 0 out _ (sextet-lt 18 n) (omega arith)
    ∙ more limit (sextet 12 n) 1 _ out _ (sextet-lt 12 n) (omega arith)
    ∙ more limit (sextet 6 n) 2 _ out _ (sextet-lt 6 n) (omega arith)
    ∙ full limit (sextet 0 n) _ out s (sextet-lt 0 n) room

group_bytes :
    (a b c : ℕ)
    → IsByte a
    → IsByte b
    → IsByte c
    → three_bytes (
        quad
          (sextet 18 (word3 a b c))
          (sextet 12 (word3 a b c))
          (sextet 6 (word3 a b c))
          (sextet 0 (word3 a b c)))
      ≡ a ∷ b ∷ c ∷ []
unfolding sextet
group_bytes a b c ha hb hc = ground arith

last_one :
    (a : ℕ) (out : Bytes) (limit : ℕ)
    → IsByte a
    → length out + 1 ≤ limit
    → finish limit
        (at 2 (shift_in (shift_in 0 (sextet 18 (word3 a 0 0))) (sextet 12 (word3 a 0 0))) out)
      ≡ some (out ++ a ∷ [])
unfolding finish sextet
last_one a out limit ha room =
    let n = word3 a 0 0 in
    let e : shift_in (shift_in 0 (n / 2 ^ 18 % 256 % 64)) (n / 2 ^ 12 % 256 % 64) / 2 ^ 4 % 256
        ≡ a =
      omega arith in
    rw (not-ltb limit (length out + 1) room, e)

last_two :
    (a b : ℕ) (out : Bytes) (limit : ℕ)
    → IsByte a
    → IsByte b
    → length out + 2 ≤ limit
    → finish limit (
        at 3
          (shift_in
            (shift_in (shift_in 0 (sextet 18 (word3 a b 0))) (sextet 12 (word3 a b 0)))
            (sextet 6 (word3 a b 0)))
          out)
      ≡ some (out ++ a ∷ b ∷ [])
unfolding finish sextet
last_two a b out limit ha hb room = ground arith

-- the padding behind the symbols of a text
abbrev pub padding : Bytes → Bytes
padding [] = []
padding (a ∷ []) = b'=' ∷ b'=' ∷ []
padding (a ∷ b ∷ []) = b'=' ∷ []
padding (a ∷ b ∷ c ∷ s) = padding s

-- how many symbols the last group has
abbrev last_group : Bytes → ℕ
last_group [] = 0
last_group (a ∷ []) = 2
last_group (a ∷ b ∷ []) = 3
last_group (a ∷ b ∷ c ∷ s) = last_group s

groups-last_group : (xs : Bytes) → length (encode_groups xs) % 4 ≡ last_group xs
unfolding encode_groups
groups-last_group [] = refl
groups-last_group (a ∷ []) = refl
groups-last_group (a ∷ b ∷ []) = refl
groups-last_group (a ∷ b ∷ c ∷ s) = omega (arith, groups-last_group s)

length-snoc : (s : Bytes) (c : ℕ) → length (s ++ c ∷ []) ≡ length s + 1
length-snoc s c = length-append s (c ∷ [])

pad-padding : (xs s : Bytes) → length s % 4 ≡ last_group xs → pad 3 s ≡ s ++ padding xs
unfolding pad
pad-padding [] s h = ground (arith, append-nil s)
pad-padding (a ∷ []) s h = ground (
  arith,
  length-snoc s b'=',
  length-snoc (s ++ b'=' ∷ []) b'=',
  append_assoc s (b'=' ∷ []) (b'=' ∷ []),
)
pad-padding (a ∷ b ∷ []) s h = ground (arith, length-snoc s b'=')
pad-padding (a ∷ b ∷ c ∷ t) s h = pad-padding t s h

decode-groups :
    (xs out : Bytes) (limit : ℕ)
    → All IsByte xs
    → length out + length xs ≤ limit
    → decode_loop limit (encode_groups xs ++ padding xs) (at 0 0 out) ≡ some (out ++ xs)
unfolding encode_groups
decode-groups [] out limit h room = unfold decode_loop finish in ap some (sym (append-nil out))
decode-groups (a ∷ []) out limit (ha, _) room =
    let n = word3 a 0 0 in
    more limit (sextet 18 n) 0 0 out _ (sextet-lt 18 n) (omega arith)
    ∙ more limit (sextet 12 n) 1 _ out _ (sextet-lt 12 n) (omega arith)
    ∙ stops limit _ _
    ∙ last_one a out limit ha room
decode-groups (a ∷ b ∷ []) out limit (ha, (hb, _)) room =
    let n = word3 a b 0 in
    more limit (sextet 18 n) 0 0 out _ (sextet-lt 18 n) (omega arith)
    ∙ more limit (sextet 12 n) 1 _ out _ (sextet-lt 12 n) (omega arith)
    ∙ more limit (sextet 6 n) 2 _ out _ (sextet-lt 6 n) (omega arith)
    ∙ stops limit _ _
    ∙ last_two a b out limit ha hb room
decode-groups (a ∷ b ∷ c ∷ s) out limit (ha, (hb, (hc, hs))) room =
    group limit (word3 a b c) out (encode_groups s ++ padding s) (omega arith)
    ∙ ap (λ bs. decode_loop limit (encode_groups s ++ padding s) (at 0 0 (out ++ bs)))
        (group_bytes a b c ha hb hc)
    ∙ decode-groups s (out ++ a ∷ b ∷ c ∷ []) limit hs
        (omega (arith, length-append out (a ∷ b ∷ c ∷ [])))
    ∙ ap some (append_assoc out (a ∷ b ∷ c ∷ []) s)

-- The symbols and the padding of `xs` are what `edgex_b64_encode` writes, if they fit.
pub encode-fits :
    (xs : Bytes) (size : ℕ)
    → encode_size (length xs) ≤ size
    → encode xs size ≡ some (encode_groups xs ++ padding xs)
encode-fits xs size h =
    unfold encode in
    rw (not-ltb size (encode_size (length xs)) h)
      (ap some (pad-padding xs (encode_groups xs) (groups-last_group xs)))

pub decode-text :
    (xs : Bytes) (limit : ℕ)
    → All IsByte xs
    → length xs ≤ limit
    → decode limit (encode_groups xs ++ padding xs) ≡ some xs
unfolding decode
decode-text xs limit h room = decode-groups xs [] limit h (omega arith)

abbrev pub ReadsBack : Bytes → ℕ → ℕ → Type 0
ReadsBack xs size limit = (s : Bytes) × (encode xs size ≡ some s) × (decode limit s ≡ some xs)

-- `edgex_b64_encode` into a buffer of `edgex_b64_encodesize` succeeds, and `edgex_b64_decode` reads
-- the bytes back from its text wherever there is room for them.
pub decode-encode :
    (xs : Bytes) (size limit : ℕ)
    → All IsByte xs
    → encode_size (length xs) ≤ size
    → length xs ≤ limit
    → ReadsBack xs size limit
decode-encode xs size limit h fits room =
    (encode_groups xs ++ padding xs, encode-fits xs size fits, decode-text xs limit h room)
