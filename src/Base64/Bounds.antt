-- ===== src/Base64/Bounds.antt =====
-- The sizes of base64.c: how much each function writes, and how much room its callers reserve.
use device_service_zigbee.Prelude.{
  ℕ, suc, ◌+◌, ◌*◌, ◌/◌, ◌%◌, ◌^◌, ◌≤◌, ◌<◌, ◌≡◌, ◌⊎◌, inl, inr, refl, [], ◌∷◌, ◌++◌, none, some,
  Bytes, length, arith, length-append, Bool-cases, ltb, ◌==◌, if◌then◌else◌, get_or,
}
use device_service_zigbee.Base64.{
  Decoder, Round, dec, invalid, shift_in, bad, stop, go, symbol, round, finish, decode_loop, decode,
  encode_groups, encode, encode_size, max_decode_size,
}
use device_service_zigbee.Base64.RoundTrip.{padding, encode-fits}

pub length-text :
    (xs : Bytes) → length (encode_groups xs ++ padding xs) + 1 ≡ encode_size (length xs)
unfolding encode_groups encode_size
length-text [] = refl
length-text (a ∷ []) = refl
length-text (a ∷ b ∷ []) = refl
length-text (a ∷ b ∷ c ∷ s) = ground (arith, length-text s)

abbrev pub Encodes : Bytes → ℕ → Type 0
Encodes xs size =
    (s : Bytes) × (encode xs size ≡ some s)
    × (length s + 1 ≡ encode_size (length xs))
    × (encode_size (length xs) ≤ size)

-- `edgex_b64_encode` fails exactly when the buffer is smaller than `edgex_b64_encodesize` says, and
-- otherwise fills that many of its cells, the NUL included.
pub encode_cases :
    (xs : Bytes) (size : ℕ)
    → ((size < encode_size (length xs)) × (encode xs size ≡ none)) ⊎ Encodes xs size
encode_cases xs size = elim (Bool-cases (ltb size (encode_size (length xs)))) [
  | inl small ↦ inl (ground arith, unfold encode in rw small)
  | inr fits ↦
      let h : encode_size (length xs) ≤ size = ground arith in
      inr (encode_groups xs ++ padding xs, encode-fits xs size h, length-text xs, h)
]

Round-cases : (r : Round) → (r ≡ bad) ⊎ ((r ≡ stop) ⊎ ((d : Decoder) × (r ≡ go d)))
Round-cases bad = inl refl
Round-cases stop = inr (inl refl)
Round-cases (go d) = inr (inr (d, refl))

length-three :
    (out : Bytes) (w : ℕ)
    → length (out ++ (w / 2 ^ 16 % 256) ∷ (w / 2 ^ 8 % 256) ∷ (w % 256) ∷ []) ≡ length out + 3
length-three out w = length-append out _

round-within :
    (limit ch : ℕ) (d d' : Decoder)
    → round limit ch d ≡ go d'
    → length d.out ≤ limit
    → length d'.out ≤ limit
unfolding round symbol
round-within limit ch d d' h l =
    ground (arith, length-three d.out (shift_in d.buf (get_or dec ch invalid)))

finish-within :
    (limit : ℕ) (d : Decoder) (xs : Bytes)
    → finish limit d ≡ some xs
    → length d.out ≤ limit
    → length xs ≤ limit
unfolding finish
finish-within limit d xs h l = ground (
  arith,
  length-append d.out ((d.buf / 2 ^ 10 % 256) ∷ (d.buf / 2 ^ 2 % 256) ∷ []),
  length-append d.out ((d.buf / 2 ^ 4 % 256) ∷ []),
)

decode_loop-within :
    (limit : ℕ) (s : Bytes) (d : Decoder) (xs : Bytes)
    → decode_loop limit s d ≡ some xs
    → length d.out ≤ limit
    → length xs ≤ limit
unfolding decode_loop
decode_loop-within limit [] d xs h l = finish-within limit d xs h l
decode_loop-within limit (ch ∷ s) d xs h l = elim (Round-cases (round limit ch d)) [
  | inl e ↦ ground (arith, e)
  | inr (inl e) ↦ finish-within limit d xs (ground (arith, e)) l
  | inr (inr (d', e)) ↦
      decode_loop-within limit s d' xs (ground (arith, e)) (round-within limit ch d d' e l)
]

-- `edgex_b64_decode` writes no more bytes than the caller has room for.
pub decode-within : (limit : ℕ) (s xs : Bytes) → decode limit s ≡ some xs → length xs ≤ limit
unfolding decode
decode-within limit s xs h = decode_loop-within limit s _ xs h (omega arith)

-- Space for `n` symbols, as `edgex_b64_maxdecodesize` counts it.
abbrev space : ℕ → ℕ
space n = if n % 4 == 0 then n / 4 * 3 else n / 4 * 3 + 2

-- a decoder behind `g` whole groups that has room for `n` more characters
record Fits (limit n g : ℕ) (d : Decoder) : Type 0 where
  whole : length d.out ≡ 3 * g
  few : d.iter < 4
  enough : space (4 * g + d.iter + n) ≤ limit

finish-same : (l l' n g : ℕ) (d : Decoder) → l ≤ l' → Fits l n g d → finish l' d ≡ finish l d
unfolding finish
finish-same l l' n g d h f = ground arith

round-same :
    (l l' n g ch : ℕ) (d : Decoder) → l ≤ l' → Fits l (suc n) g d → round l' ch d ≡ round l ch d
unfolding round symbol
round-same l l' n g ch d h f = ground arith

-- A round keeps the room: it skips the character, or counts it, or ends a group.
round-Fits :
    (l n g ch : ℕ) (d d' : Decoder)
    → Fits l (suc n) g d
    → round l ch d ≡ go d'
    → (k : ℕ) × Fits l n k d'
unfolding round symbol
round-Fits l n g ch d d' f h =
    let three = length-three d.out (shift_in d.buf (get_or dec ch invalid)) in
    (
      length d'.out / 3,
      record {
        whole = ground (arith, three);
        few = ground (arith, three);
        enough = ground (arith, three);
      },
    )

decode_loop-same :
    (l l' g : ℕ) (s : Bytes) (d : Decoder)
    → l ≤ l'
    → Fits l (length s) g d
    → decode_loop l' s d ≡ decode_loop l s d
unfolding decode_loop
decode_loop-same l l' g [] d h f = finish-same l l' 0 g d h f
decode_loop-same l l' g (ch ∷ s) d h f =
    let same = round-same l l' (length s) g ch d h f in
    elim (Round-cases (round l ch d)) [
      | inl e ↦ ground (arith, e, same)
      | inr (inl e) ↦ ground (arith, e, same, finish-same l l' (suc (length s)) g d h f)
      | inr (inr (d', e)) ↦
          let (k, f') = round-Fits l (length s) g ch d d' f e in
          ground (arith, e, same, decode_loop-same l l' k s d' h f')
    ]

-- The room that `edgex_b64_maxdecodesize` asks for is enough for every text, well formed or not:
-- with it or with more, `edgex_b64_decode` gives the same result.
pub decode-max_decode_size :
    (s : Bytes) (limit : ℕ)
    → max_decode_size s ≤ limit
    → decode limit s ≡ decode (max_decode_size s) s
unfolding decode max_decode_size
decode-max_decode_size s limit h =
    decode_loop-same (space (length s)) limit 0 s _ h
      (record { whole = refl; few = omega arith; enough = ground arith })
