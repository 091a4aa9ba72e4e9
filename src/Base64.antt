-- ===== src/Base64.antt =====
-- device-sdk-c/src/c/base64.c: base64 texts into caller-sized buffers, and back. Texts are without
-- the NUL that ends them; what a failing call leaves in the output buffer is not modelled, since
-- the callers drop it.
pub mod Tables
pub mod RoundTrip
pub mod Bounds
pub mod Floats
mod Tests
use device_service_zigbee.Prelude.{
  ℕ, zero, suc, ◌+◌, ◌*◌, ◌/◌, ◌%◌, ◌^◌, true, false, Option, none, some, List, [], ◌∷◌, ◌++◌,
  Bytes, codes, ltb, ◌==◌, if◌then◌else◌, length, get_or,
}

-- `WHITESPACE`, `EQUALS` and `INVALID`
abbrev pub whitespace : ℕ
whitespace = 64

abbrev pub equals : ℕ
equals = 65

abbrev pub invalid : ℕ
invalid = 66

-- `dec`: the value of each character
pub dec : List ℕ
dec =
    66 ∷ 66 ∷ 66 ∷ 66 ∷ 66 ∷ 66 ∷ 66 ∷ 66 ∷ 66 ∷ 66 ∷ 64 ∷ 66 ∷ 66 ∷ 66 ∷ 66 ∷ 66 ∷ 66 ∷ 66 ∷ 66
    ∷ 66 ∷ 66 ∷ 66 ∷ 66 ∷ 66 ∷ 66 ∷ 66 ∷ 66 ∷ 66 ∷ 66 ∷ 66 ∷ 66 ∷ 66 ∷ 66 ∷ 66 ∷ 66 ∷ 66 ∷ 66 ∷ 66
    ∷ 66 ∷ 66 ∷ 66 ∷ 66 ∷ 66 ∷ 62 ∷ 66 ∷ 66 ∷ 66 ∷ 63 ∷ 52 ∷ 53 ∷ 54 ∷ 55 ∷ 56 ∷ 57 ∷ 58 ∷ 59 ∷ 60
    ∷ 61 ∷ 66 ∷ 66 ∷ 66 ∷ 65 ∷ 66 ∷ 66 ∷ 66 ∷ 0 ∷ 1 ∷ 2 ∷ 3 ∷ 4 ∷ 5 ∷ 6 ∷ 7 ∷ 8 ∷ 9 ∷ 10 ∷ 11 ∷ 12
    ∷ 13 ∷ 14 ∷ 15 ∷ 16 ∷ 17 ∷ 18 ∷ 19 ∷ 20 ∷ 21 ∷ 22 ∷ 23 ∷ 24 ∷ 25 ∷ 66 ∷ 66 ∷ 66 ∷ 66 ∷ 66 ∷ 66
    ∷ 26 ∷ 27 ∷ 28 ∷ 29 ∷ 30 ∷ 31 ∷ 32 ∷ 33 ∷ 34 ∷ 35 ∷ 36 ∷ 37 ∷ 38 ∷ 39 ∷ 40 ∷ 41 ∷ 42 ∷ 43 ∷ 44
    ∷ 45 ∷ 46 ∷ 47 ∷ 48 ∷ 49 ∷ 50 ∷ 51 ∷ 66 ∷ 66 ∷ 66 ∷ 66 ∷ 66 ∷ 66 ∷ 66 ∷ 66 ∷ 66 ∷ 66 ∷ 66 ∷ 66
    ∷ 66 ∷ 66 ∷ 66 ∷ 66 ∷ 66 ∷ 66 ∷ 66 ∷ 66 ∷ 66 ∷ 66 ∷ 66 ∷ 66 ∷ 66 ∷ 66 ∷ 66 ∷ 66 ∷ 66 ∷ 66 ∷ 66
    ∷ 66 ∷ 66 ∷ 66 ∷ 66 ∷ 66 ∷ 66 ∷ 66 ∷ 66 ∷ 66 ∷ 66 ∷ 66 ∷ 66 ∷ 66 ∷ 66 ∷ 66 ∷ 66 ∷ 66 ∷ 66 ∷ 66
    ∷ 66 ∷ 66 ∷ 66 ∷ 66 ∷ 66 ∷ 66 ∷ 66 ∷ 66 ∷ 66 ∷ 66 ∷ 66 ∷ 66 ∷ 66 ∷ 66 ∷ 66 ∷ 66 ∷ 66 ∷ 66 ∷ 66
    ∷ 66 ∷ 66 ∷ 66 ∷ 66 ∷ 66 ∷ 66 ∷ 66 ∷ 66 ∷ 66 ∷ 66 ∷ 66 ∷ 66 ∷ 66 ∷ 66 ∷ 66 ∷ 66 ∷ 66 ∷ 66 ∷ 66
    ∷ 66 ∷ 66 ∷ 66 ∷ 66 ∷ 66 ∷ 66 ∷ 66 ∷ 66 ∷ 66 ∷ 66 ∷ 66 ∷ 66 ∷ 66 ∷ 66 ∷ 66 ∷ 66 ∷ 66 ∷ 66 ∷ 66
    ∷ 66 ∷ 66 ∷ 66 ∷ 66 ∷ 66 ∷ 66 ∷ 66 ∷ 66 ∷ 66 ∷ 66 ∷ 66 ∷ 66 ∷ 66 ∷ 66 ∷ 66 ∷ 66 ∷ 66 ∷ 66 ∷ 66
    ∷ 66 ∷ 66 ∷ 66 ∷ 66 ∷ 66 ∷ 66 ∷ 66 ∷ []

-- `enc`
pub enc : Bytes
enc = codes "ABCDEFGHIJKLMNOPQRSTUVWXYZabcdefghijklmnopqrstuvwxyz0123456789+/"

-- `edgex_b64_encodesize`
pub encode_size : ℕ → ℕ
encode_size n = let result = n / 3 * 4 in (if n % 3 == 0 then result else result + 4) + 1

-- `edgex_b64_maxdecodesize`
pub max_decode_size : Bytes → ℕ
max_decode_size s = let n = length s in if n % 4 == 0 then n / 4 * 3 else n / 4 * 3 + 2

-- where `edgex_b64_decode` stands: the symbols of the current group, their word, the bytes written
pub record Decoder : Type 0 where
  pub iter : ℕ
  pub buf : ℕ
  pub out : Bytes

-- a round of its loop: `return false`, `break`, or on to the next character
pub data Round : Type 0 where
  bad stop : Round
  go : Decoder → Round

-- `buf << 6 | c`: the shift leaves the low six bits 0, and `c` has no others
abbrev pub shift_in : ℕ → ℕ → ℕ
shift_in buf c = buf * 64 % 2 ^ 32 + c

-- the round for a symbol of value `c`
pub symbol : ℕ → ℕ → Decoder → Round
symbol limit c d =
    let buf = shift_in d.buf c in
    if d.iter + 1 == 4
    then (if ltb limit (length d.out + 3)
        then bad
        else go (record {
          iter = 0;
          buf = 0;
          out = d.out ++ (buf / 2 ^ 16 % 256) ∷ (buf / 2 ^ 8 % 256) ∷ (buf % 256) ∷ [];
        }))
    else go (record { iter = d.iter + 1; buf = buf; out = d.out })

pub round : ℕ → ℕ → Decoder → Round
round limit ch d =
    let c = get_or dec ch invalid in
    if c == whitespace
    then go d
    else if c == invalid
    then bad
    else if c == equals
    then stop
    else symbol limit c d

-- the bytes of a group that the text ends in
pub finish : ℕ → Decoder → Option Bytes
finish limit d =
    if d.iter == 3
    then (if ltb limit (length d.out + 2)
        then none
        else some (d.out ++ (d.buf / 2 ^ 10 % 256) ∷ (d.buf / 2 ^ 2 % 256) ∷ []))
    else if d.iter == 2
    then (if ltb limit (length d.out + 1) then none else some (d.out ++ (d.buf / 2 ^ 4 % 256) ∷ []))
    else some d.out

pub decode_loop : ℕ → Bytes → Decoder → Option Bytes
decode_loop limit [] d = finish limit d
decode_loop limit (ch ∷ s) d = elim (round limit ch d) [
  | bad ↦ none
  | stop ↦ finish limit d
  | go d' ↦ decode_loop limit s d'
]

abbrev pub empty : Decoder
empty = record { iter = 0; buf = 0; out = [] }

-- `edgex_b64_decode` with room for `limit` bytes; `none` where it returns false
unfoldable pub decode : ℕ → Bytes → Option Bytes
unfolding dec get_or symbol round finish decode_loop
decode limit s = decode_loop limit s empty

-- up to three bytes in one word, and its four symbols `(uint8_t) (n >> k) & 63`
abbrev pub word3 : ℕ → ℕ → ℕ → ℕ
word3 a b c = a * 2 ^ 16 + b * 2 ^ 8 + c

pub sextet : ℕ → ℕ → ℕ
sextet k n = n / 2 ^ k % 256 % 64

pub enc_at : ℕ → ℕ
unfolding enc get_or
enc_at n = get_or enc n 0

-- the loop of `edgex_b64_encode` over three bytes at a time
pub encode_groups : Bytes → Bytes
encode_groups [] = []
encode_groups (a ∷ []) = let n = word3 a 0 0 in enc_at (sextet 18 n) ∷ enc_at (sextet 12 n) ∷ []
encode_groups (a ∷ b ∷ []) =
    let n = word3 a b 0 in enc_at (sextet 18 n) ∷ enc_at (sextet 12 n) ∷ enc_at (sextet 6 n) ∷ []
encode_groups (a ∷ b ∷ c ∷ s) =
    let n = word3 a b c in
    enc_at (sextet 18 n)
    ∷ enc_at (sextet 12 n)
    ∷ enc_at (sextet 6 n)
    ∷ enc_at (sextet 0 n)
    ∷ encode_groups s

-- its padding loop, which makes at most three rounds
pub pad : ℕ → Bytes → Bytes
pad zero s = s
pad (suc fuel) s = elim (length s % 4 == 0) [ true ↦ s | false ↦ pad fuel (s ++ b'=' ∷ []) ]

-- `edgex_b64_encode` into `size` characters; `none` where it returns false
unfoldable pub encode : Bytes → ℕ → Option Bytes
unfolding enc_at sextet encode_size encode_groups pad
encode xs size =
    if ltb size (encode_size (length xs)) then none else some (pad 3 (encode_groups xs))
