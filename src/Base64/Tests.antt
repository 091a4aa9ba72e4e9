-- ===== src/Base64/Tests.antt =====
-- base64.c on concrete inputs.
use device_service_zigbee.Prelude.{◌≡◌, refl, none, some, [], ◌∷◌, Bytes, codes, arith}
use device_service_zigbee.Base64.{decode, encode, encode_size, max_decode_size}
use device_service_zigbee.Base64.RoundTrip.{ReadsBack, decode-encode}
use device_service_zigbee.Base64.Bounds.{decode-max_decode_size}

abbrev four : Bytes
four = 0 ∷ 255 ∷ 17 ∷ 4 ∷ []

encode-four : encode four 9 ≡ some (codes "AP8RBA==")
unfolding encode
encode-four = refl

encode_short : encode four 8 ≡ none
unfolding encode
encode_short = refl

-- a line break is skipped, a lone symbol at the end is dropped
decode_lone : decode 10 (10 ∷ codes "AP8RB") ≡ some (0 ∷ 255 ∷ 17 ∷ [])
unfolding decode
decode_lone = refl

decode_blank : decode 10 (codes "AP 8") ≡ none
unfolding decode
decode_blank = refl

decode-encode_example : ReadsBack four 9 4
unfolding encode_size
decode-encode_example = decode-encode four 9 4 (omega arith) (omega arith) (omega arith)

decode-max_decode_size_example :
    decode 100 (codes "AP8R\nBA") ≡ decode (max_decode_size (codes "AP8R\nBA")) (codes "AP8R\nBA")
unfolding max_decode_size
decode-max_decode_size_example = decode-max_decode_size (codes "AP8R\nBA") 100 (omega arith)
