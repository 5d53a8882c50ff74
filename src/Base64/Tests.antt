-- ===== src/Base64/Tests.antt =====
-- Runs of the base64 functions.
use wget.Base64.RoundTrip.{decode-encode, is_string-encode}
use wget.Base64.{length, Bytes, not, encode, decode, is_string}
use wget.Prelude.{◌==◌, ◌%◌, arith, [], ◌∷◌, ◌≡◌, refl, codes, true, false}

encode_text : encode (codes "wget2") ≡ codes "d2dldDI="
unfolding encode
encode_text = refl

decode_text : decode (codes "d2dldDI=") ≡ codes "wget2"
unfolding decode
decode_text = refl

decode_trailing_nul : decode (encode (65 ∷ 0 ∷ [])) ≡ 65 ∷ 0 ∷ []
unfolding decode encode
decode_trailing_nul = refl

is_string_two_pads : is_string (codes "YQ==") ≡ true
unfolding is_string
is_string_two_pads = refl

is_string_one_pad : is_string (codes "YWI=") ≡ false
unfolding is_string
is_string_one_pad = refl

abbrev text : Bytes
text = codes "wget2"

decode-encode_example : decode (encode text) ≡ text
decode-encode_example = decode-encode text (omega arith)

is_string-encode_example : is_string (encode text) ≡ not (length text % 3 == 2)
is_string-encode_example = is_string-encode text (omega arith)
