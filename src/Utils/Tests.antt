-- ===== src/Utils/Tests.antt =====
-- Runs of the functions on strings, and the theorems at concrete names.
use wget.Prelude.{◌≡◌, refl, true, false, [], ◌∷◌, some, take, streq, codes, ascii}
use wget.Utils.{
  to_hex, memtohex, match_tail, match_tail_nocase, restrict_windows, restrict_file_name,
  str_is_valid_utf8, str_needs_encoding, percent_unescape, strtolower,
}
use wget.Utils.Hex.{memtohex-take}

hex_cut : memtohex (1 ∷ 171 ∷ []) 4 ≡ some (codes "01a")
unfolding memtohex
hex_cut = refl

tail_matched :
    (match_tail (codes "a.html") (codes ".html") ≡ true)
    × (match_tail (codes "l") (codes "ml") ≡ false)
unfolding match_tail streq
tail_matched = (refl, refl)

tail_matched_nocase : match_tail_nocase ascii (codes "a.HTML") (codes ".html") ≡ true
unfolding match_tail_nocase streq
tail_matched_nocase = refl

lowered : strtolower ascii (codes "Ab-Z") ≡ codes "ab-z"
unfolding strtolower
lowered = refl

unescaped : percent_unescape ascii (codes "a%2Fb%2") ≡ (true, codes "a/b%2")
unfolding percent_unescape
unescaped = refl

utf8_checked : (str_is_valid_utf8 (195 ∷ 164 ∷ []) ≡ true) × (str_is_valid_utf8 (228 ∷ []) ≡ false)
unfolding str_is_valid_utf8
utf8_checked = (refl, refl)

encoding_needed : str_needs_encoding (97 ∷ 228 ∷ []) ≡ true
unfolding str_needs_encoding
encoding_needed = refl

-- a slash is kept
name_restricted : restrict_file_name restrict_windows (codes "a/b?c") ≡ codes "a/b%3Fc"
unfolding restrict_file_name
name_restricted = refl

memtohex-take_example : memtohex (1 ∷ 171 ∷ []) 4 ≡ some (take 3 (to_hex (1 ∷ 171 ∷ [])))
memtohex-take_example = memtohex-take (1 ∷ 171 ∷ []) 3
