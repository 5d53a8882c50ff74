-- ===== src/Http/Disposition/FileName.antt =====
-- The file name of a Content-Disposition header with plain characters.
use wget.Prelude.{
  span-append, length-append, ℕ, zero, suc, ◌<◌, ◌≡◌, ◌≢◌, refl, ap, ◌∙◌, true, false, not, List,
  [], ◌∷◌, ◌++◌, All, Option, some, length, ltb, ◌==◌, Bytes, codes, Ctype, streq_iff, map, arith,
}
use wget.Http.{istoken, isseparator, Param, parse_param}
use wget.Http.Directives.{names}
use wget.Http.Disposition.{
  is_slash, behind_slash, path_part, plain_name, filename_step, found, name_of, disposition_name,
  parse_content_disposition,
}
use wget.Http.RoundTrip.{
  print_more, IsToken, IsQuotable, Value, bare, quoted, IsParam, param_of, print_params, lead,
  nothing, space, left, parse_param-print,
}
use wget.Utils.{percent_unescape, str_is_valid_utf8}

-- an ASCII character that is not a percent sign
abbrev pub IsPlain : Bytes → Type 0
IsPlain s = All (λ c. (c < 128) × (c ≢ b'%')) s

abbrev pub NoSlash : Bytes → Type 0
NoSlash s = All (λ c. not (is_slash c) ≡ true) s

path_part-append :
    (a b : Bytes) (c : ℕ) → NoSlash a → is_slash c ≡ true → path_part (a ++ (c ∷ b)) ≡ b
unfolding path_part
path_part-append a b c h k =
    ap (λ r. behind_slash (a ++ (c ∷ b)) r)
      (span-append (λ d. not (is_slash d)) a (c ∷ b) h (ap not k))

valid-IsPlain : (s : Bytes) → IsPlain s → str_is_valid_utf8 s ≡ true
unfolding str_is_valid_utf8
valid-IsPlain [] h = refl
valid-IsPlain (c ∷ s) h =
    let small : ltb c 128 ≡ true = ground (arith, h.0.0) in rw small (valid-IsPlain s h.1)

filename-IsToken : IsToken (codes "filename")
unfolding istoken isseparator
filename-IsToken = (omega arith, (refl, (refl, (refl, (refl, (refl, (refl, (refl, (refl, tt)))))))))

module _ (ctype : Ctype) where
  percent_unescape-IsPlain : (s : Bytes) → IsPlain s → percent_unescape ctype s ≡ (false, s)
  unfolding percent_unescape
  percent_unescape-IsPlain [] h = refl
  percent_unescape-IsPlain (c ∷ []) h = refl
  percent_unescape-IsPlain (c ∷ a ∷ []) h = refl
  percent_unescape-IsPlain (c ∷ a ∷ b ∷ s) h =
      let other : (c == b'%') ≡ false = ground (arith, h.0.1) in
      rw (other, percent_unescape) (rw (percent_unescape-IsPlain (a ∷ b ∷ s) h.1) refl)

  module _ (to_utf8 : Bytes → Bytes → Option Bytes) where
    plain_name-append :
        (a b : Bytes) (c : ℕ)
        → NoSlash a
        → is_slash c ≡ true
        → IsPlain b
        → plain_name ctype to_utf8 (a ++ (c ∷ b)) ≡ some b
    unfolding plain_name
    plain_name-append a b c h k p =
        rw (path_part-append a b c h k)
          (rw (percent_unescape-IsPlain b p) (rw (valid-IsPlain b p) refl))

    names-same : (s : Bytes) → names ctype (some s) s ≡ true
    names-same s =
        ctype.strcaseeq_ascii s s ∙ (streq_iff (map ctype.tolower s) (map ctype.tolower s)).1 refl

    disposition_name-next :
        (fuel : ℕ) (s : Bytes) (param : Param) (rest : Bytes)
        → 0 < length s
        → parse_param ctype s ≡ (param, rest)
        → disposition_name ctype to_utf8 (suc fuel) s
          ≡ filename_step ctype to_utf8 (disposition_name ctype to_utf8 fuel rest) param
    unfolding disposition_name
    disposition_name-next fuel [] param rest h e = absurd (omega arith)
    disposition_name-next fuel (c ∷ s) param rest h e =
        ap (λ r. filename_step ctype to_utf8 (disposition_name ctype to_utf8 fuel r.1) r.0) e

    module _ (type a b : Bytes) (c : ℕ) (ps : List (Bytes × Value)) where
      abbrev header : List (Bytes × Value)
      header = (type, bare) ∷ (codes "filename", quoted (a ++ (c ∷ b))) ∷ ps

      long-header : IsToken type → 1 < length (print_params header)
      long-header t =
          omega (
            arith,
            length-append type (print_more ((codes "filename", quoted (a ++ (c ∷ b))) ∷ ps)),
          )

      header_name :
          (fuel : ℕ)
          → 1 < fuel
          → IsParam (type, bare)
          → IsParam (codes "filename", quoted (a ++ (c ∷ b)))
          → plain_name ctype to_utf8 (a ++ (c ∷ b)) ≡ some b
          → disposition_name ctype to_utf8 fuel (print_params header) ≡ some b
      header_name zero f t q e = absurd (omega arith)
      header_name (suc zero) f t q e = absurd (omega arith)
      header_name (suc (suc fuel)) f t q e =
          let file : Bytes × Value = (codes "filename", quoted (a ++ (c ∷ b))) in
          let second : found ctype to_utf8
                (disposition_name ctype to_utf8 fuel (left ctype file.1 ps))
                (name_of ctype to_utf8 (some (codes "filename")) (some (a ++ (c ∷ b))))
              ≡ some b =
            rw (names-same (codes "filename")) (rw e refl) in
          disposition_name-next (suc fuel) (print_params header) (param_of (type, bare))
            (lead space ++ print_params (file ∷ ps)) (omega (arith, long-header t.0))
            (parse_param-print ctype nothing (type, bare) (file ∷ ps) t)
          ∙ disposition_name-next fuel (lead space ++ print_params (file ∷ ps)) (param_of file)
              (left ctype file.1 ps) (omega arith) (parse_param-print ctype space file ps q)
          ∙ second

    -- The file name of a header with a disposition type and a quoted file name is what stands behind the
    -- first slash or backslash of that name, with the slashes it holds itself, if it is of ASCII
    -- characters other than the percent sign.
    pub parse_content_disposition-slash :
        (type a b : Bytes) (c : ℕ) (ps : List (Bytes × Value))
        → IsToken type
        → NoSlash a
        → is_slash c ≡ true
        → IsPlain b
        → IsQuotable false (a ++ (c ∷ b))
        → parse_content_disposition ctype to_utf8
            (print_params ((type, bare) ∷ (codes "filename", quoted (a ++ (c ∷ b))) ∷ ps))
          ≡ some b
    unfolding parse_content_disposition
    parse_content_disposition-slash type a b c ps t h k p q =
        let file : IsParam (codes "filename", quoted (a ++ (c ∷ b))) = (filename-IsToken, q) in
        header_name type a b c ps (length (print_params (header type a b c ps)))
          (long-header type a b c ps t) (t, tt) file (plain_name-append a b c h k p)
