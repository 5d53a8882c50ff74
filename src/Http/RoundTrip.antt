-- ===== src/Http/RoundTrip.antt =====
-- Parameters as they are printed, and what is read of them.
use wget.Prelude.{
  Stops, span-append, ℕ, ◌<◌, ◌≡◌, refl, Bool, true, false, not, ◌&&◌, List, [], ◌∷◌, ◌++◌,
  append_assoc, All, length, drop, ◌==◌, Bytes, codes, Ctype, arith, Option, none, some,
}
use wget.Http.{
  skip, isseparator, istoken, parse_token, scan_quoted, parse_quoted_string, Param, parse_value,
  parse_equals, skip_semicolon, parse_named, parse_param,
}

-- a string of one token character at least, and one of token characters
abbrev pub IsToken : Bytes → Type 0
IsToken t = (0 < length t) × All (λ c. istoken c ≡ true) t

-- the body of a quoted string: every quote and backslash is escaped
abbrev pub IsQuotable : Bool → Bytes → Type 0
IsQuotable escaped [] = escaped ≡ false
IsQuotable escaped (c ∷ s) =
    ((not escaped && c == b'"') ≡ false) × IsQuotable (not escaped && c == b'\\') s

scan_quoted-append :
    (escaped : Bool) (t s : Bytes)
    → IsQuotable escaped t
    → scan_quoted escaped (t ++ (b'"' ∷ s)) ≡ (t, b'"' ∷ s)
unfolding scan_quoted
scan_quoted-append escaped [] s h = rw h refl
scan_quoted-append escaped (c ∷ t) s h =
    rw h.0 (rw (scan_quoted-append (not escaped && c == b'\\') t s h.1) refl)

-- A quoted string is read back, and what follows it is left.
pub parse_quoted_string-append :
    (t s : Bytes)
    → IsQuotable false t
    → parse_quoted_string (b'"' ∷ (t ++ (b'"' ∷ s))) ≡ (some t, s)
unfolding parse_quoted_string
parse_quoted_string-append t s h = rw (scan_quoted-append false t s h) refl

-- a parameter as it is printed
pub data Value : Type 0 where
  bare : Value
  token : Bytes → Value
  quoted : Bytes → Value

abbrev pub IsValue : Value → Type 0
IsValue bare = Unit {0}
IsValue (token t) = IsToken t
IsValue (quoted t) = IsQuotable false t

abbrev pub print_value : Value → Bytes
print_value bare = []
print_value (token t) = b'=' ∷ t
print_value (quoted t) = b'=' ∷ b'"' ∷ (t ++ codes "\"")

abbrev pub value_of : Value → Option Bytes
value_of bare = none
value_of (token t) = some t
value_of (quoted t) = some t

-- the parameters, each behind a semicolon and a space
abbrev pub print_more : List (Bytes × Value) → Bytes
print_more [] = []
print_more ((name, value) ∷ ps) = codes "; " ++ (name ++ (print_value value ++ print_more ps))

abbrev pub print_params : List (Bytes × Value) → Bytes
print_params [] = []
print_params ((name, value) ∷ ps) = name ++ (print_value value ++ print_more ps)

abbrev pub IsParam : Bytes × Value → Type 0
IsParam (name, value) = IsToken name × IsValue value

abbrev pub param_of : Bytes × Value → Param
param_of (name, value) = record { name = some name; value = value_of value }

-- what may stand in front of a parameter in a loop
pub data Lead : Type 0 where
  nothing semicolon space : Lead

abbrev pub lead : Lead → Bytes
lead nothing = []
lead semicolon = codes "; "
lead space = codes " "

module _ (ctype : Ctype) where
  pub token-ne : (c : ℕ) → istoken c ≡ true → (ctype.isblank c ≡ false) × ((c == b';') ≡ false)
  unfolding istoken isseparator
  token-ne c h = ground (arith, ctype.isblank_ascii c)

  -- what follows a parameter: nothing, or a semicolon
  abbrev Follows : Bytes → Type 0
  Follows [] = Unit {0}
  Follows (c ∷ s) = c ≡ b';'

  more-Follows : (ps : List (Bytes × Value)) → Follows (print_more ps)
  more-Follows [] = tt
  more-Follows (p ∷ ps) = refl

  Follows-Stops : (s : Bytes) → Follows s → Stops istoken s
  unfolding istoken isseparator
  Follows-Stops [] k = tt
  Follows-Stops (c ∷ s) k = rw k refl

  parse_value-token :
      (t s : Bytes) → IsToken t → Follows s → parse_value ctype (t ++ s) ≡ (some t, s)
  unfolding parse_value
  parse_value-token [] s h k = absurd (omega arith)
  parse_value-token (c ∷ t) s h k =
      let plain : (c == b'"') ≡ false = unfold istoken isseparator in ground (arith, h.1.0) in
      let read : parse_token (c ∷ (t ++ s)) ≡ (c ∷ t, s) =
        unfold parse_token in span-append istoken (c ∷ t) s h.1 (Follows-Stops s k) in
      rw (plain, parse_value) (rw read refl)

  parse_value-quoted :
      (t s : Bytes)
      → IsQuotable false t
      → parse_value ctype (b'"' ∷ (t ++ (b'"' ∷ s))) ≡ (some t, s)
  unfolding parse_value
  parse_value-quoted t s h = parse_quoted_string-append t s h

  blank_none : (c : ℕ) → (c == b' ') ≡ false → (c == 9) ≡ false → ctype.isblank c ≡ false
  blank_none c h k = ground (arith, ctype.isblank_ascii c)

  -- what is left behind a parameter: a bare one takes the semicolon with it
  abbrev pub left : Value → List (Bytes × Value) → Bytes
  left bare ps = drop 1 (print_more ps)
  left (token t) ps = print_more ps
  left (quoted t) ps = print_more ps

  parse_equals-print :
      (name : Bytes) (v : Value) (ps : List (Bytes × Value))
      → IsValue v
      → parse_equals ctype name (skip ctype.isblank (print_value v ++ print_more ps))
        ≡ (param_of (name, v), left v ps)
  unfolding parse_equals
  parse_equals-print name bare [] h = refl
  parse_equals-print name bare (p ∷ ps) h =
      let kept : ctype.isblank b';' ≡ false = blank_none b';' refl refl in rw (kept, skip) refl
  parse_equals-print name (token []) ps h = absurd (omega arith)
  parse_equals-print name (token (c ∷ t)) ps h =
      let kept : ctype.isblank b'=' ≡ false = blank_none b'=' refl refl in
      let first : ctype.isblank c ≡ false = (token-ne c h.1.0).0 in
      rw (kept, skip)
        (rw first (rw (parse_value-token (c ∷ t) (print_more ps) h (more-Follows ps)) refl))
  parse_equals-print name (quoted t) ps h =
      let kept : ctype.isblank b'=' ≡ false = blank_none b'=' refl refl in
      let first : ctype.isblank b'"' ≡ false = blank_none b'"' refl refl in
      rw (kept, skip)
        (rw first (
          rw (append_assoc t (b'"' ∷ []) (print_more ps))
            (rw (parse_value-quoted t (print_more ps) h) refl)))

  print_value-Stops :
      (v : Value) (ps : List (Bytes × Value)) → Stops istoken (print_value v ++ print_more ps)
  print_value-Stops bare ps = Follows-Stops (print_more ps) (more-Follows ps)
  print_value-Stops (token t) ps = unfold istoken isseparator in refl
  print_value-Stops (quoted t) ps = unfold istoken isseparator in refl

  parse_named-print :
      (p : Bytes × Value) (ps : List (Bytes × Value))
      → IsParam p
      → parse_named ctype (print_params (p ∷ ps)) ≡ (param_of p, left p.1 ps)
  unfolding parse_named
  parse_named-print ([], v) ps h = absurd (omega arith)
  parse_named-print (c ∷ name, v) ps h =
      let read : parse_token (c ∷ (name ++ (print_value v ++ print_more ps)))
          ≡ (c ∷ name, print_value v ++ print_more ps) =
        unfold parse_token in
        span-append istoken (c ∷ name) (print_value v ++ print_more ps) h.0.1
          (print_value-Stops v ps) in
      rw read (parse_equals-print (c ∷ name) v ps h.1)

  skip-lead :
      (l : Lead) (p : Bytes × Value) (ps : List (Bytes × Value))
      → IsParam p
      → skip_semicolon ctype (skip ctype.isblank (lead l ++ print_params (p ∷ ps)))
        ≡ print_params (p ∷ ps)
  skip-lead l ([], v) ps h = absurd (omega arith)
  skip-lead nothing (c ∷ name, v) ps h =
      let first = token-ne c h.0.1.0 in rw (first.0, skip) (rw first.1 refl)
  skip-lead semicolon (c ∷ name, v) ps h =
      let first = token-ne c h.0.1.0 in
      let kept : ctype.isblank b';' ≡ false = blank_none b';' refl refl in
      let gone : ctype.isblank b' ' ≡ true = ctype.isblank_ascii b' ' in
      rw (kept, skip) (rw gone (rw first.0 refl))
  skip-lead space (c ∷ name, v) ps h =
      let first = token-ne c h.0.1.0 in
      let gone : ctype.isblank b' ' ≡ true = ctype.isblank_ascii b' ' in
      rw (gone, skip) (rw (first.0, skip) (rw first.1 refl))

  pub parse_param-print :
      (l : Lead) (p : Bytes × Value) (ps : List (Bytes × Value))
      → IsParam p
      → parse_param ctype (lead l ++ print_params (p ∷ ps)) ≡ (param_of p, left p.1 ps)
  unfolding parse_param
  parse_param-print l p ps h = rw (skip-lead l p ps h) (parse_named-print p ps h)
