-- ===== src/Http/Loops.antt =====
-- The loops over the parameters of a header.
use wget.Prelude.{
  ℕ, zero, suc, ◌<◌, ◌≤◌, ◌≡◌, refl, ap, ◌∙◌, sym, List, [], ◌∷◌, ◌++◌, All, length, Bytes, Ctype,
  arith, ℤ, pos, false,
}
use wget.Http.{Param, parse_param}
use wget.Http.Directives.{each_param, parse_strict_transport_security, sts_step}
use wget.Http.Progress.{length-parse_param}
use wget.Http.RoundTrip.{
  Value, bare, token, quoted, IsParam, param_of, print_params, Lead, lead, nothing, semicolon,
  space, left, parse_param-print,
}

-- the parameters, one after the other
abbrev pub fold_params : {S : Type 0} → (S → Param → S) → S → List (Bytes × Value) → S
fold_params step state [] = state
fold_params step state (p ∷ ps) = fold_params step (step state (param_of p)) ps

module _ (ctype : Ctype) {S : Type 0} (step : S → Param → S) where
  each_param-nil : (fuel : ℕ) (state : S) → each_param ctype step fuel [] state ≡ state
  unfolding each_param
  each_param-nil zero state = refl
  each_param-nil (suc fuel) state = refl

  each_param-next :
      (fuel : ℕ) (s : Bytes) (state : S)
      → 0 < length s
      → each_param ctype step (suc fuel) s state
        ≡ each_param ctype step fuel (parse_param ctype s).1 (step state (parse_param ctype s).0)
  unfolding each_param
  each_param-next fuel [] state h = absurd (omega arith)
  each_param-next fuel (c ∷ s) state h = refl

  -- Every round of a loop over parameters reads a byte: as many rounds as the string has bytes are
  -- enough, and with more of them the loop returns the same.
  pub each_param_ends :
      (f g : ℕ) (s : Bytes) (state : S)
      → length s ≤ f
      → length s ≤ g
      → each_param ctype step f s state ≡ each_param ctype step g s state
  each_param_ends f g [] state h k = each_param-nil f state ∙ sym (each_param-nil g state)
  each_param_ends zero g (c ∷ s) state h k = absurd (omega arith)
  each_param_ends (suc f) zero (c ∷ s) state h k = absurd (omega arith)
  each_param_ends (suc f) (suc g) (c ∷ s) state h k =
      let less = length-parse_param ctype (c ∷ s) (omega arith) in
      each_param-next f (c ∷ s) state (omega arith)
      ∙ each_param_ends f g (parse_param ctype (c ∷ s)).1 (step state (parse_param ctype (c ∷ s)).0)
          (omega arith) (omega arith)
      ∙ sym (each_param-next g (c ∷ s) state (omega arith))

  pub length_printed :
      (l : Lead) (p : Bytes × Value) (ps : List (Bytes × Value))
      → IsParam p
      → 0 < length (lead l ++ print_params (p ∷ ps))
  length_printed l ([], v) ps h = absurd (omega arith)
  length_printed nothing (c ∷ name, v) ps h = omega arith
  length_printed semicolon (c ∷ name, v) ps h = omega arith
  length_printed space (c ∷ name, v) ps h = omega arith

  left_nil : (v : Value) → left ctype v [] ≡ []
  left_nil bare = refl
  left_nil (token t) = refl
  left_nil (quoted t) = refl

  left_is_lead :
      (v : Value) (n : Bytes) (w : Value) (ps : List (Bytes × Value))
      → (l : Lead) × (left ctype v ((n, w) ∷ ps) ≡ lead l ++ print_params ((n, w) ∷ ps))
  left_is_lead bare n w ps = (space, refl)
  left_is_lead (token t) n w ps = (semicolon, refl)
  left_is_lead (quoted t) n w ps = (semicolon, refl)

  each_param-print :
      (fuel : ℕ) (l : Lead) (p : Bytes × Value) (ps : List (Bytes × Value)) (state : S)
      → All IsParam (p ∷ ps)
      → length (lead l ++ print_params (p ∷ ps)) ≤ fuel
      → each_param ctype step fuel (lead l ++ print_params (p ∷ ps)) state
        ≡ fold_params step state (p ∷ ps)
  each_param-print zero l p ps state h k = absurd (omega (arith, length_printed l p ps h.0))
  each_param-print (suc fuel) l p [] state h k =
      let text = lead l ++ print_params (p ∷ []) in
      let read : parse_param ctype text ≡ (param_of p, []) =
        parse_param-print ctype l p [] h.0 ∙ ap (λ r. (param_of p, r)) (left_nil p.1) in
      each_param-next fuel text state (length_printed l p [] h.0)
      ∙ ap (λ r. each_param ctype step fuel r.1 (step state r.0)) read
      ∙ each_param-nil fuel (step state (param_of p))
  each_param-print (suc fuel) l p ((n, w) ∷ ps) state h k =
      let text = lead l ++ print_params (p ∷ (n, w) ∷ ps) in
      let (m, e) = left_is_lead p.1 n w ps in
      let read : parse_param ctype text ≡ (param_of p, lead m ++ print_params ((n, w) ∷ ps)) =
        parse_param-print ctype l p ((n, w) ∷ ps) h.0 ∙ ap (λ r. (param_of p, r)) e in
      let filled = length_printed l p ((n, w) ∷ ps) h.0 in
      let less : length (lead m ++ print_params ((n, w) ∷ ps)) < length text =
        rw read at (length-parse_param ctype text filled) in
      each_param-next fuel text state filled
      ∙ ap (λ r. each_param ctype step fuel r.1 (step state r.0)) read
      ∙ each_param-print fuel m (n, w) ps (step state (param_of p)) h.1 (omega arith)

pub parse_strict_transport_security-fold_params :
    (ctype : Ctype) (atoll : Bytes → ℤ) (ps : List (Bytes × Value))
    → All IsParam ps
    → parse_strict_transport_security ctype atoll (print_params ps)
      ≡ fold_params (sts_step ctype atoll) (pos 0, false) ps
unfolding parse_strict_transport_security
parse_strict_transport_security-fold_params ctype atoll [] h =
    each_param-nil ctype (sts_step ctype atoll) 0 (pos 0, false)
parse_strict_transport_security-fold_params ctype atoll (p ∷ ps) h =
    each_param-print ctype (sts_step ctype atoll) (length (print_params (p ∷ ps))) nothing p ps
      (pos 0, false) h (omega arith)
