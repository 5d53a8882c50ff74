-- ===== src/Http/Date/Layout.antt =====
-- What the directives of the formats make of the parts of a date.
use wget.Prelude.{
  ℕ, suc, ◌<◌, ◌≡◌, refl, ◌∙◌, ap, true, false, List, [], ◌∷◌, ◌++◌, some, none, ◌==◌, ==_iff,
  Bytes, ℤ, arith, All, skip, span, span-append, Option,
}
use wget.Http.Sscanf.{
  Fields, is_space, is_letter, is_digit, unsigned, signed, word_bytes, scan, scan_number, Directive,
  with_bytes, with_number, blank, letters, byte, number, word, store, Target,
}
use wget.Http.Date.Print.{two, skip-two, word_letters}

module _ (ds : List Directive) (f : Fields) where
  pub step_number :
      (width : Option ℕ) (target : Target) (n : ℤ) (s rest : Bytes)
      → scan_number width s ≡ some (n, rest)
      → scan (number width target ∷ ds) s f ≡ scan ds rest (store target n f)
  unfolding scan
  step_number width target n s rest h =
      ap (λ r. with_number r (λ m t. scan ds t (store target m f))) h

  step_word :
      (width c : ℕ) (w s rest : Bytes)
      → word_bytes width (skip is_space s) ≡ (c ∷ w, rest)
      → scan (word width ∷ ds) s f ≡ scan ds rest (record f { mname = c ∷ w })
  unfolding scan
  step_word width c w s rest h =
      ap (λ r. with_bytes r (λ m t. scan ds t (record f { mname = m }))) h

  step_letters :
      (c : ℕ) (w s rest : Bytes)
      → span is_letter s ≡ (c ∷ w, rest)
      → scan (letters ∷ ds) s f ≡ scan ds rest f
  unfolding scan
  step_letters c w s rest h = ap (λ r. with_bytes r (λ m t. scan ds t f)) h

  pub step_blank : (s t : Bytes) → skip is_space s ≡ t → scan (blank ∷ ds) s f ≡ scan ds t f
  unfolding scan
  step_blank s t h = ap (λ r. scan ds r f) h

  step_no_number :
      (width : Option ℕ) (target : Target) (s : Bytes)
      → scan_number width s ≡ none
      → scan (number width target ∷ ds) s f ≡ none
  unfolding scan
  step_no_number width target s h = ap (λ r. with_number r (λ m t. scan ds t (store target m f))) h

  pub step_no_byte : (c d : ℕ) (s : Bytes) → (d == c) ≡ false → scan (byte c ∷ ds) (d ∷ s) f ≡ none
  unfolding scan
  step_no_byte c d s h = rw h refl

  pub step_byte : (c : ℕ) (s : Bytes) → scan (byte c ∷ ds) (c ∷ s) f ≡ scan ds s f
  unfolding scan
  step_byte c s = rw ((==_iff c c).1 refl) refl

-- the name of the day
pub scan_weekday :
    (ds : List Directive) (f : Fields) (c d : ℕ) (w t : Bytes)
    → All (λ x. is_letter x ≡ true) (c ∷ w)
    → is_letter d ≡ false
    → scan (blank ∷ letters ∷ ds) ((c ∷ w) ++ (d ∷ t)) f ≡ scan ds (d ∷ t) f
scan_weekday ds f c d w t h k =
    let first : is_space c ≡ false = ground (arith, h.0) in
    step_blank (letters ∷ ds) f ((c ∷ w) ++ (d ∷ t)) ((c ∷ w) ++ (d ∷ t)) (rw first refl)
    ∙ step_letters ds f c w ((c ∷ w) ++ (d ∷ t)) (d ∷ t) (span-append is_letter (c ∷ w) (d ∷ t) h k)

pub scan_comma :
    (ds : List Directive) (f : Fields) (day : ℕ) (t : Bytes)
    → day < 100
    → scan (byte b',' ∷ blank ∷ ds) (b',' ∷ b' ' ∷ two day t) f ≡ scan ds (two day t) f
scan_comma ds f day t h =
    step_byte (blank ∷ ds) f b',' (b' ' ∷ two day t)
    ∙ step_blank ds f (b' ' ∷ two day t) (two day t) (skip-two day t h)

pub scan_gap :
    (ds : List Directive) (f : Fields) (n : ℕ) (t : Bytes)
    → n < 100
    → scan (blank ∷ ds) (b' ' ∷ two n t) f ≡ scan ds (two n t) f
scan_gap ds f n t h = step_blank ds f (b' ' ∷ two n t) (two n t) (skip-two n t h)

letter_not_space : (c : ℕ) → is_letter c ≡ true → is_space c ≡ false
letter_not_space c h = ground arith

letter_no_number :
    (width : ℕ) (c : ℕ) (s : Bytes)
    → is_letter c ≡ true
    → scan_number (some (suc width)) (c ∷ s) ≡ none
unfolding signed unsigned
letter_no_number width c s h =
    let minus : (c == b'-') ≡ false = ground (arith, h) in
    let plus : (c == b'+') ≡ false = ground (arith, h) in
    let digit : is_digit c ≡ false = ground (arith, h) in
    rw (letter_not_space c h) (rw minus (rw plus (rw digit refl)))

module _ (a b c : ℕ) (ha : is_letter a ≡ true) (hb : is_letter b ≡ true) (hc : is_letter c ≡ true)
    (f : Fields) where
  pub scan_month :
      (ds : List Directive) (t : Bytes)
      → scan (blank ∷ word 3 ∷ ds) (b' ' ∷ a ∷ b ∷ c ∷ t) f
        ≡ scan ds t (record f { mname = a ∷ b ∷ c ∷ [] })
  scan_month ds t =
      step_blank (word 3 ∷ ds) f (b' ' ∷ a ∷ b ∷ c ∷ t) (a ∷ b ∷ c ∷ t)
        (rw (letter_not_space a ha) refl)
      ∙ step_word ds f 3 a (b ∷ c ∷ []) (a ∷ b ∷ c ∷ t) t (word_letters a b c t ha hb hc)

  -- a name that stands behind a dash
  pub scan_month_dash :
      (ds : List Directive) (t : Bytes)
      → scan (byte b'-' ∷ word 3 ∷ ds) (b'-' ∷ a ∷ b ∷ c ∷ t) f
        ≡ scan ds t (record f { mname = a ∷ b ∷ c ∷ [] })
  scan_month_dash ds t =
      step_byte (word 3 ∷ ds) f b'-' (a ∷ b ∷ c ∷ t)
      ∙ step_word ds f 3 a (b ∷ c ∷ []) (a ∷ b ∷ c ∷ t) t (word_letters a b c t ha hb hc)

  -- a dash is taken for the beginning of a name
  pub dash_fails :
      (ds : List Directive) (target : Target) (t : Bytes)
      → scan (blank ∷ word 3 ∷ blank ∷ number (some 4) target ∷ ds) (b'-' ∷ a ∷ b ∷ c ∷ t) f ≡ none
  dash_fails ds target t =
      let rest = blank ∷ number (some 4) target ∷ ds in
      let g : Fields = record f { mname = b'-' ∷ a ∷ b ∷ [] } in
      step_blank (word 3 ∷ rest) f (b'-' ∷ a ∷ b ∷ c ∷ t) (b'-' ∷ a ∷ b ∷ c ∷ t) refl
      ∙ step_word rest f 3 b'-' (a ∷ b ∷ []) (b'-' ∷ a ∷ b ∷ c ∷ t) (c ∷ t)
          (unfold word_bytes in rw (letter_not_space a ha) (rw (letter_not_space b hb) refl))
      ∙ step_blank (number (some 4) target ∷ ds) g (c ∷ t) (c ∷ t) (rw (letter_not_space c hc) refl)
      ∙ step_no_number ds g (some 4) target (c ∷ t) (letter_no_number 3 c t hc)
