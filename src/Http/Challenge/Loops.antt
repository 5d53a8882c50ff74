-- ===== src/Http/Challenge/Loops.antt =====
-- Which of the loops over challenges end.
use wget.Prelude.{
  span-append, skip-stop, length-skip, Stops, Bool-cases, inl, inr, ℕ, zero, suc, ◌<◌, ◌≤◌, ◌≡◌,
  refl, ap, ◌∙◌, Bool, true, false, List, [], ◌∷◌, ◌++◌, Option, none, some, All, drop, length,
  ◌==◌, if◌then◌else◌, Bytes, at, Ctype, arith,
}
use wget.Http.{skip, istoken, parse_token, parse_named, parse_param}
use wget.Http.Challenge.{
  add_challenge, params_round, Params, Challenge, Step, stop, again, resume, while_more, put_param,
  comma_step, param_step, parse_params, parse_challenge, parse_challenges,
}
use wget.Http.RoundTrip.{token-ne}
use wget.Http.Progress.{length-parse_param}

-- where the loop goes on, it is with a string that is shorter than `n`, and where it stops, with one
-- that is no longer than `n`
abbrev Shrinks : ℕ → Step → Type 0
Shrinks n (stop params s) = length s ≤ n
Shrinks n (again params s) = length s < n

module _ (ctype : Ctype) (lower : ℕ → ℕ) (same : Bytes → Bytes → Bool) where
  while_more-Shrinks :
      (n : ℕ) (params : Params) (s : Bytes) → length s < n → Shrinks n (while_more params s)
  while_more-Shrinks n params [] h = omega arith
  while_more-Shrinks n params (c ∷ s) h = h

  at_comma-Shrinks :
      (n : ℕ) (params : Params) (t : Bytes)
      → length t ≤ n
      → Shrinks n (if at t 0 == b',' then while_more params (drop 1 t) else stop params t)
  at_comma-Shrinks n params [] h = h
  at_comma-Shrinks n params (c ∷ t) h = elim (Bool-cases (c == b',')) [
    | inl e ↦ rw e (while_more-Shrinks n params t (omega arith))
    | inr e ↦ rw e h
  ]

  comma_step-Shrinks :
      (n : ℕ) (params : Params) (s : Bytes)
      → length s ≤ n
      → Shrinks n (comma_step ctype lower same params s)
  comma_step-Shrinks n params s h =
      at_comma-Shrinks n params (skip ctype.isblank s) (omega (arith, length-skip ctype.isblank s))

  param_step-Shrinks :
      (params : Params) (old s : Bytes) (name value : Option Bytes)
      → length s < length old
      → Shrinks (length old) (param_step ctype lower same params old name value s)
  param_step-Shrinks params old s none value h =
      comma_step-Shrinks (length old) params s (omega arith)
  param_step-Shrinks params old s (some []) none h = while_more-Shrinks (length old) params s h
  param_step-Shrinks params old s (some (c ∷ name)) none h = omega arith
  param_step-Shrinks params old s (some name) (some value) h =
      comma_step-Shrinks (length old) (put_param ctype lower same params name value) s (omega arith)

  -- the loop goes on only behind a byte that was read
  params_round-Shrinks :
      (params : Params) (s : Bytes) → Shrinks (length s) (params_round ctype lower same params s)
  params_round-Shrinks params [] = unfold parse_param parse_named in omega arith
  params_round-Shrinks params (c ∷ s) =
      let (param, rest) = parse_param ctype (c ∷ s) in
      param_step-Shrinks params (c ∷ s) rest param.name param.value
        (length-parse_param ctype (c ∷ s) (omega arith))

  resume_ends :
      (f g : Params → Bytes → Params × Bytes) (n : ℕ) (step : Step)
      → Shrinks n step
      → ((params : Params) (s : Bytes) → length s < n → f params s ≡ g params s)
      → resume f step ≡ resume g step
  resume_ends f g n (stop params s) h k = refl
  resume_ends f g n (again params s) h k = k params s h

  -- The loop over the parameters of a challenge ends: one round more than the string has bytes is
  -- enough, and with more of them the loop returns the same.
  pub parse_params_ends :
      (f g : ℕ) (params : Params) (s : Bytes)
      → length s < f
      → length s < g
      → parse_params ctype lower same f params s ≡ parse_params ctype lower same g params s
  unfolding parse_params
  parse_params_ends zero g params s h k = absurd (omega arith)
  parse_params_ends (suc f) zero params s h k = absurd (omega arith)
  parse_params_ends (suc f) (suc g) params s h k =
      resume_ends (parse_params ctype lower same f) (parse_params ctype lower same g) (length s)
        (params_round ctype lower same params s) (params_round-Shrinks params s)
        (λ p t less. parse_params_ends f g p t (omega arith) (omega arith))

  no_blank :
      (t s : Bytes) (c : ℕ)
      → All (λ d. istoken d ≡ true) t
      → ctype.isblank c ≡ false
      → Stops ctype.isblank (t ++ (c ∷ s))
  no_blank [] s c h j = j
  no_blank (d ∷ t) s c h j = (token-ne ctype d h.0).0

  -- a scheme without a blank behind it is dropped, and nothing else of the string is read
  parse_challenge-append :
      (t s : Bytes) (c : ℕ)
      → All (λ d. istoken d ≡ true) t
      → istoken c ≡ false
      → ctype.isblank c ≡ false
      → parse_challenge ctype lower same (t ++ (c ∷ s))
        ≡ (record { auth_scheme = none; params = none }, c ∷ s)
  unfolding parse_challenge
  parse_challenge-append t s c h i j =
      let other : (c == b' ') ≡ false = ground (arith, ctype.isblank_ascii c) in
      let read : parse_token (skip ctype.isblank (t ++ (c ∷ s))) ≡ (t, c ∷ s) =
        unfold parse_token in
        rw (skip-stop ctype.isblank (t ++ (c ∷ s)) (no_blank t s c h j))
          (span-append istoken t (c ∷ s) h i) in
      rw read (rw other refl)

  -- a round that adds no challenge
  parse_challenges-none :
      (fuel : ℕ) (challenges : List Challenge) (t s u : Bytes) (c : ℕ)
      → parse_challenge ctype lower same (t ++ (c ∷ s))
        ≡ (record { auth_scheme = none; params = none }, u)
      → parse_challenges ctype lower same (suc fuel) challenges (t ++ (c ∷ s))
        ≡ parse_challenges ctype lower same fuel challenges u
  unfolding parse_challenges
  parse_challenges-none fuel challenges [] s u c e =
      ap
        (λ r.
          parse_challenges ctype lower same fuel (add_challenge challenges r.0 r.0.auth_scheme) r.1)
        e
  parse_challenges-none fuel challenges (d ∷ t) s u c e =
      ap
        (λ r.
          parse_challenges ctype lower same fuel (add_challenge challenges r.0 r.0.auth_scheme) r.1)
        e

  no_rounds :
      (challenges : List Challenge) (t s : Bytes) (c : ℕ)
      → parse_challenges ctype lower same 0 challenges (t ++ (c ∷ s)) ≡ none
  unfolding parse_challenges
  no_rounds challenges [] s c = refl
  no_rounds challenges (d ∷ t) s c = refl

  -- A header whose first token is followed by a separator that is no blank is never left: whatever
  -- rounds are given, the loop over the challenges does not end.
  pub parse_challenges_stall :
      (fuel : ℕ) (challenges : List Challenge) (t s : Bytes) (c : ℕ)
      → All (λ d. istoken d ≡ true) t
      → istoken c ≡ false
      → ctype.isblank c ≡ false
      → parse_challenges ctype lower same fuel challenges (t ++ (c ∷ s)) ≡ none
  parse_challenges_stall zero challenges t s c h i j = no_rounds challenges t s c
  parse_challenges_stall (suc fuel) challenges t s c h i j =
      parse_challenges-none fuel challenges t s (c ∷ s) c (parse_challenge-append t s c h i j)
      ∙ parse_challenges_stall fuel challenges [] s c tt i j
