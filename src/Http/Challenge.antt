-- ===== src/Http/Challenge.antt =====
-- libwget/http_parse.c: the challenges of WWW-Authenticate. The parameters of a challenge are a
-- string map; `lower` and `same` stand for the C library's `tolower` and `!strcasecmp`.
pub mod Loops
use wget.Prelude.{
  ℕ, zero, suc, Bool, List, [], ◌∷◌, ◌++◌, Option, none, some, drop, length, ◌==◌, if◌then◌else◌,
  Bytes, at, Ctype,
}
use wget.Http.{skip, parse_token, Param, parse_param}
use wget.Hashmap.{Hashmap, put_noalloc}
use wget.Stringmap.{stringmap_create_nocase}

abbrev pub Params : Type 0
Params = Option (Hashmap Bytes Bytes)

-- `wget_http_challenge_t`
pub record Challenge : Type 0 where
  pub auth_scheme : Option Bytes
  pub params : Params

-- how a round of the loop over the parameters ends
pub data Step : Type 0 where
  stop again : Params → Bytes → Step

abbrev pub resume : (Params → Bytes → Params × Bytes) → Step → Params × Bytes
resume loop (stop params s) = (params, s)
resume loop (again params s) = loop params s

-- `while (*s)`
abbrev pub while_more : Params → Bytes → Step
while_more params [] = stop params []
while_more params (c ∷ s) = again params (c ∷ s)

-- `if (challenge->auth_scheme) wget_vector_add(…)`
abbrev pub add_challenge : List Challenge → Challenge → Option Bytes → List Challenge
add_challenge challenges challenge none = challenges
add_challenge challenges challenge (some scheme) = challenges ++ (challenge ∷ [])

module _ (ctype : Ctype) (lower : ℕ → ℕ) (same : Bytes → Bytes → Bool) where
  -- `if (!challenge->params) …; wget_stringmap_put_noalloc(…)`
  abbrev pub put_param : Params → Bytes → Bytes → Params
  put_param none name value = some (put_noalloc (stringmap_create_nocase lower same 8) name value).0
  put_param (some params) name value = some (put_noalloc params name value).0

  -- `while (c_isblank(*s)) s++; if (*s != ',') break; else if (*s) s++;`
  abbrev pub comma_step : Params → Bytes → Step
  comma_step params s =
      let t = skip ctype.isblank s in
      if at t 0 == b',' then while_more params (drop 1 t) else stop params t

  -- the body of the loop behind `wget_http_parse_param`, from the string before it
  abbrev pub param_step : Params → Bytes → Option Bytes → Option Bytes → Bytes → Step
  param_step params old none value s = comma_step params s
  param_step params old (some []) none s = while_more params s
  param_step params old (some (c ∷ name)) none s = stop params old
  param_step params old (some name) (some value) s = comma_step (put_param params name value) s

  abbrev pub params_round : Params → Bytes → Step
  params_round params s =
      let (param, rest) = parse_param ctype s in param_step params s param.name param.value rest

  -- `do { … } while (*s)`; `fuel` bounds the rounds
  unfoldable pub parse_params : ℕ → Params → Bytes → Params × Bytes
  parse_params zero params s = (params, s)
  parse_params (suc fuel) params s = resume (parse_params fuel) (params_round params s)

  -- `wget_http_parse_challenge`
  unfoldable pub parse_challenge : Bytes → Challenge × Bytes
  parse_challenge s =
      let (scheme, rest) = parse_token (skip ctype.isblank s) in
      let (params, end) = parse_params (length rest) none (drop 1 rest) in
      if at rest 0 == b' '
      then (record { auth_scheme = some scheme; params = params }, end)
      else (record { auth_scheme = none; params = none }, rest)

  -- `wget_http_parse_challenges`: `none` where `fuel` rounds do not end the loop
  unfoldable pub parse_challenges : ℕ → List Challenge → Bytes → Option (List Challenge)
  parse_challenges fuel challenges [] = some challenges
  parse_challenges zero challenges (c ∷ s) = none
  parse_challenges (suc fuel) challenges (c ∷ s) =
      let (challenge, rest) = parse_challenge (c ∷ s) in
      parse_challenges fuel (add_challenge challenges challenge challenge.auth_scheme) rest
