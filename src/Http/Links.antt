-- ===== src/Http/Links.antt =====
-- libwget/http_parse.c: Link, Digest and Public-Key-Pins. `atoi` and `atoll` of the C library are
-- parameters, and the calls on a `wget_hpkp_t` are listed in order.
use wget.Prelude.{
  ℕ, zero, suc, Bool, true, false, not, ◌&&◌, List, [], ◌∷◌, ◌++◌, Option, none, some, drop, take,
  length, ◌==◌, if◌then◌else◌, Bytes, codes, at, Ctype, ℤ, pos,
}
use wget.Http.{skip, span, parse_token, parse_quoted_string, Param, parse_param}
use wget.Http.Directives.{names, each_param}

-- `wget_http_link_t`
pub data Rel : Type 0 where
  link_rel_none link_rel_describedby link_rel_duplicate : Rel

pub record Link : Type 0 where
  pub uri : Option Bytes
  pub type : Option Bytes
  pub pri : ℤ
  pub rel : Rel

-- `wget_http_digest_t`
pub record Digest : Type 0 where
  pub algorithm : Bytes
  pub encoded_digest : Option Bytes

pub data HpkpCall : Type 0 where
  set_include_subdomains : Bool → HpkpCall
  set_maxage : ℤ → HpkpCall
  pin_add : Bytes → Bytes → HpkpCall

abbrev pub empty_link : Link
empty_link = record { uri = none; type = none; pri = pos 0; rel = link_rel_none }

-- `if (!link->type) link->type = value`
abbrev pub first_type : Option Bytes → Bytes → Option Bytes
first_type none value = some value
first_type (some type) value = some type

module _ (ctype : Ctype) where
  abbrev pub rel_of : Rel → Bytes → Rel
  rel_of rel value =
      if names ctype (some value) (codes "describedby")
      then link_rel_describedby
      else if names ctype (some value) (codes "duplicate")
      then link_rel_duplicate
      else rel

  -- `if (name && value) …`
  abbrev pub link_param : (Bytes → ℤ) → Link → Option Bytes → Option Bytes → Link
  link_param atoi link (some name) (some value) =
      if names ctype (some name) (codes "rel")
      then record link { rel = rel_of link.rel value }
      else if names ctype (some name) (codes "pri")
      then record link { pri = atoi value }
      else if names ctype (some name) (codes "type")
      then record link { type = first_type link.type value }
      else link
  link_param atoi link name value = link

  -- `while (c_isblank(*s)) s++` behind a parameter with a value
  abbrev pub link_rest : Option Bytes → Option Bytes → Bytes → Bytes
  link_rest (some name) (some value) s = skip ctype.isblank s
  link_rest name value s = s

  -- `while (*s == ';') …`; `fuel` bounds the rounds
  unfoldable pub link_params : (Bytes → ℤ) → ℕ → Link → Bytes → Link × Bytes
  link_params atoi zero link s = (link, s)
  link_params atoi (suc fuel) link s =
      let (param, rest) = parse_param ctype s in
      let further =
        link_params atoi fuel (link_param atoi link param.name param.value)
          (link_rest param.name param.value rest) in
      if at s 0 == b';' then further else (link, s)

  -- behind `<`: the URI up to `>`, and the parameters; NULL without a `>`
  abbrev pub parse_uri : (Bytes → ℤ) → Bytes × Bytes → Link × Option Bytes
  parse_uri atoi (uri, []) = (empty_link, none)
  parse_uri atoi (uri, c ∷ s) =
      let (link, rest) =
        link_params atoi (length s) (record empty_link { uri = some uri }) (skip ctype.isblank s) in
      (link, some (skip (λ d. not (ctype.isblank d)) rest))

  -- `wget_http_parse_link`
  unfoldable pub parse_link : (Bytes → ℤ) → Bytes → Link × Option Bytes
  parse_link atoi s =
      let t = skip ctype.isblank s in
      if at t 0 == b'<'
      then parse_uri atoi (span (λ c. not (c == b'>')) (drop 1 t))
      else (empty_link, some t)

  -- `for (p = s; *s && !c_isblank(*s) && *s != ',' && *s != ';'; s++)`
  abbrev pub in_digest : ℕ → Bool
  in_digest c = not (ctype.isblank c) && not (c == b',') && not (c == b';')

  abbrev pub digest_value : Bytes → Option Bytes × Bytes
  digest_value s =
      let (value, rest) = span in_digest s in
      if at s 0 == b'"' then parse_quoted_string s else (some value, rest)

  -- `wget_http_parse_digest`
  unfoldable pub parse_digest : Bytes → Digest × Bytes
  parse_digest s =
      let (algorithm, rest) = parse_token (skip ctype.isblank s) in
      let t = skip ctype.isblank rest in
      let (value, end) = digest_value (skip ctype.isblank (drop 1 t)) in
      if at t 0 == b'='
      then (
        record { algorithm = algorithm; encoded_digest = value },
        skip (λ c. not (ctype.isblank c)) end,
      )
      else (
        record { algorithm = algorithm; encoded_digest = none },
        skip (λ c. not (ctype.isblank c)) t,
      )

  -- the body of the loop in `wget_http_parse_public_key_pins`
  abbrev pub hpkp_value : (Bytes → ℤ) → List HpkpCall → Option Bytes → Option Bytes → List HpkpCall
  hpkp_value atoll calls (some name) (some value) =
      if names ctype (some name) (codes "max-age")
      then calls ++ (set_maxage (atoll value) ∷ [])
      else if names ctype (some (take 4 name)) (codes "pin-")
      then calls ++ (pin_add (drop 4 name) value ∷ [])
      else calls
  hpkp_value atoll calls name none =
      if names ctype name (codes "includeSubDomains")
      then calls ++ (set_include_subdomains true ∷ [])
      else calls
  hpkp_value atoll calls none (some value) = calls

  abbrev pub hpkp_step : (Bytes → ℤ) → List HpkpCall → Param → List HpkpCall
  hpkp_step atoll calls param = hpkp_value atoll calls param.name param.value

  -- `wget_http_parse_public_key_pins`
  unfoldable pub parse_public_key_pins : (Bytes → ℤ) → Bytes → List HpkpCall
  parse_public_key_pins atoll s =
      each_param ctype (hpkp_step atoll) (length s) s (set_include_subdomains false ∷ [])
