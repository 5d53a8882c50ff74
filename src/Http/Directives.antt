-- ===== src/Http/Directives.antt =====
-- libwget/http_parse.c: the parsers of single headers. `atoll` of the C library is a parameter.
use wget.Prelude.{
  ℕ, zero, suc, Bool, true, false, not, ◌||◌, [], ◌∷◌, Option, none, some, length, ◌==◌,
  if◌then◌else◌, Bytes, codes, Ctype, ℤ, pos,
}
use wget.Http.{skip, span, istoken, Param, parse_param}

-- `transfer_encoding_t`, and the codings of `wget_content_encoding_t` that a header can name
pub data TransferEncoding : Type 0 where
  transfer_identity transfer_chunked : TransferEncoding

pub data ContentEncoding : Type 0 where
  encoding_identity encoding_gzip encoding_deflate encoding_lzma encoding_bzip2 encoding_brotli :
      ContentEncoding

module _ (ctype : Ctype) where
  -- `!wget_strcasecmp_ascii(s, text)`; a NULL equals no text
  abbrev pub names : Option Bytes → Bytes → Bool
  names none text = false
  names (some s) text = ctype.strcaseeq s text

  -- `wget_http_parse_transfer_encoding`
  unfoldable pub parse_transfer_encoding : Bytes → TransferEncoding × Bytes
  unfolding istoken
  parse_transfer_encoding s =
      let t = skip ctype.isblank s in
      (
        if names (some t) (codes "identity") then transfer_identity else transfer_chunked,
        skip istoken t,
      )

  -- the chain of comparisons in `wget_http_parse_content_encoding`
  unfoldable pub content_encoding : Bytes → ContentEncoding
  content_encoding s =
      if names (some s) (codes "gzip") || names (some s) (codes "x-gzip")
      then encoding_gzip
      else if names (some s) (codes "deflate")
      then encoding_deflate
      else if names (some s) (codes "bzip2")
      then encoding_bzip2
      else if names (some s) (codes "xz")
          || (names (some s) (codes "lzma") || names (some s) (codes "x-lzma"))
      then encoding_lzma
      else if names (some s) (codes "br")
      then encoding_brotli
      else encoding_identity

  -- `wget_http_parse_content_encoding`
  unfoldable pub parse_content_encoding : Bytes → ContentEncoding × Bytes
  unfolding content_encoding istoken
  parse_content_encoding s = let t = skip ctype.isblank s in (content_encoding t, skip istoken t)

  -- `wget_http_parse_connection`: whether the connection is kept alive
  unfoldable pub parse_connection : Bytes → Bool × Bytes
  unfolding istoken
  parse_connection s =
      let t = skip ctype.isblank s in (names (some t) (codes "keep-alive"), skip istoken t)

  -- `wget_http_parse_etag`, `wget_http_parse_location`
  unfoldable pub parse_etag : Bytes → Bytes × Bytes
  parse_etag s = span (λ c. not (ctype.isblank c)) (skip ctype.isblank s)

  -- `while (*s) { s = wget_http_parse_param(…); … }`; `fuel` bounds the rounds
  unfoldable pub each_param : {S : Type 0} → (S → Param → S) → ℕ → Bytes → S → S
  each_param step zero s state = state
  each_param step (suc fuel) [] state = state
  each_param step (suc fuel) (c ∷ s) state =
      let (param, rest) = parse_param ctype (c ∷ s) in each_param step fuel rest (step state param)

  -- the body of the loop in `wget_http_parse_strict_transport_security`, on `maxage` and
  -- `include_subdomains`
  abbrev pub sts_value : (Bytes → ℤ) → ℤ × Bool → Option Bytes → Option Bytes → ℤ × Bool
  sts_value atoll (maxage, subdomains) name (some value) =
      (if names name (codes "max-age") then atoll value else maxage, subdomains)
  sts_value atoll (maxage, subdomains) name none =
      (maxage, if names name (codes "includeSubDomains") then true else subdomains)

  abbrev pub sts_step : (Bytes → ℤ) → ℤ × Bool → Param → ℤ × Bool
  sts_step atoll state param = sts_value atoll state param.name param.value

  -- `wget_http_parse_strict_transport_security`
  unfoldable pub parse_strict_transport_security : (Bytes → ℤ) → Bytes → ℤ × Bool
  parse_strict_transport_security atoll s = each_param (sts_step atoll) (length s) s (pos 0, false)

  -- the search for the parameter `charset`
  unfoldable pub find_charset : ℕ → Bytes → Option Bytes × Bytes
  unfolding parse_param
  find_charset zero s = (none, s)
  find_charset (suc fuel) [] = (none, [])
  find_charset (suc fuel) (c ∷ s) =
      let (param, rest) = parse_param ctype (c ∷ s) in
      let further = find_charset fuel rest in
      if names param.name (codes "charset") then (param.value, rest) else further

  -- `wget_http_parse_content_type` where both results are asked for
  unfoldable pub parse_content_type : Bytes → Bytes × Option Bytes × Bytes
  unfolding istoken find_charset
  parse_content_type s =
      let (content_type, rest) = span (λ c. istoken c || c == b'/') (skip ctype.isblank s) in
      let (charset, end) = find_charset (length rest) rest in (content_type, charset, end)
