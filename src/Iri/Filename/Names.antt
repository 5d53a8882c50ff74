-- ===== src/Iri/Filename/Names.antt =====
-- What the names of files and the resource of a request may hold.
use wget.Prelude.{
  last_index, suc, ℕ, ◌≡◌, refl, ap, ◌∙◌, sym, [], ◌∷◌, ◌++◌, append_assoc, append-nil, Option,
  none, some, Bytes, Ctype, All, All-append, IsByte,
}
use wget.Iri.Percent.{escape_path, escape_query}
use wget.Iri.Percent.Visible.{Visible, escape_path-Visible, escape_query-Visible}
use wget.Iri.Parse.{Iri}
use wget.Iri.Filename.{suc, true, Locale, not_slash, last_index, or_nothing, get_escaped_resource}

abbrev pub EachByte : Option Bytes → Type 0
EachByte none = Unit {0}
EachByte (some s) = All IsByte s

-- `buf` and more, all of it visible
abbrev pub Extends : (Bytes → Type 0) → Bytes → Bytes → Type 0
Extends P buf s = (out : Bytes) × (s ≡ buf ++ out) × P out

module _ (P : ℕ → Type 0) where
  Extends-more :
      (buf s t : Bytes) → Extends (All P) buf s → Extends (All P) s t → Extends (All P) buf t
  Extends-more buf s t h k = (
    h.0 ++ k.0,
    k.1 ∙ ap (λ r. r ++ k.0) h.1 ∙ append_assoc buf h.0 k.0,
    All-append P h.0 k.0 h.2 k.2,
  )

  Extends-none : (buf : Bytes) → Extends (All P) buf buf
  Extends-none buf = ([], sym (append-nil buf), tt)

abbrev pub NoSlash : Bytes → Type 0
NoSlash s = All (λ c. not_slash c ≡ true) s

-- the conversion and the default page bring no slash
pub record IsPlain (locale : Locale) : Type 0 where
  pub converts : (s t : Bytes) → locale.utf8_to_str s ≡ some t → NoSlash s → NoSlash t
  pub page : (t : Bytes) → locale.default_page ≡ some t → NoSlash t

module _ (ctype : Ctype) where
  path-Visible :
      (path : Option Bytes) (buf : Bytes)
      → EachByte path
      → Extends Visible buf (or_nothing (escape_path ctype) path buf)
  path-Visible none buf h = Extends-none _ buf
  path-Visible (some path) buf h = escape_path-Visible ctype path buf h

  query-Visible :
      (query : Option Bytes) (buf : Bytes)
      → EachByte query
      → Extends Visible buf (or_nothing (λ q b. escape_query ctype q (b ++ (b'?' ∷ []))) query buf)
  query-Visible none buf h = Extends-none _ buf
  query-Visible (some query) buf h =
      Extends-more _ buf (buf ++ (b'?' ∷ [])) _ ((b'?' ∷ []), refl, (refl, tt))
        (escape_query-Visible ctype query (buf ++ (b'?' ∷ [])) h)

  -- The resource that a request line is made of is, behind what the buffer held, printable ASCII without blanks: no path or
  -- query, whatever bytes it was unescaped to, adds a line or a word to a request.
  pub get_escaped_resource-Visible :
      (iri : Iri) (buf : Bytes)
      → EachByte iri.path
      → EachByte iri.query
      → (out : Bytes) × (get_escaped_resource ctype iri buf ≡ buf ++ out) × Visible out
  unfolding get_escaped_resource
  get_escaped_resource-Visible iri buf h k =
      Extends-more _ buf (or_nothing (escape_path ctype) iri.path buf) _
        (path-Visible iri.path buf h)
        (query-Visible iri.query (or_nothing (escape_path ctype) iri.path buf) k)
