-- ===== src/Cookie/Match/Domain.antt =====
-- Which hosts a cookie domain matches.
use wget.Cookie.Match.{domain_match}
use wget.Prelude.{
  ℕ, zero, suc, ◌-◌, ◌<◌, ◌≡◌, ◌↔◌, ◌⊎◌, inl, inr, refl, sym, ◌∙◌, ap, true, false, Bool-cases, [],
  ◌∷◌, ◌++◌, length, length-append, take, drop, take-append-drop, leb, Bytes, at, streq, streq_iff,
  arith,
}

-- `host` is `domain`, or it ends in a dot and `domain`.
abbrev pub Covers : Bytes → Bytes → Type 0
Covers domain host = (domain ≡ host) ⊎ ((label : Bytes) × (host ≡ label ++ (b'.' ∷ domain)))

drop-at : (s : Bytes) (n : ℕ) → n < length s → drop n s ≡ at s n ∷ drop (suc n) s
drop-at [] n h = absurd (omega arith)
drop-at (c ∷ s) zero h = refl
drop-at (c ∷ s) (suc n) h = drop-at s n (omega arith)

match_Covers : (domain host : Bytes) → domain_match domain host ≡ true → Covers domain host
unfolding domain_match
match_Covers domain host h = elim (Bool-cases (streq domain host)) [
  | inl same ↦ inl ((streq_iff domain host).0 same)
  | inr other ↦
      let before = length host - length domain in
      let shorter : length domain < length host = ground arith in
      let tail : drop before host ≡ domain = (streq_iff _ _).0 (ground arith) in
      let dot : at host (before - 1) ≡ b'.' = ground arith in
      let split : drop (before - 1) host ≡ at host (before - 1) ∷ drop (suc (before - 1)) host =
        drop-at host (before - 1) (omega arith) in
      let next : suc (before - 1) ≡ before = omega arith in
      let rest : drop (before - 1) host ≡ b'.' ∷ domain = rw (next, dot, tail) at split in
      inr (
        take (before - 1) host,
        sym (take-append-drop (before - 1) host) ∙ ap (λ r. take (before - 1) host ++ r) rest,
      )
]

drop_behind :
    (label domain : Bytes) (d : ℕ) → drop (suc (length label)) (label ++ (d ∷ domain)) ≡ domain
drop_behind [] domain d = refl
drop_behind (c ∷ label) domain d = drop_behind label domain d

at_behind : (label domain : Bytes) (d : ℕ) → at (label ++ (d ∷ domain)) (length label) ≡ d
at_behind [] domain d = refl
at_behind (c ∷ label) domain d = at_behind label domain d

suffix_match : (domain label : Bytes) → domain_match domain (label ++ (b'.' ∷ domain)) ≡ true
unfolding domain_match
suffix_match domain label =
    let host = label ++ (b'.' ∷ domain) in
    let size = length-append label (b'.' ∷ domain) in
    let before : length host - length domain ≡ suc (length label) = omega (arith, size) in
    let dot : length host - length domain - 1 ≡ length label = omega (arith, size) in
    let longer : leb (length host) (length domain) ≡ false = ground (arith, size) in
    let tail : streq (drop (length host - length domain) host) domain ≡ true =
      rw (before, drop_behind label domain b'.') ((streq_iff domain domain).1 refl) in
    let found : at host (length host - length domain - 1) ≡ b'.' =
      rw dot (at_behind label domain b'.') in
    elim (Bool-cases (streq domain host)) [ inl same ↦ rw same | inr other ↦ ground arith ]

-- A cookie's domain matches exactly the host that it names and the hosts that end in a dot and the
-- domain.
pub domain_match_iff :
    (domain host : Bytes) → (domain_match domain host ≡ true) ↔ Covers domain host
domain_match_iff domain host = (match_Covers domain host, covered)
  where
    covered : Covers domain host → domain_match domain host ≡ true
    covered (inl same) = unfold domain_match in rw ((streq_iff domain host).1 same)
    covered (inr (label, e)) = rw e (suffix_match domain label)
