-- ===== src/Iri/Parse/Logins.antt =====
-- User, password, host and port as they are read.
use wget.Prelude.{
  ℕ, ◌<◌, ◌≡◌, refl, ap, ◌∙◌, Bool, true, false, not, [], ◌∷◌, ◌++◌, Option, none, some, length,
  length-append, ltb, ◌==◌, if◌then◌else◌, Bytes, Ctype, arith, span, Stops, span-append,
}
use wget.Iri.Parse.{
  Conversions, parse_authority, with_userinfo, with_host, host_part, behind_colon, parse_port,
  host_name,
}
use wget.Iri.Parse.Pieces.{
  Each, Each-weaken, span-all, strtolower-Each, str_needs_encoding-Each, in_utf8-Each,
}
use wget.Iri.Parse.Authorities.{
  Login, no_login, user_only, user_password, password_char, user_char, host_char, IsLogin, IsHost,
  user_of, password_of, print_port, port_of, IsPort, print_authority, print_port-Stops,
  user_password-Each, host_port-Each,
}

if_false {ℓ} : {A : Type ℓ} (b : Bool) (x y : A) → b ≡ false → (if b then x else y) ≡ y
if_false false x y h = refl
if_false true x y h = absurd (ground (arith, h))

host_char-bare : (c : ℕ) → host_char c ≡ true → (c == b'[') ≡ false
host_char-bare c h = ground (arith, h)

host-Each : (host : Bytes) → Each host_char host → Each (λ c. not (c == b':')) host
host-Each host h = Each-weaken host_char (λ d. not (d == b':')) host (λ d g. ground (arith, g)) h

host_part-bare :
    (c : ℕ) (s : Bytes)
    → (c == b'[') ≡ false
    → host_part (c ∷ s) ≡ span (λ d. not (d == b':')) (c ∷ s)
host_part-bare c s h = if_false (c == b'[') _ _ h

pub host_part-append :
    (host more : Bytes)
    → IsHost host
    → Stops (λ c. not (c == b':')) more
    → host_part (host ++ more) ≡ (host, more)
host_part-append [] more h k = absurd (omega (arith, h.0))
host_part-append (c ∷ host) more h k =
    host_part-bare c (host ++ more) (host_char-bare c h.1.0)
    ∙ span-append (λ d. not (d == b':')) (c ∷ host) more (host-Each (c ∷ host) h.1) k

module _ (ctype : Ctype) (conv : Conversions) where
  parse_port-print :
      (port : Option (Bytes × ℕ))
      → IsPort conv port
      → parse_port ctype conv (print_port port) ≡ port_of port
  parse_port-print none h = refl
  parse_port-print (some ([], port)) h = absurd (omega arith)
  parse_port-print (some (d ∷ text, port)) (filled, digits, value, low, high) =
      rw (ctype.isdigit_ascii d) (rw (digits.0) (rw value (ground arith)))

  with_host-print :
      (user password : Option Bytes) (host : Bytes) (port : Option (Bytes × ℕ))
      → IsHost host
      → IsPort conv port
      → with_host ctype conv user password (host ++ print_port port)
        ≡ record { userinfo = user; password = password; host = some host; port = port_of port }
  with_host-print user password host port h k =
      ap
        (λ r. record {
          userinfo = user;
          password = password;
          host = some r.0;
          port = parse_port ctype conv r.1;
        })
        (host_part-append host (print_port port) h (print_port-Stops port))
      ∙ ap (λ q. record { userinfo = user; password = password; host = some host; port = q })
          (parse_port-print port k)

  pub parse_authority-filled :
      (s : Bytes)
      → 0 < length s
      → parse_authority ctype conv s ≡ with_userinfo ctype conv s (span (λ d. not (d == b'@')) s)
  unfolding parse_authority
  parse_authority-filled [] h = absurd (omega (arith, h))
  parse_authority-filled (c ∷ s) h = refl

  parse_authority-cut :
      (front back : Bytes)
      → Each password_char front
      → parse_authority ctype conv (front ++ (b'@' ∷ back))
        ≡ with_userinfo ctype conv (front ++ (b'@' ∷ back)) (front, b'@' ∷ back)
  parse_authority-cut front back h =
      let s = front ++ (b'@' ∷ back) in
      let filled : 0 < length s = rw (length-append front (b'@' ∷ back)) (omega arith) in
      let fine =
        Each-weaken password_char (λ d. not (d == b'@')) front (λ d g. ground (arith, g)) h in
      parse_authority-filled s filled
      ∙ ap (with_userinfo ctype conv s)
          (span-append (λ d. not (d == b'@')) front (b'@' ∷ back) fine refl)

  -- User, password, host and port are read back.
  pub parse_authority-print :
      (login : Login) (host : Bytes) (port : Option (Bytes × ℕ))
      → IsLogin login
      → IsHost host
      → IsPort conv port
      → parse_authority ctype conv (print_authority login host port) ≡ record {
        userinfo = user_of login;
        password = password_of login;
        host = some host;
        port = port_of port;
      }
  parse_authority-print no_login host port l h k =
      let s = host ++ print_port port in
      let fine = host_port-Each conv host port h k in
      let filled : 0 < length s = rw (length-append host (print_port port)) (omega (arith, h.0)) in
      parse_authority-filled s filled
      ∙ ap (with_userinfo ctype conv s) (
          span-all (λ d. not (d == b'@')) s
            (Each-weaken password_char (λ d. not (d == b'@')) s (λ d g. ground (arith, g)) fine))
      ∙ with_host-print none none host port h k
  parse_authority-print (user_only user) host port l h k =
      let s = host ++ print_port port in
      let no_colon =
        Each-weaken user_char (λ d. not (d == b':')) user (λ d g. ground (arith, g)) l in
      parse_authority-cut user s
        (Each-weaken user_char password_char user (λ d g. ground (arith, g)) l)
      ∙ ap (λ r. with_host ctype conv (some r.0) (behind_colon r.1) s)
          (span-all (λ d. not (d == b':')) user no_colon)
      ∙ with_host-print (some user) none host port h k
  parse_authority-print (user_password user password) host port l h k =
      let s = host ++ print_port port in
      let no_colon =
        Each-weaken user_char (λ d. not (d == b':')) user (λ d g. ground (arith, g)) l.0 in
      parse_authority-cut (user ++ (b':' ∷ password)) s (user_password-Each user password l.0 l.1)
      ∙ ap (λ r. with_host ctype conv (some r.0) (behind_colon r.1) s)
          (span-append (λ d. not (d == b':')) user (b':' ∷ password) no_colon refl)
      ∙ with_host-print (some user) (some password) host port h k

  pub host_name-Each : (host : Bytes) → Each host_char host → host_name ctype conv host ≡ host
  unfolding host_name
  host_name-Each host h =
      let ascii = Each-weaken host_char (λ c. ltb c 128) host (λ c g. ground (arith, g)) h in
      let small : Each (λ c. not (ctype.isupper c)) host =
        Each-weaken host_char (λ c. not (ctype.isupper c)) host
          (λ c g. rw (ctype.isupper_ascii c) (ground (arith, g))) h in
      rw (strtolower-Each ctype host small)
        (rw (in_utf8-Each conv host ascii) (rw (str_needs_encoding-Each host ascii) refl))
