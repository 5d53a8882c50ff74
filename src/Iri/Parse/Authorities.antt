-- ===== src/Iri/Parse/Authorities.antt =====
-- User, password, host and port.
use wget.Prelude.{
  ℕ, ◌<◌, ◌≡◌, refl, Bool, true, not, ◌&&◌, [], ◌∷◌, ◌++◌, Option, none, some, length, ◌==◌, Bytes,
  pos, arith, between, Stops, All-append,
}
use wget.Iri.Parse.{Conversions, ends_authority}
use wget.Iri.Parse.Pieces.{Each, Each-weaken, is_plain}

-- the user and the password of an authority
pub data Login : Type 0 where
  no_login : Login
  user_only : Bytes → Login
  user_password : Bytes → Bytes → Login

-- the characters of the components
abbrev pub authority_char : ℕ → Bool
authority_char c = is_plain c && not (ends_authority c)

abbrev pub password_char : ℕ → Bool
password_char c = authority_char c && not (c == b'@')

abbrev pub user_char : ℕ → Bool
user_char c = password_char c && not (c == b':')

abbrev pub host_char : ℕ → Bool
host_char c = user_char c && (not (c == b'[') && not (between b'A' b'Z' c))

abbrev pub is_digit : ℕ → Bool
is_digit c = between b'0' b'9' c

abbrev pub IsLogin : Login → Type 0
IsLogin no_login = Unit {0}
IsLogin (user_only user) = Each user_char user
IsLogin (user_password user password) = Each user_char user × Each password_char password

abbrev pub IsHost : Bytes → Type 0
IsHost host = (0 < length host) × Each host_char host

abbrev pub user_of : Login → Option Bytes
user_of no_login = none
user_of (user_only user) = some user
user_of (user_password user password) = some user

abbrev pub password_of : Login → Option Bytes
password_of no_login = none
password_of (user_only user) = none
password_of (user_password user password) = some password

abbrev pub print_login : Login → Bytes → Bytes
print_login no_login s = s
print_login (user_only user) s = user ++ (b'@' ∷ s)
print_login (user_password user password) s = (user ++ (b':' ∷ password)) ++ (b'@' ∷ s)

-- a port as it is written, and its number
abbrev pub print_port : Option (Bytes × ℕ) → Bytes
print_port none = []
print_port (some (text, port)) = b':' ∷ text

abbrev pub port_of : Option (Bytes × ℕ) → Option ℕ
port_of none = none
port_of (some (text, port)) = some port

-- `atoi` reads the digits of a port as its number
abbrev pub IsPort : Conversions → Option (Bytes × ℕ) → Type 0
IsPort conv none = Unit {0}
IsPort conv (some (text, port)) =
    (0 < length text)
    × Each is_digit text
    × (conv.atoi text ≡ pos port)
    × (0 < port)
    × (port < 65536)

abbrev pub print_authority : Login → Bytes → Option (Bytes × ℕ) → Bytes
print_authority login host port = print_login login (host ++ print_port port)

pub print_port-Stops : (port : Option (Bytes × ℕ)) → Stops (λ c. not (c == b':')) (print_port port)
print_port-Stops none = tt
print_port-Stops (some (text, port)) = refl

abbrev pub user_password_text : Bytes → Bytes → Bytes
user_password_text user password = user ++ (b':' ∷ password)

pub user_password-Each :
    (user password : Bytes)
    → Each user_char user
    → Each password_char password
    → Each password_char (user_password_text user password)
user_password-Each user password h k =
    All-append (λ c. password_char c ≡ true) user (b':' ∷ password)
      (Each-weaken user_char password_char user (λ c g. ground (arith, g)) h) (refl, k)

print_port-Each :
    (conv : Conversions) (port : Option (Bytes × ℕ))
    → IsPort conv port
    → Each password_char (print_port port)
print_port-Each conv none k = tt
print_port-Each conv (some (text, port)) (filled, digits, value, low, high) =
    (refl, Each-weaken is_digit password_char text (λ c g. ground (arith, g)) digits)

-- the password may hold a colon
pub host_port-Each :
    (conv : Conversions) (host : Bytes) (port : Option (Bytes × ℕ))
    → IsHost host
    → IsPort conv port
    → Each password_char (host ++ print_port port)
host_port-Each conv host port h k =
    All-append (λ c. password_char c ≡ true) host (print_port port)
      (Each-weaken host_char password_char host (λ c g. ground (arith, g)) h.1)
      (print_port-Each conv port k)

in_front-Each :
    (front back : Bytes)
    → Each password_char front
    → Each authority_char back
    → Each authority_char (front ++ (b'@' ∷ back))
in_front-Each front back h k =
    All-append (λ c. authority_char c ≡ true) front (b'@' ∷ back)
      (Each-weaken password_char authority_char front (λ c g. ground (arith, g)) h) (refl, k)

login-Each :
    (login : Login) (s : Bytes)
    → IsLogin login
    → Each authority_char s
    → Each authority_char (print_login login s)
login-Each no_login s l h = h
login-Each (user_only user) s l h =
    in_front-Each user s (Each-weaken user_char password_char user (λ c g. ground (arith, g)) l) h
login-Each (user_password user password) s l h =
    in_front-Each (user_password_text user password) s (user_password-Each user password l.0 l.1) h

-- no character of an authority ends it
pub authority-Each :
    (conv : Conversions) (login : Login) (host : Bytes) (port : Option (Bytes × ℕ))
    → IsLogin login
    → IsHost host
    → IsPort conv port
    → Each authority_char (print_authority login host port)
authority-Each conv login host port l h k = login-Each login (host ++ print_port port) l (
    Each-weaken password_char authority_char (host ++ print_port port) (λ c g. ground (arith, g))
      (host_port-Each conv host port h k))
