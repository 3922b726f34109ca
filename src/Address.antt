-- ===== src/Address.antt =====
-- include/capy/amqp_address.h and src/amqp_address.cc: the address of a broker and its parser.
pub mod Matcher
pub mod Split
pub mod Stoi
pub mod Laws
pub mod Parts
pub mod RoundTrip
mod Tests
use capy_amqp_cpp.Prelude.{
  ℕ, ◌-◌, Bool, true, false, not, ◌&&◌, ◌||◌, Option, none, some, List, [], ◌∷◌, map, ◌==◌, leb,
  if◌then◌else◌, Text, codes, text_eq, is_empty,
}
use capy_amqp_cpp.Error.{
  Result, value_of, unexpected, address_error, AddressError, parse, empty, ◌>>=◌,
}
use capy_amqp_cpp.Error.Format.{error_string}
use Matcher.{Regex, star, plus, opt, seq, alt, group, lit, lits, Captures, regex_match}
use Split.{split}
use Stoi.{ConversionError, Conversion, converted, threw, stoi}

-- Address::Protocol
pub data Protocol : Type 0 where
  amqp amqps unknown : Protocol

-- LoginImp, with its two getters
pub record Login : Type 0 where
  pub user : Text
  pub password : Text

unfoldable pub get_username : Login → Text
get_username l = l.user

unfoldable pub get_password : Login → Text
get_password l = l.password

-- AddressImpl. The copies of an `Address` share one, which nothing writes to once it is made: an
-- `Address` is the value.
pub record Address : Type 0 where
  pub protocol : Protocol
  pub login : Login
  pub hostname : Text
  pub vhost : Text
  pub port : ℕ

unfoldable pub get_hostname : Address → Text
get_hostname a = a.hostname

unfoldable pub get_port : Address → ℕ
get_port a = a.port

unfoldable pub get_vhost : Address → Text
get_vhost a = a.vhost

-- It does not read the field.
unfoldable pub get_protocol : Address → Protocol
get_protocol a = amqp

unfoldable pub get_login : Address → Login
get_login a = a.login

-- The classes of the expression: `\w`, `[^/ :]`, `[^/ ]`, `[^ #?]`, `[^ #]`, `[^ ]`.
abbrev pub is_word : ℕ → Bool
is_word c =
    (leb b'0' c && leb c b'9')
    || (leb b'A' c && leb c b'Z')
    || (leb b'a' c && leb c b'z')
    || c == b'_'

abbrev pub not_space : ℕ → Bool
not_space c = not (c == b' ')

abbrev pub is_port : ℕ → Bool
is_port c = not (c == b'/') && not_space c

abbrev pub is_host : ℕ → Bool
is_host c = not (c == b':') && is_port c

abbrev pub is_query : ℕ → Bool
is_query c = not (c == b'#') && not_space c

abbrev pub is_vhost : ℕ → Bool
is_vhost c = not (c == b'?') && is_query c

-- `(amqp?|amqps)`
abbrev pub protocol_regex : Regex
protocol_regex =
    group 1 (alt (seq (lits b'a' (codes "mq")) (opt (lit b'p'))) (lits b'a' (codes "mqps")))

-- `(\w+:{0,1}\w*@)?`
abbrev pub login_regex : Regex
login_regex =
    opt (group 2 (seq (plus is_word) (seq (opt (lit b':')) (seq (star is_word) (lit b'@')))))

-- `(/?[^ #?]*)`, and the query and fragment behind it, `\x3f?([^ #]*)#?([^ ]*)`
abbrev pub path_regex : Regex
path_regex = seq (group 5 (seq (opt (lit b'/')) (star is_vhost))) (
    seq (opt (lit b'?'))
      (seq (group 6 (star is_query)) (seq (opt (lit b'#')) (group 7 (star not_space)))))

-- `([^/ :]+):?([^/ ]*)`, and the path
abbrev pub host_regex : Regex
host_regex =
    seq (group 3 (plus is_host)) (seq (opt (lit b':')) (seq (group 4 (star is_port)) path_regex))

abbrev pub url_regex : Regex
url_regex = seq protocol_regex (seq (lits b':' (codes "//")) (seq login_regex host_regex))

-- ::toupper
unfoldable pub to_upper : ℕ → ℕ
to_upper c = if leb b'a' c && leb c b'z' then c - 32 else c

-- The text up to a zero byte, as `c_str()` is read.
unfoldable pub c_str : Text → Text
c_str [] = []
c_str (c ∷ s) = let rest = c_str s in if c == 0 then [] else c ∷ rest

abbrev fail {ℓ} : {A : Type ℓ} → Option Text → Result A
fail message = unexpected (address_error parse message)

unfoldable pub protocol_of : Text → Result Protocol
protocol_of proto =
    let upper = map to_upper proto in
    if text_eq upper (codes "AMQP")
    then value_of amqp
    else if text_eq upper (codes "AMQPS")
    then value_of amqps
    else fail (error_string (codes "Url Protocol %s is not supported yet") (upper ∷ []))

-- pop_back
unfoldable pub pop_back : Text → Text
pop_back [] = []
pop_back (c ∷ []) = []
pop_back (c ∷ d ∷ s) = c ∷ pop_back (d ∷ s)

-- The error prints the port, not the login.
abbrev pub login_of_tokens : Text → List Text → Result Login
login_of_tokens port (user ∷ password ∷ rest) =
    value_of (record { user = user; password = password })
login_of_tokens port _ = fail (error_string (codes "LoginImp %s is not correct") (port ∷ []))

unfoldable pub login_of : Text → Text → Result Login
login_of login port =
    if is_empty login
    then value_of (record { user = codes "guest"; password = codes "guest" })
    else login_of_tokens port (split (pop_back login) b':')

-- `what` gives the texts of the exceptions of `std::stoi`.
module _ (what : ConversionError → Text) where
  -- A negative number is below the range, except for -0.
  abbrev pub port_in_range : Text → Conversion → Result ℕ
  port_in_range port (threw e) = fail (some (what e))
  port_in_range port (converted negative n) =
      if (not negative || n == 0) && leb n 65535
      then value_of n
      else fail (error_string (codes "Address port number %s is out of range") (port ∷ []))

  unfoldable pub port_of : Text → Result ℕ
  port_of port = if is_empty port then value_of 5672 else port_in_range port (stoi port)

  abbrev pub from_match : Option Captures → Result Address
  from_match none = fail none
  from_match (some groups) = do
    protocol ← protocol_of (groups 1)
    port ← port_of (groups 4)
    login ← login_of (groups 2) (groups 4)
    value_of (record {
      protocol = protocol;
      login = login;
      hostname = groups 3;
      vhost = groups 5;
      port = port;
    })

  -- Address::From
  unfoldable pub from : Text → Result Address
  from address =
      if is_empty address
      then unexpected (address_error empty none)
      else from_match (regex_match url_regex (c_str address))
