-- ===== src/Address/RoundTrip.antt =====
-- `Address::From` of src/amqp_address.cc on an address that is put together from its parts.
use capy_amqp_cpp.Prelude.{
  ℕ, ◌≤◌, ◌≡◌, refl, ap, sym, ◌∙◌, Bool, true, false, not, none, some, [], ◌∷◌, ◌++◌, arith, ◌==◌,
  Text, codes, all, update, append_assoc, le→leb, is_empty,
}
use capy_amqp_cpp.Error.{value_of}
use capy_amqp_cpp.Address.Matcher.{Regex, seq, Captures, run, regex_match, at_end, lits}
use capy_amqp_cpp.Address.Matcher.Greedy.{first_of_two-some, Finds-seq, and_left, and_right}
use capy_amqp_cpp.Address.Parts.{
  VirtualHost, print_vhost, IsVirtualHost, PortPart, default_port, colon, port_text, print_port,
  host_groups, Finds-host, print_login, Finds-login,
}
use capy_amqp_cpp.Address.Split.{split, free_of, split_pair}
use capy_amqp_cpp.Address.Stoi.{ConversionError, converted, stoi}
use capy_amqp_cpp.Address.{
  Address, Protocol, amqp, amqps, Login, is_word, is_host, is_port, login_regex, host_regex,
  protocol_regex, url_regex, to_upper, c_str, protocol_of, port_of, pop_back, login_of,
  login_of_tokens, from_match, from,
}

pub data Scheme : Type 0 where
  plain secure : Scheme

abbrev pub scheme_text : Scheme → Text
scheme_text plain = codes "amqp"
scheme_text secure = codes "amqps"

abbrev pub scheme_protocol : Scheme → Protocol
scheme_protocol plain = amqp
scheme_protocol secure = amqps

run-scheme :
    (sch : Scheme) (r : Regex) (rest : Text) (caps x : Captures)
    → ((u : Text) → run r (λ v. at_end (u ++ v)) rest (update caps 1 (scheme_text sch)) ≡ some x)
    → run
        (seq protocol_regex (seq (lits b':' (codes "//")) r))
        at_end
        (scheme_text sch ++ (codes "://" ++ rest))
        caps
      ≡ some x
unfolding run
run-scheme plain r rest caps x ok =
    first_of_two-some _ none x (first_of_two-some _ none x (ok (codes "amqp://")))
run-scheme secure r rest caps x ok = ok (codes "amqps://")

regex_match_lem : (r : Regex) (s : Text) → regex_match r s ≡ run r at_end s (λ n. [])
unfolding regex_match
regex_match_lem r s = refl

-- The groups of a whole address.
abbrev all_groups : Scheme → Text → Text → PortPart → VirtualHost → Captures
all_groups sch login host p v =
    host_groups host p v (update (update (λ n. []) 1 (scheme_text sch)) 2 login)

-- An address with a user, a password, a host, and perhaps a port and a virtual host.
pub record Parts : Type 0 where
  pub scheme : Scheme
  pub user_head : ℕ
  pub user_tail : Text
  pub password_head : ℕ
  pub password_tail : Text
  pub host_head : ℕ
  pub host_tail : Text
  pub port_part : PortPart
  pub virtual_host : VirtualHost

module _ (q : Parts) where
  abbrev pub user : Text
  user = q.user_head ∷ q.user_tail

  abbrev pub password : Text
  password = q.password_head ∷ q.password_tail

  abbrev pub host : Text
  host = q.host_head ∷ q.host_tail

  abbrev pub print_url : Text
  print_url =
      scheme_text q.scheme
      ++ (codes "://"
          ++ (user
              ++ (b':'
                  ∷ (password
                      ++ b'@' ∷ (host ++ (print_port q.port_part ++ print_vhost q.virtual_host))))))

  -- Each part is made of the characters of its class, and no byte is zero.
  pub record IsWellFormed : Type 0 where
    pub user_chars : all is_word user ≡ true
    pub password_chars : all is_word password ≡ true
    pub host_chars : all is_host host ≡ true
    pub port_chars : all is_port (port_text q.port_part) ≡ true
    pub path_chars : IsVirtualHost q.virtual_host
    pub nonzero : all (λ c. not (c == 0)) print_url ≡ true

  regex_match-print_url :
      IsWellFormed
      → regex_match url_regex print_url
        ≡ some (all_groups q.scheme (print_login user password) host q.port_part q.virtual_host)
  regex_match-print_url w =
      regex_match_lem url_regex print_url
      ∙ run-scheme q.scheme (seq login_regex host_regex) _ _ _ (λ u.
        (Finds-seq
            (Finds-login q.user_head q.user_tail password
              (host ++ (print_port q.port_part ++ print_vhost q.virtual_host)) _ w.user_chars
              w.password_chars)
            (Finds-host q.host_head q.host_tail q.port_part q.virtual_host _ w.host_chars
              w.port_chars w.path_chars).1).at
          (λ v. at_end (u ++ v)) _ refl)

scheme_text_nonempty : (sch : Scheme) (s : Text) → is_empty (scheme_text sch ++ s) ≡ false
scheme_text_nonempty plain s = refl
scheme_text_nonempty secure s = refl

print_url_nonempty : (q : Parts) → is_empty (print_url q) ≡ false
print_url_nonempty q = scheme_text_nonempty q.scheme _

not-eq-true : (b : Bool) → not b ≡ true → b ≡ false
not-eq-true true h = cc
not-eq-true false h = refl

c_str_id : (s : Text) → all (λ c. not (c == 0)) s ≡ true → c_str s ≡ s
unfolding c_str
c_str_id [] h = refl
c_str_id (c ∷ s) h =
    let e : (c == 0) ≡ false = not-eq-true (c == 0) (and_left (not (c == 0)) (all _ s) h) in
    rw e (ap (◌∷◌ c) (c_str_id s (and_right (not (c == 0)) (all _ s) h)))

pop_back-append : (s : Text) (c : ℕ) → pop_back (s ++ c ∷ []) ≡ s
unfolding pop_back
pop_back-append [] c = refl
pop_back-append (d ∷ []) c = refl
pop_back-append (d ∷ e ∷ s) c = ap (◌∷◌ d) (pop_back-append (e ∷ s) c)

is_word-ne_colon : (c : ℕ) → is_word c ≡ true → (c == b':') ≡ false
is_word-ne_colon c h = ground arith

is_word-free : (s : Text) → all is_word s ≡ true → free_of b':' s ≡ true
is_word-free [] h = refl
is_word-free (c ∷ s) h =
    rw (is_word-ne_colon c (and_left (is_word c) (all is_word s) h))
      (is_word-free s (and_right (is_word c) (all is_word s) h))

login_of-print :
    (b : ℕ) (u : Text) (c : ℕ) (t port : Text)
    → all is_word (b ∷ u) ≡ true
    → all is_word (c ∷ t) ≡ true
    → login_of (print_login (b ∷ u) (c ∷ t)) port
      ≡ value_of (record { user = b ∷ u; password = c ∷ t })
unfolding login_of
login_of-print b u c t port hu hp =
    ap (λ s. login_of_tokens port (split s b':'))
      (ap pop_back (sym (append_assoc (b ∷ u) (b':' ∷ c ∷ t) (b'@' ∷ [])))
        ∙ pop_back-append ((b ∷ u) ++ b':' ∷ c ∷ t) b'@')
    ∙ ap (login_of_tokens port)
        (split_pair b':' c (b ∷ u) t (is_word-free (b ∷ u) hu) (is_word-free (c ∷ t) hp))

protocol_of-scheme : (sch : Scheme) → protocol_of (scheme_text sch) ≡ value_of (scheme_protocol sch)
unfolding protocol_of to_upper
protocol_of-scheme plain = refl
protocol_of-scheme secure = refl

-- The number that the port part stands for: 5672 if there is none.
abbrev pub PortIs : PortPart → ℕ → Type 0
PortIs default_port n = n ≡ 5672
PortIs (colon []) n = ⊥
PortIs (colon (c ∷ t)) n = (stoi (c ∷ t) ≡ converted false n) × (n ≤ 65535)

module _ (what : ConversionError → Text) where
  port_of-part : (p : PortPart) (n : ℕ) → PortIs p n → port_of what (port_text p) ≡ value_of n
  unfolding port_of
  port_of-part default_port n h = ap value_of (sym h)
  port_of-part (colon []) n h = absurd h
  port_of-part (colon (c ∷ t)) n h = rw (h.0, le→leb n 65535 h.1)

  from_match_lem :
      (g : Captures) (p : Protocol) (n : ℕ) (l : Login)
      → protocol_of (g 1) ≡ value_of p
      → port_of what (g 4) ≡ value_of n
      → login_of (g 2) (g 4) ≡ value_of l
      → from_match what (some g)
        ≡ value_of (record { protocol = p; login = l; hostname = g 3; vhost = g 5; port = n })
  from_match_lem g p n l hp hn hl = rw (hp, hn, hl)

  from_nonempty :
      (s : Text)
      → is_empty s ≡ false
      → from what s ≡ from_match what (regex_match url_regex (c_str s))
  unfolding from
  from_nonempty s h = rw h

  -- The address that the parts stand for.
  abbrev pub address_of : Parts → ℕ → Address
  address_of q n = record {
    protocol = scheme_protocol q.scheme;
    login = record { user = user q; password = password q };
    hostname = host q;
    vhost = print_vhost q.virtual_host;
    port = n;
  }

  -- An address that is put together from well-formed parts (a scheme amqp or amqps, a user, a
  -- password and a host of characters of their classes, and perhaps a port and a virtual host,
  -- none with a zero byte), whose port text stands for a number up to 65535 or is absent (then
  -- 5672), is read back by `From` as exactly these parts.
  pub from-print_url :
      (q : Parts) (n : ℕ)
      → IsWellFormed q
      → PortIs q.port_part n
      → from what (print_url q) ≡ value_of (address_of q n)
  from-print_url q n w h =
      from_nonempty (print_url q) (print_url_nonempty q)
      ∙ ap (λ s. from_match what (regex_match url_regex s)) (c_str_id (print_url q) w.nonzero)
      ∙ ap (from_match what) (regex_match-print_url q w)
      ∙ from_match_lem
          (all_groups q.scheme (print_login (user q) (password q)) (host q) q.port_part
            q.virtual_host)
          (scheme_protocol q.scheme) n _ (protocol_of-scheme q.scheme)
          (port_of-part q.port_part n h)
          (login_of-print q.user_head q.user_tail q.password_head q.password_tail
            (port_text q.port_part) w.user_chars w.password_chars)
