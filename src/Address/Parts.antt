-- ===== src/Address/Parts.antt =====
-- The parts of an address as they are written, and what the expression of `Address::From` makes of them.
use capy_amqp_cpp.Prelude.{ℕ, ◌≡◌, refl, true, [], ◌∷◌, ◌++◌, ◌==◌, Text, all, update}
use capy_amqp_cpp.Address.Matcher.{Regex, seq, group, star, opt, lit, Captures}
use capy_amqp_cpp.Address.Matcher.Greedy.{
  Stops, Finds, Finds-lit, Finds-seq, Finds-group, Finds-opt, Finds-opt_lit, Finds-star,
  Finds-star_end, Finds-plus,
}
use capy_amqp_cpp.Address.{
  is_word, is_host, is_port, is_vhost, is_query, not_space, path_regex, host_regex, login_regex,
}

-- The virtual host of an address: empty, or a slash and characters of its class.
pub data VirtualHost : Type 0 where
  root : VirtualHost
  slash : Text → VirtualHost

abbrev pub print_vhost : VirtualHost → Text
print_vhost root = []
print_vhost (slash v) = b'/' ∷ v

abbrev pub IsVirtualHost : VirtualHost → Type 0
IsVirtualHost root = Unit {0}
IsVirtualHost (slash v) = all is_vhost v ≡ true

-- The groups, with those of the query and the fragment empty.
abbrev pub path_groups : VirtualHost → Captures → Captures
path_groups v caps = update (update (update caps 5 (print_vhost v)) 6 []) 7 []

-- The query and the fragment, of an address without them.
Finds-tail :
    {caps : Captures}
    → Finds
        (seq
          (opt (lit b'?'))
          (seq (group 6 (star is_query)) (seq (opt (lit b'#')) (group 7 (star not_space)))))
        []
        caps
        []
        []
        (update (update caps 6 []) 7 [])
Finds-tail = Finds-seq (Finds-opt_lit b'?' [] tt) (
    Finds-seq (Finds-group (Finds-star_end is_query [] refl))
      (Finds-seq (Finds-opt_lit b'#' [] tt) (Finds-group (Finds-star_end not_space [] refl))))

-- What the expression finds at the end of an address: all of it, and the groups.
abbrev pub FindsAll : Regex → Text → Captures → Captures → Type 0
FindsAll r s before after = (u : Text) × Finds r s before u [] after

Finds-path :
    (v : VirtualHost) (caps : Captures)
    → IsVirtualHost v
    → FindsAll path_regex (print_vhost v) caps (path_groups v caps)
Finds-path root caps h = (
  _,
  Finds-seq (Finds-group (Finds-seq (Finds-opt_lit b'/' [] tt) (Finds-star_end is_vhost [] refl)))
      Finds-tail,
)
Finds-path (slash v) caps h = (
  _,
  Finds-seq (Finds-group (Finds-seq (Finds-opt (Finds-lit b'/' v)) (Finds-star_end is_vhost v h)))
      Finds-tail,
)

-- The port of an address: none, or a colon and its text.
pub data PortPart : Type 0 where
  default_port : PortPart
  colon : Text → PortPart

abbrev pub port_text : PortPart → Text
port_text default_port = []
port_text (colon p) = p

abbrev pub print_port : PortPart → Text
print_port default_port = []
print_port (colon p) = b':' ∷ p

Stops-vhost : (v : VirtualHost) → Stops is_port (print_vhost v)
Stops-vhost root = tt
Stops-vhost (slash v) = refl

no_colon : (v : VirtualHost) → Stops (λ d. b':' == d) (print_vhost v)
no_colon root = tt
no_colon (slash v) = refl

Finds-port :
    (p : PortPart) (v : VirtualHost) (caps : Captures)
    → all is_port (port_text p) ≡ true
    → IsVirtualHost v
    → FindsAll
        (seq (opt (lit b':')) (seq (group 4 (star is_port)) path_regex))
        (print_port p ++ print_vhost v)
        caps
        (path_groups v (update caps 4 (port_text p)))
Finds-port default_port v caps hp hv = (
  _,
  Finds-seq (Finds-opt_lit b':' (print_vhost v) (no_colon v)) (
      Finds-seq (Finds-group (Finds-star is_port [] (print_vhost v) refl (Stops-vhost v)))
        (Finds-path v _ hv).1),
)
Finds-port (colon p) v caps hp hv = (
  _,
  Finds-seq (Finds-opt (Finds-lit b':' (p ++ print_vhost v))) (
      Finds-seq (Finds-group (Finds-star is_port p (print_vhost v) hp (Stops-vhost v)))
        (Finds-path v _ hv).1),
)

Stops-port : (p : PortPart) (v : VirtualHost) → Stops is_host (print_port p ++ print_vhost v)
Stops-port default_port root = tt
Stops-port default_port (slash v) = refl
Stops-port (colon p) v = refl

abbrev pub host_groups : Text → PortPart → VirtualHost → Captures → Captures
host_groups host p v caps = path_groups v (update (update caps 3 host) 4 (port_text p))

pub Finds-host :
    (c : ℕ) (h : Text) (p : PortPart) (v : VirtualHost) (caps : Captures)
    → all is_host (c ∷ h) ≡ true
    → all is_port (port_text p) ≡ true
    → IsVirtualHost v
    → FindsAll host_regex
        ((c ∷ h) ++ (print_port p ++ print_vhost v))
        caps
        (host_groups (c ∷ h) p v caps)
Finds-host c h p v caps hh hp hv = (
  _,
  Finds-seq
      (Finds-group (Finds-plus is_host c h (print_port p ++ print_vhost v) hh (Stops-port p v)))
      (Finds-port p v _ hp hv).1,
)

-- A user and a password, as they stand in an address.
abbrev pub print_login : Text → Text → Text
print_login user password = user ++ (b':' ∷ (password ++ b'@' ∷ []))

pub Finds-login :
    (c : ℕ) (user password rest : Text) (caps : Captures)
    → all is_word (c ∷ user) ≡ true
    → all is_word password ≡ true
    → Finds login_regex
        ((c ∷ user) ++ (b':' ∷ (password ++ b'@' ∷ rest)))
        caps
        (print_login (c ∷ user) password)
        rest
        (update caps 2 (print_login (c ∷ user) password))
Finds-login c user password rest caps hu hp = Finds-opt (
    Finds-group (
      Finds-seq (Finds-plus is_word c user (b':' ∷ (password ++ b'@' ∷ rest)) hu refl) (
        Finds-seq (Finds-opt (Finds-lit b':' (password ++ b'@' ∷ rest)))
          (Finds-seq (Finds-star is_word password (b'@' ∷ rest) hp refl) (Finds-lit b'@' rest)))))
