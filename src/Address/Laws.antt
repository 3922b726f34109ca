-- ===== src/Address/Laws.antt =====
-- The addresses that `Address::From` of src/amqp_address.cc returns.
use capy_amqp_cpp.Prelude.{
  ℕ, ◌≤◌, ◌≡◌, Option, none, some, arith, Text, is_empty, inl, inr, Bool-cases, ◌⊎◌, map, codes,
  text_eq,
}
use capy_amqp_cpp.Error.{Error, Result, value_of, unexpected, ◌>>=◌}
use capy_amqp_cpp.Address.Stoi.{ConversionError, Conversion, converted, threw, stoi}
use capy_amqp_cpp.Address.Matcher.{Captures, regex_match}
use capy_amqp_cpp.Address.{
  Address, Protocol, Login, amqp, amqps, to_upper, protocol_of, port_in_range, port_of, login_of,
  from_match, from, c_str, url_regex,
}

-- The address that `From` builds from the results of its three steps.
abbrev assemble : Result Protocol → Result ℕ → Result Login → Text → Text → Result Address
assemble rp rn rl host path = do
  protocol ← rp
  port ← rn
  login ← rl
  value_of
      (record { protocol = protocol; login = login; hostname = host; vhost = path; port = port })

assemble-eq-value_of :
    (rp : Result Protocol) (rn : Result ℕ) (rl : Result Login) (host path : Text) (a : Address)
    → assemble rp rn rl host path ≡ value_of a
    → (rp ≡ value_of a.protocol) × (rn ≡ value_of a.port)
assemble-eq-value_of (value_of p) (value_of n) (value_of l) host path a h = (cc, cc)
assemble-eq-value_of (value_of p) (value_of n) (unexpected e) host path a h = absurd (cc)
assemble-eq-value_of (value_of p) (unexpected e) rl host path a h = absurd (cc)
assemble-eq-value_of (unexpected e) rn rl host path a h = absurd (cc)

fail_ne {ℓ} : {A : Type ℓ} (e : Error) (a : A) → unexpected e ≡ value_of a → ⊥
fail_ne e a h = cc

protocol_of-eq-value_of :
    (t : Text) (p : Protocol) → protocol_of t ≡ value_of p → (p ≡ amqp) ⊎ (p ≡ amqps)
unfolding protocol_of
protocol_of-eq-value_of t p h = elim (Bool-cases (text_eq (map to_upper t) (codes "AMQP"))) [
  | inl e ↦ let q : value_of amqp ≡ value_of p = rw e at h in inl cc
  | inr e ↦ elim (Bool-cases (text_eq (map to_upper t) (codes "AMQPS"))) [
    | inl e' ↦ let q : value_of amqps ≡ value_of p = rw (e, e') at h in inr cc
    | inr e' ↦ absurd (fail_ne _ p (rw (e, e') at h))
  ]
]

value_of-injective {ℓ} : {A : Type ℓ} (a b : A) → value_of a ≡ value_of b → a ≡ b
value_of-injective a b h = cc

module _ (what : ConversionError → Text) where
  port_in_range-le :
      (t : Text) (c : Conversion) (n : ℕ) → port_in_range what t c ≡ value_of n → n ≤ 65535
  port_in_range-le t (threw e) n h = absurd (cc)
  port_in_range-le t (converted s m) n h = ground arith

  port_of-le : (t : Text) (n : ℕ) → port_of what t ≡ value_of n → n ≤ 65535
  unfolding port_of
  port_of-le t n h = elim (Bool-cases (is_empty t)) [
    | inl e ↦
        let q : value_of 5672 ≡ value_of n = rw e at h in omega (arith, value_of-injective 5672 n q)
    | inr e ↦ port_in_range-le t (stoi t) n (rw e at h)
  ]

  from_match-valid :
      (o : Option Captures) (a : Address)
      → from_match what o ≡ value_of a
      → ((a.protocol ≡ amqp) ⊎ (a.protocol ≡ amqps)) × (a.port ≤ 65535)
  from_match-valid none a h = absurd (cc)
  from_match-valid (some g) a h =
      let (hp, hn) =
        assemble-eq-value_of (protocol_of (g 1)) (port_of what (g 4)) (login_of (g 2) (g 4)) (g 3)
          (g 5) a h in
      (protocol_of-eq-value_of (g 1) a.protocol hp, port_of-le (g 4) a.port hn)

  -- Every address that `From` returns has the protocol amqp or amqps, never `unknown`, and a port
  -- of 16 bits.
  pub from-valid :
      (s : Text) (a : Address)
      → from what s ≡ value_of a
      → ((a.protocol ≡ amqp) ⊎ (a.protocol ≡ amqps)) × (a.port ≤ 65535)
  unfolding from
  from-valid s a h = elim (Bool-cases (is_empty s)) [
    | inl e ↦ absurd (fail_ne _ a (rw e at h))
    | inr e ↦ from_match-valid (regex_match url_regex (c_str s)) a (rw e at h)
  ]
