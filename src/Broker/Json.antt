-- ===== src/Broker/Json.antt =====
-- What src/broker_impl/broker.cc uses of the json library: an interface, with what its documentation
-- says of it.
use capy_amqp_cpp.Prelude.{ℕ, ◌≡◌, Bool, true, false, List, ◌∷◌, Text}

-- What `from_msgpack` gives or throws: a `json::exception` with its text, another
-- `std::exception` with its text, or anything else.
pub data Decoded {ℓ} (J : Type ℓ) : Type ℓ where
  decoded : J → Decoded J
  json_exception std_exception : Text → Decoded J
  other_exception : Decoded J

pub record Json {ℓ} (J : Type ℓ) : Type ℓ where
  -- A value that is declared without one.
  pub null : J
  pub string : Text → J
  pub number : ℕ → J
  pub array : List J → J
  pub object : List (Text × J) → J
  pub is_empty : J → Bool
  pub to_msgpack : J → Text
  pub from_msgpack : Text → Decoded J

-- Decoding undoes encoding; the null value is empty, and an array with an element is not.
pub record IsJson {ℓ} {J : Type ℓ} (json : Json J) : Type ℓ where
  pub from_msgpack-to_msgpack : (j : J) → json.from_msgpack (json.to_msgpack j) ≡ decoded j
  pub is_empty-null : json.is_empty json.null ≡ true
  pub is_empty-array : (j : J) (js : List J) → json.is_empty (json.array (j ∷ js)) ≡ false
