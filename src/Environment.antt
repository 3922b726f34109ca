-- ===== src/Environment.antt =====
-- `get_dotenv` of include/capy/amqp.h. The library that reads the `.env` file is outside: how its
-- look-up of a name ends is an argument.
use capy_amqp_cpp.Prelude.{◌≡◌, ◌↔◌, ap, none, some, Text}
use capy_amqp_cpp.Error.{
  Result, value_of, unexpected, common_error, out_of_range, not_found, unknown,
}

-- `env[variable_name]` has a value, or throws: `std::out_of_range`, another `std::exception`, each with
-- its text, or anything else.
pub data Lookup : Type 0 where
  found threw_out_of_range threw : Text → Lookup
  threw_other : Lookup

-- The handlers, in the order of the `catch` clauses.
abbrev pub caught : Lookup → Result Text
caught (found value) = value_of value
caught (threw_out_of_range what) = unexpected (common_error out_of_range (some what))
caught (threw what) = unexpected (common_error not_found (some what))
caught threw_other = unexpected (common_error unknown none)

unfoldable pub get_dotenv : (Text → Lookup) → Text → Result Text
get_dotenv env variable_name = caught (env variable_name)

caught-eq-value_of : (l : Lookup) (value : Text) → caught l ≡ value_of value → l ≡ found value
caught-eq-value_of (found v) value h = cc
caught-eq-value_of (threw_out_of_range what) value h = absurd (cc)
caught-eq-value_of (threw what) value h = absurd (cc)
caught-eq-value_of threw_other value h = absurd (cc)

-- `get_dotenv` returns a value exactly if the library found it.
pub get_dotenv-eq-value_of :
    (env : Text → Lookup) (name value : Text)
    → (get_dotenv env name ≡ value_of value) ↔ (env name ≡ found value)
unfolding get_dotenv
get_dotenv-eq-value_of env name value = (caught-eq-value_of (env name) value, λ h. ap caught h)
