-- ===== src/Error.antt =====
-- include/capy/amqp_common.h, src/amqp_common.cc, and the error enumerations and categories of
-- include/capy/amqp_address.h, src/amqp_address.cc, include/capy/amqp_broker.h, src/amqp_broker.cc.
-- An error code is the number of its enumerator; every condition of the program is built from one.
pub mod Format
pub mod Laws
mod Tests
use capy_amqp_cpp.Prelude.{
  ℕ, ◌+◌, Bool, true, false, not, Option, none, some, ◌==◌, if◌then◌else◌, Text, codes,
}

-- enum class CommonError; `LAST` is `common_last`.
pub data CommonError : Type 0 where
  ok not_supported unknown not_found out_of_range : CommonError

abbrev pub common_last : ℕ
common_last = 304

unfoldable pub common_code : CommonError → ℕ
common_code ok = 0
common_code not_supported = 300
common_code unknown = 301
common_code not_found = 302
common_code out_of_range = 303

-- enum class AddressError
pub data AddressError : Type 0 where
  parse empty : AddressError

unfoldable pub address_code : AddressError → ℕ
address_code parse = common_last
address_code empty = common_last + 1

-- enum class BrokerError
pub data BrokerError : Type 0 where
  connection connection_closed connection_lost memory login channel_ready channel_message :
      BrokerError
  publish exchange_declaration queue_declaration queue_binding queue_consuming : BrokerError
  listener_conflict empty_replay data_response : BrokerError

unfoldable pub broker_code : BrokerError → ℕ
broker_code connection = common_last
broker_code connection_closed = common_last + 1
broker_code connection_lost = common_last + 2
broker_code memory = common_last + 3
broker_code login = common_last + 4
broker_code channel_ready = common_last + 5
broker_code channel_message = common_last + 6
broker_code publish = common_last + 7
broker_code exchange_declaration = common_last + 8
broker_code queue_declaration = common_last + 9
broker_code queue_binding = common_last + 10
broker_code queue_consuming = common_last + 11
broker_code listener_conflict = common_last + 12
broker_code empty_replay = common_last + 13
broker_code data_response = common_last + 14

-- The three singletons `error_category()`, `address_error_category()`, `broker_error_category()`.
pub data Category : Type 0 where
  common_category address_category broker_category : Category

-- std::error_condition, and the std::error_code that `Error` makes of it.
pub record Condition : Type 0 where
  pub value : ℕ
  pub category : Category

unfoldable pub condition_of_common : CommonError → Condition
unfolding common_code
condition_of_common e = record { value = common_code e; category = common_category }

unfoldable pub condition_of_address : AddressError → Condition
unfolding address_code
condition_of_address e = record { value = address_code e; category = address_category }

unfoldable pub condition_of_broker : BrokerError → Condition
unfolding broker_code
condition_of_broker e = record { value = broker_code e; category = broker_category }

-- ErrorCategory::message
unfoldable pub common_message : ℕ → Text
unfolding common_code
common_message ev =
    if ev == common_code ok
    then codes "OK"
    else if ev == common_code not_supported
    then codes "Not supported format"
    else codes "Unknown error"

-- AddressErrorCategory::message
unfoldable pub address_message : ℕ → Text
unfolding address_code common_message
address_message ev =
    if ev == address_code parse
    then codes "Parse error"
    else if ev == address_code empty
    then codes "Empty input"
    else common_message ev

-- BrokerErrorCategory::message
unfoldable pub broker_message : ℕ → Text
unfolding broker_code common_message
broker_message ev =
    if ev == broker_code connection then codes "ConnectionCache error" else common_message ev

unfoldable pub category_message : Category → ℕ → Text
unfolding common_message address_message broker_message
category_message common_category ev = common_message ev
category_message address_category ev = address_message ev
category_message broker_category ev = broker_message ev

-- ErrorCategory::name, which the derived categories inherit.
unfoldable pub category_name : Category → Text
category_name c = codes "capy.amqp"

-- ErrorCategory::equivalent, which looks at the value of the code alone.
unfoldable pub equivalent : Condition → ℕ → Bool
equivalent code condition = code.value == condition

pub record Error : Type 0 where
  pub code : Condition
  pub exception_message : Option Text

unfoldable pub make_error : Condition → Option Text → Error
make_error c message = record { code = c; exception_message = message }

unfoldable pub value : Error → ℕ
value e = e.code.value

abbrev message_or : Option Text → Text → Text
message_or (some m) d = m
message_or none d = d

unfoldable pub message : Error → Text
unfolding category_message
message e = message_or e.exception_message (category_message e.code.category e.code.value)

-- operator bool: true when an error occurred.
unfoldable pub is_error : Error → Bool
unfolding common_code
is_error e = not (e.code.value == common_code ok)

-- expected<T, Error>
pub data Result {ℓ} (A : Type ℓ) : Type ℓ where
  value_of : A → Result A
  unexpected : Error → Result A

-- Error(CommonError::OK)
unfoldable pub ok_error : Error
unfolding make_error condition_of_common
ok_error = make_error (condition_of_common ok) none

unfoldable pub common_error : CommonError → Option Text → Error
unfolding make_error condition_of_common
common_error e m = make_error (condition_of_common e) m

unfoldable pub address_error : AddressError → Option Text → Error
unfolding make_error condition_of_address
address_error e m = make_error (condition_of_address e) m

unfoldable pub broker_error : BrokerError → Option Text → Error
unfolding make_error condition_of_broker
broker_error e m = make_error (condition_of_broker e) m

infixl 5 ◌>>=◌
abbrev pub ◌>>=◌ {ℓ κ} : {A : Type ℓ} {B : Type κ} → Result A → (A → Result B) → Result B
value_of a >>= f = f a
unexpected e >>= f = unexpected e
