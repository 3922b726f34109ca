-- ===== src/Error/Laws.antt =====
-- The codes and the categories of the errors of include/capy/amqp_common.h.
use capy_amqp_cpp.Prelude.{◌<◌, ◌≡◌, ◌↔◌, true, false, arith, Text, Option}
use capy_amqp_cpp.Error.{
  CommonError, AddressError, BrokerError, common_code, address_code, broker_code, common_last,
  is_error, ok, common_error, address_error, broker_error,
}

pub common_code-lt : (e : CommonError) → common_code e < common_last
unfolding common_code
common_code-lt e = ground arith

pub common_code-injective : (a b : CommonError) → common_code a ≡ common_code b → a ≡ b
unfolding common_code
common_code-injective a b h = ground arith

pub address_code-injective : (a b : AddressError) → address_code a ≡ address_code b → a ≡ b
unfolding address_code
address_code-injective a b h = ground arith

pub broker_code-injective : (a b : BrokerError) → broker_code a ≡ broker_code b → a ≡ b
unfolding broker_code
broker_code-injective a b h = ground arith

-- Only `CommonError::OK` makes an `Error` that is no error, whatever text comes with it.
pub is_error-common :
    (e : CommonError) (m : Option Text) → (is_error (common_error e m) ≡ false) ↔ (e ≡ ok)
unfolding is_error common_error
is_error-common e m = ground arith

pub is_error-address : (e : AddressError) (m : Option Text) → is_error (address_error e m) ≡ true
unfolding is_error address_error
is_error-address e m = ground arith

pub is_error-broker : (e : BrokerError) (m : Option Text) → is_error (broker_error e m) ≡ true
unfolding is_error broker_error
is_error-broker e m = ground arith
