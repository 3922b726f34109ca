-- ===== src/Error/Tests.antt =====
-- Tests of the error texts.
use capy_amqp_cpp.Prelude.{◌≡◌, refl, is_some, List, [], ◌∷◌, Text, codes, length, leb}
use capy_amqp_cpp.Error.Format.{error_string, is_some-error_string}

-- The format of a binding's error, and its arguments in src/broker_impl/broker.cc.
abbrev binding_format : Text
binding_format = codes "%s: %s:%s <- %s"

abbrev binding_arguments : List Text
binding_arguments = codes "NOT_FOUND" ∷ codes "amq.topic" ∷ []

binding_error_undefined :
    is_some (error_string binding_format binding_arguments) ≡ leb 4 (length binding_arguments)
binding_error_undefined = is_some-error_string binding_format binding_arguments 4 refl
