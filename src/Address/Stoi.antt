-- ===== src/Address/Stoi.antt =====
-- `std::stoi(text, nullptr, 0)`, which reads the port number: the base is that of the prefix, and what
-- follows the digits is not looked at. An `int` has 32 bits.
use capy_amqp_cpp.Prelude.{
  ℕ, ◌+◌, ◌-◌, ◌*◌, ◌^◌, ◌<◌, ◌≡◌, refl, ap, ◌∙◌, Bool, true, false, ◌&&◌, ◌||◌, Option, none, some,
  List, [], ◌∷◌, map, arith, ◌==◌, ltb, leb, if◌then◌else◌, Text, lt→ltb, le→leb,
}

-- The exceptions of `stoi`.
pub data ConversionError : Type 0 where
  invalid_argument out_of_range : ConversionError

-- The sign and the size of the number, or the exception.
pub data Conversion : Type 0 where
  converted : Bool → ℕ → Conversion
  threw : ConversionError → Conversion

abbrev in_range : ℕ → ℕ → ℕ → Bool
in_range lo hi c = leb lo c && leb c hi

-- isspace
abbrev is_space : ℕ → Bool
is_space c = c == 32 || in_range 9 13 c

unfoldable pub skip_spaces : Text → Text
skip_spaces [] = []
skip_spaces (c ∷ s) = if is_space c then skip_spaces s else c ∷ s

-- The value of a digit, 36 for what is none.
unfoldable pub digit_value : ℕ → ℕ
digit_value c =
    if in_range b'0' b'9' c
    then c - b'0'
    else if in_range b'a' b'z' c
    then c - b'a' + 10
    else if in_range b'A' b'Z' c
    then c - b'A' + 10
    else 36

-- The number that the digits in front make, behind the number `acc` of those before.
unfoldable pub read_digits : ℕ → ℕ → Text → ℕ
read_digits base acc [] = acc
read_digits base acc (c ∷ s) =
    let more = read_digits base (acc * base + digit_value c) s in
    if ltb (digit_value c) base then more else acc

-- The number at the front of a text in a base.
unfoldable pub read_number : ℕ → Text → Option ℕ
unfolding read_digits
read_number base [] = none
read_number base (c ∷ s) =
    if ltb (digit_value c) base then some (read_digits base (digit_value c) s) else none

abbrev is_x : ℕ → Bool
is_x c = c == b'x' || c == b'X'

-- Base 0: `0x` before a hexadecimal digit, a `0`, or neither.
unfoldable pub read_unsigned : Text → Option ℕ
unfolding read_number
read_unsigned [] = none
read_unsigned (c ∷ []) = if c == b'0' then some 0 else read_number 10 (c ∷ [])
read_unsigned (c ∷ d ∷ []) =
    if c == b'0' then read_number 8 (c ∷ d ∷ []) else read_number 10 (c ∷ d ∷ [])
read_unsigned (c ∷ d ∷ e ∷ s) =
    if c == b'0'
    then (if is_x d && ltb (digit_value e) 16
        then read_number 16 (e ∷ s)
        else read_number 8 (c ∷ d ∷ e ∷ s))
    else read_number 10 (c ∷ d ∷ e ∷ s)

-- The range of `int`.
abbrev pub checked : Bool → Option ℕ → Conversion
checked negative none = threw invalid_argument
checked negative (some n) =
    if leb n (if negative then 2 ^ 31 else 2 ^ 31 - 1)
    then converted negative n
    else threw out_of_range

unfoldable pub read_signed : Text → Conversion
unfolding read_unsigned
read_signed [] = threw invalid_argument
read_signed (c ∷ s) =
    if c == b'-'
    then checked true (read_unsigned s)
    else if c == b'+'
    then checked false (read_unsigned s)
    else checked false (read_unsigned (c ∷ s))

unfoldable pub stoi : Text → Conversion
unfolding skip_spaces read_signed
stoi s = read_signed (skip_spaces s)

-- The number of decimal digits, behind the number `acc` of those before.
abbrev pub decimal : ℕ → List ℕ → ℕ
decimal acc [] = acc
decimal acc (d ∷ ds) = decimal (acc * 10 + d) ds

abbrev pub digits : List ℕ → Text
digits = map (λ d. b'0' + d)

abbrev pub AllDigits : List ℕ → Type 0
AllDigits [] = Unit {0}
AllDigits (d ∷ ds) = (d < 10) × AllDigits ds

digit_value_lem : (d : ℕ) → d < 10 → digit_value (b'0' + d) ≡ d
unfolding digit_value
digit_value_lem d h = ground arith

read_digits-decimal :
    (acc : ℕ) (ds : List ℕ) → AllDigits ds → read_digits 10 acc (digits ds) ≡ decimal acc ds
unfolding read_digits
read_digits-decimal acc [] h = refl
read_digits-decimal acc (d ∷ ds) h =
    rw (digit_value_lem d h.0, lt→ltb d 10 h.0) (read_digits-decimal (acc * 10 + d) ds h.1)

read_unsigned-decimal :
    (c : ℕ) (s : Text) → (c == b'0') ≡ false → read_unsigned (c ∷ s) ≡ read_number 10 (c ∷ s)
unfolding read_unsigned
read_unsigned-decimal c [] h = rw h
read_unsigned-decimal c (d ∷ []) h = rw h
read_unsigned-decimal c (d ∷ e ∷ s) h = rw h

read_number-decimal :
    (d : ℕ) (ds : List ℕ)
    → AllDigits (d ∷ ds)
    → read_number 10 (digits (d ∷ ds)) ≡ some (decimal d ds)
unfolding read_number
read_number-decimal d ds h =
    rw (digit_value_lem d h.0, lt→ltb d 10 h.0) (ap some (read_digits-decimal d ds h.1))

-- A text that begins with a digit has no space and no sign in front.
read_signed-digit :
    (c : ℕ) (s : Text)
    → in_range b'0' b'9' c ≡ true
    → read_signed (skip_spaces (c ∷ s)) ≡ checked false (read_unsigned (c ∷ s))
unfolding read_signed skip_spaces
read_signed-digit c s h =
    let space : is_space c ≡ false = ground arith in
    let minus : (c == b'-') ≡ false = ground arith in
    let plus : (c == b'+') ≡ false = ground arith in rw (space, minus, plus)

checked-some : (n : ℕ) → n < 2 ^ 31 → checked false (some n) ≡ converted false n
checked-some n h = rw (le→leb n (2 ^ 31 - 1) (omega arith))

digit_in_range : (d : ℕ) → d < 10 → in_range b'0' b'9' (b'0' + d) ≡ true
digit_in_range d h = ground arith

digit_nonzero : (d : ℕ) → 0 < d → (b'0' + d == b'0') ≡ false
digit_nonzero d h = ground arith

-- A number without a leading zero, written in decimal digits, is read as itself.
pub stoi-digits :
    (d : ℕ) (ds : List ℕ)
    → 0 < d
    → AllDigits (d ∷ ds)
    → decimal d ds < 2 ^ 31
    → stoi (digits (d ∷ ds)) ≡ converted false (decimal d ds)
unfolding stoi
stoi-digits d ds pos h fits =
    let range : in_range b'0' b'9' (b'0' + d) ≡ true = digit_in_range d h.0 in
    let nonzero : (b'0' + d == b'0') ≡ false = digit_nonzero d pos in
    read_signed-digit (b'0' + d) (digits ds) range
    ∙ ap (checked false)
        (read_unsigned-decimal (b'0' + d) (digits ds) nonzero ∙ read_number-decimal d ds h)
    ∙ checked-some (decimal d ds) fits
