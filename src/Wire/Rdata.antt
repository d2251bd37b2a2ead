-- ===== src/Wire/Rdata.antt =====
-- The record data codec of app/dnscore/wire.py: a value is Python's `dict` of fields.
pub mod Encode
pub mod Decode
pub mod RoundTrip
pub mod Shapes
use nova_dns.Prelude.{
  ℕ, zero, suc, ◌+◌, ◌-◌, ◌*◌, Bool, true, false, ◌&&◌, ◌||◌, Option, none, some, List, [], ◌∷◌,
  ◌++◌, String, ltb, leb, ◌==◌, if◌then◌else◌, length, drop, take, Result, ok, err, ◌>>=◌, or_raise,
  key_error, type_error, value_error,
}
use package.text.Mathlib.Text.{◌==◌ as str_eq}
use nova_dns.Prelude.Int.{ℤ, pos, negsuc}
use nova_dns.Dict
use nova_dns.Text.{Text, text_eq}
use nova_dns.Text.Number.{is_digit}
use nova_dns.Wire.Types.{codes}
use nova_dns.Wire.Name.{Bytes}
use nova_dns.Wire.Bytes.{is_space}

-- What a field of the JSON value may be.
pub data Field : Type 0 where
  num : ℤ → Field
  text : Text → Field
  null : Field

abbrev pub Value : Type 0
Value = List (String × Field)

-- The parts of Python's library that the codec calls: IDNA, UTF-8 decoding with replacement, and
-- the `ipaddress` texts. `none` is an exception.
pub record Codec : Type 0 where
  pub idna : Text → Option Bytes
  pub utf8_replace : Bytes → Text
  pub v4_packed : Text → Option Bytes
  pub v4_text : Bytes → Option Text
  pub v6_packed : Text → Option Bytes
  pub v6_text : Bytes → Option Text

-- What `encode_rdata` and `decode_rdata` branch on.
pub data Kind : Type 0 where
  a aaaa target mx txt soa srv caa naptr tlsa sshfp ds https opaque : Kind

abbrev is : Text → String → Bool
is rtype name = text_eq (codes name) rtype

unfoldable pub kind_of : Text → Kind
unfolding text_eq
kind_of rtype =
    if is rtype "A"
    then a
    else if is rtype "AAAA"
    then aaaa
    else if is rtype "CNAME" || is rtype "NS" || is rtype "PTR"
    then target
    else if is rtype "MX"
    then mx
    else if is rtype "TXT"
    then txt
    else if is rtype "SOA"
    then soa
    else if is rtype "SRV"
    then srv
    else if is rtype "CAA"
    then caa
    else if is rtype "NAPTR"
    then naptr
    else if is rtype "TLSA"
    then tlsa
    else if is rtype "SSHFP"
    then sshfp
    else if is rtype "DS"
    then ds
    else if is rtype "HTTPS"
    then https
    else opaque

-- value.get(k)
unfoldable pub find : String → Value → Option Field
unfolding Dict.get
find k v = Dict.get str_eq k v

-- value[k]
unfoldable pub item : String → Value → Result Field
unfolding Dict.get
item k v = or_raise key_error (Dict.get str_eq k v)

-- value.get(k, default)
unfoldable pub item_or : String → Field → Value → Field
unfolding Dict.get
item_or k default v = elim (Dict.get str_eq k v) [ none ↦ default | some f ↦ f ]

-- a text method called on the field: AttributeError on anything but a text
unfoldable pub as_text : Field → Result Text
as_text (text t) = ok t
as_text (num n) = err type_error
as_text null = err type_error

unfoldable pub lstrip : Text → Text
unfolding is_space
lstrip [] = []
lstrip (c ∷ s) = let rest = lstrip s in if is_space c then rest else c ∷ s

unfoldable pub rstrip : Text → Text
unfolding is_space text_eq
rstrip [] = []
rstrip (c ∷ s) = let rest = rstrip s in if is_space c && text_eq rest [] then [] else c ∷ rest

-- s.strip(), of ASCII white space
abbrev pub strip : Text → Text
strip s = lstrip (rstrip s)

-- Digits of an int literal, with single underscores between them; `ended` after a digit.
digits_from : Bool → ℕ → Text → Option ℕ
digits_from ended n [] = if ended then some n else none
digits_from ended n (c ∷ s) =
    let digit = digits_from true (n * 10 + (c - 48)) s in
    let underscore = digits_from false n s in
    if is_digit c then digit else if c == 95 && ended then underscore else none

signed : Bool → Option ℕ → Result ℤ
signed negative none = err value_error
signed true (some zero) = ok (pos 0)
signed true (some (suc n)) = ok (negsuc n)
signed false (some n) = ok (pos n)

-- int(s): white space round it, a sign, then the digits
unfoldable pub int_of_text : Text → Result ℤ
unfolding digits_from signed is_digit lstrip rstrip
int_of_text s = elim (strip s) [
  | [] ↦ err value_error
  | c ∷ r ↦
      if c == 45
      then signed true (digits_from false 0 r)
      else if c == 43
      then signed false (digits_from false 0 r)
      else signed false (digits_from false 0 (c ∷ r))
]

-- int(field)
unfoldable pub int_of_field : Field → Result ℤ
unfolding int_of_text
int_of_field (num n) = ok n
int_of_field (text t) = int_of_text t
int_of_field null = err type_error
