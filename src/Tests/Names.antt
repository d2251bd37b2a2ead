-- ===== src/Tests/Names.antt =====
-- Names, record data and messages.
use nova_dns.Prelude.{
  ℕ, ◌+◌, ◌<◌, ◌≤◌, ◌≡◌, ◌≢◌, refl, ◌↔◌, List, [], ◌∷◌, ◌++◌, length, ok, err, out_of_fuel, ◌%◌,
  ◌/◌, arith,
}
use nova_dns.Prelude.Int.{pos}
use nova_dns.Text.{Text, is_ascii, join_dot}
use nova_dns.Wire.Types.{codes, type_name, type_to_num}
use nova_dns.Wire.Types.Symmetry.{type_to_num-type_name}
use nova_dns.Wire.Name.{Bytes, encode_name, decode_name, dotted}
use nova_dns.Wire.Name.Grammar.{NameAt, decode_name_iff_NameAt}
use nova_dns.Wire.Name.Safety.{decode_name_ends, decode_name_bounds}
use nova_dns.Wire.Name.RoundTrip.{IsPlainLabel, IsWireName, wire_form, decode-encode_name}
use nova_dns.Wire.Rdata.{num, text, kind_of}
use nova_dns.Wire.Rdata.Decode.{decode_rdata}
use nova_dns.Wire.Rdata.Decode.Endings.{decode_rdata_ends}
use nova_dns.Wire.Rdata.RoundTrip.{RoundTrips, RoundTrips-mx}
use nova_dns.Wire.Rdata.Shapes.{service, RoundTrips-value_of}
use nova_dns.Wire.Message.{flags_word, from_wire, to_wire}
use nova_dns.Wire.Message.Endings.{from_wire_ends}
use nova_dns.Wire.Message.Flags.{InBits, ReadsBack, flags_word-ReadsBack}
use nova_dns.Wire.Message.RoundTrip.{IsTypeName, IsMessage, from_wire-to_wire}
use nova_dns.Dnssec.Base32.{base32hex_encode, base32hex_decode}
use nova_dns.Dnssec.Base32.RoundTrip.{base32hex_decode-encode}
use nova_dns.Dnssec.KeyTag.{key_tag, key_tag-words, sum, words}
use nova_dns.Tests.Data.{plain_codec, mx_value, mx_message}

-- "b" behind a pointer to it
abbrev pointing : Bytes
pointing = 1 ∷ 98 ∷ 0 ∷ 192 ∷ 0 ∷ []

-- a pointer to itself
abbrev circular : Bytes
circular = 192 ∷ 0 ∷ []

pointing_name : decode_name pointing 3 ≡ ok (codes "b.", 5)
unfolding decode_name
pointing_name = refl

decode_name_iff_NameAt_example :
    (decode_name pointing 3 ≡ ok (codes "b.", 5))
    ↔ ((ls : List Text) × NameAt pointing 128 3 ls 5 × (codes "b." ≡ dotted ls))
decode_name_iff_NameAt_example = decode_name_iff_NameAt pointing 3 (codes "b.") 5

decode_name_ends_example : decode_name circular 0 ≢ err out_of_fuel
decode_name_ends_example = decode_name_ends circular 0

decode_name_bounds_example : (3 < 5) × (5 ≤ length pointing)
decode_name_bounds_example = decode_name_bounds pointing 3 (codes "b.") 5 pointing_name

plain_a : IsPlainLabel (codes "a")
unfolding is_ascii
plain_a = record {
  ascii = refl;
  nonempty = omega arith;
  short = omega arith;
  no_dot = ((λ e. absurd (omega (arith, e))), tt);
}

plain_b : IsPlainLabel (codes "b")
unfolding is_ascii
plain_b = record {
  ascii = refl;
  nonempty = omega arith;
  short = omega arith;
  no_dot = ((λ e. absurd (omega (arith, e))), tt);
}

decode-encode_name_example :
    (b : Bytes) × (encode_name plain_codec.idna (join_dot (codes "a" ∷ codes "b" ∷ [])) ≡ ok b)
    × (decode_name ((1 ∷ 2 ∷ []) ++ (b ++ 9 ∷ [])) (length {A = ℕ} (1 ∷ 2 ∷ []))
        ≡ ok (dotted (codes "a" ∷ codes "b" ∷ []), length {A = ℕ} (1 ∷ 2 ∷ []) + length b))
decode-encode_name_example =
    decode-encode_name plain_codec.idna (codes "a") (codes "b" ∷ []) (1 ∷ 2 ∷ []) (9 ∷ [])
      (plain_a, (plain_b, tt))

unfoldable name_b : IsWireName (codes "b.")
unfolding join_dot
name_b = record { labels = codes "b" ∷ []; plain = (plain_b, tt); spelled = refl }

unfoldable name_ab : IsWireName (codes "a.b.")
unfolding join_dot
name_ab = record {
  labels = codes "a" ∷ codes "b" ∷ [];
  plain = (plain_a, (plain_b, tt));
  spelled = refl;
}

type_to_num-type_name_example : type_to_num (type_name 65280) ≡ 65280
type_to_num-type_name_example = type_to_num-type_name 65280

mx_RoundTrips : RoundTrips plain_codec (codes "MX") mx_value
unfolding kind_of wire_form name_ab name_b
mx_RoundTrips =
    RoundTrips-mx plain_codec (codes "MX") (codes "a.b.") 10 refl (omega arith) name_ab
      (omega arith)

RoundTrips-value_of_example : RoundTrips plain_codec (codes "SRV") (
    ("priority", num (pos 1))
    ∷ ("weight", num (pos 2))
    ∷ ("port", num (pos 3))
    ∷ ("target", text (codes "b."))
    ∷ [])
unfolding kind_of wire_form name_ab name_b
RoundTrips-value_of_example =
    RoundTrips-value_of plain_codec (codes "SRV") (service 1 2 3 (codes "b.")) refl
      (name_b, omega arith, omega arith, omega arith, omega arith)

decode_rdata_ends_example :
    decode_rdata plain_codec (codes "TXT") (3 ∷ 97 ∷ []) 0 2 ≢ err out_of_fuel
decode_rdata_ends_example = decode_rdata_ends plain_codec (codes "TXT") (3 ∷ 97 ∷ []) 0 2

mx_is_type : IsTypeName (codes "MX")
unfolding type_name
mx_is_type = record { number = 15; fits = omega arith; named = refl }

in_bits : InBits mx_message
in_bits = record {
  qr = omega arith;
  opcode = omega arith;
  aa = omega arith;
  tc = omega arith;
  rd = omega arith;
  ra = omega arith;
  rcode = omega arith;
}

flags_word-ReadsBack_example : ReadsBack mx_message (flags_word mx_message)
flags_word-ReadsBack_example = flags_word-ReadsBack mx_message in_bits

mx_IsMessage : IsMessage plain_codec mx_message
mx_IsMessage = record {
  id = omega arith;
  bits = in_bits;
  qdcount = omega arith;
  ancount = omega arith;
  nscount = omega arith;
  arcount = omega arith;
  questions = (record { name = name_b; qtype = mx_is_type; qclass = omega arith }, tt);
  answers = (
    record {
      name = name_b;
      rtype = mx_is_type;
      rclass = omega arith;
      ttl = omega arith;
      value = mx_RoundTrips;
    },
    tt,
  );
  authorities = tt;
  additionals = tt;
}

from_wire-to_wire_example :
    (b : Bytes) × (to_wire plain_codec mx_message ≡ ok b)
    × (from_wire plain_codec b ≡ ok mx_message)
from_wire-to_wire_example = from_wire-to_wire plain_codec mx_message mx_IsMessage

base32hex_decode-encode_example :
    base32hex_decode (base32hex_encode (1 ∷ 255 ∷ [])) ≡ ok (1 ∷ 255 ∷ [])
base32hex_decode-encode_example =
    base32hex_decode-encode (1 ∷ 255 ∷ []) (omega arith, (omega arith, tt))

key_tag-words_example :
    (key_tag (1 ∷ 2 ∷ 3 ∷ [])
      ≡ (sum (words (1 ∷ 2 ∷ 3 ∷ [])) + sum (words (1 ∷ 2 ∷ 3 ∷ [])) / 65536 % 65536) % 65536)
    × (key_tag (1 ∷ 2 ∷ 3 ∷ []) < 65536)
key_tag-words_example = key_tag-words (1 ∷ 2 ∷ 3 ∷ [])

-- a packet whose only question is a pointer to itself
abbrev looping : Bytes
looping = 0 ∷ 1 ∷ 1 ∷ 0 ∷ 0 ∷ 1 ∷ 0 ∷ 0 ∷ 0 ∷ 0 ∷ 0 ∷ 0 ∷ 192 ∷ 12 ∷ []

from_wire_ends_example : from_wire plain_codec looping ≢ err out_of_fuel
from_wire_ends_example = from_wire_ends plain_codec looping
