-- ===== src/Wire/Message.antt =====
-- `Question`, `ResourceRecord` and `Message` of app/dnscore/wire.py: `from_wire` and `to_wire`.
-- A flag is 0 or 1 as in the source, and a shift by k bits is a product with 2 ^ k.
pub mod Endings
pub mod Flags
pub mod RoundTrip
pub mod Repacked
use Prim.Native.Nat.{bit_or}
use nova_dns.Prelude.{
  ℕ, zero, suc, ◌+◌, ◌*◌, ◌/◌, ◌%◌, Bool, true, false, List, [], ◌∷◌, ◌++◌, String, ltb,
  if◌then◌else◌, length, Result, ok, err, ◌>>=◌, ◌>>◌, guard, not, dns_error, Error, out_of_fuel,
}
use nova_dns.Prelude.Int.{pos}
use nova_dns.Text.{Text}
use nova_dns.Wire.Types.{codes, type_name, type_to_num}
use nova_dns.Wire.Name.{Bytes, slice, encode_name, decode_name}
use nova_dns.Wire.Bytes.{pack16, pack32, unpack16, unpack32, hex}
use nova_dns.Wire.Rdata.{Field, text, Value, Codec}
use nova_dns.Wire.Rdata.Encode.{encode_rdata}
use nova_dns.Wire.Rdata.Decode.{decode_rdata}

pub record Question : Type 0 where
  pub name : Text
  pub qtype : Text
  pub qclass : ℕ

pub record ResourceRecord : Type 0 where
  pub name : Text
  pub rtype : Text
  pub rclass : ℕ
  pub ttl : ℕ
  pub value : Value

pub record Message : Type 0 where
  pub id : ℕ
  pub qr : ℕ
  pub opcode : ℕ
  pub aa : ℕ
  pub tc : ℕ
  pub rd : ℕ
  pub ra : ℕ
  pub rcode : ℕ
  pub questions : List Question
  pub answers : List ResourceRecord
  pub authorities : List ResourceRecord
  pub additionals : List ResourceRecord

-- `Message()`
abbrev pub new_message : Message
new_message = record {
  id = 0;
  qr = 0;
  opcode = 0;
  aa = 0;
  tc = 0;
  rd = 1;
  ra = 0;
  rcode = 0;
  questions = [];
  answers = [];
  authorities = [];
  additionals = [];
}

abbrev pub qclass_in : ℕ
qclass_in = 1

-- the flags word that `to_wire` packs
unfoldable pub flags_word : Message → ℕ
flags_word m =
    bit_or
      (bit_or
        (bit_or
          (bit_or (bit_or (bit_or (m.qr * 32768) (m.opcode * 2048)) (m.aa * 1024)) (m.tc * 512))
          (m.rd * 256))
        (m.ra * 128))
      m.rcode

read_questions : ℕ → Bytes → ℕ → Result (List Question × ℕ)
unfolding decode_name unpack16 type_name
read_questions zero msg o = ok ([], o)
read_questions (suc n) msg o = do
  (name, p) ← decode_name msg o
  qtype_num ← unpack16 msg p
  qclass ← unpack16 msg (p + 2)
  (rest, q) ← read_questions n msg (p + 4)
  ok (record { name = name; qtype = type_name qtype_num; qclass = qclass } ∷ rest, q)

-- What `except Exception` catches: `out_of_fuel`, a loop that is cut short, is no exception.
raw_unless_cut : Error → Value → Result Value
raw_unless_cut out_of_fuel raw = err out_of_fuel
raw_unless_cut e raw = ok raw

-- `except Exception: value = {"raw_hex": ...}`
value_or_raw : Result Value → Bytes → Result Value
unfolding hex raw_unless_cut
value_or_raw (ok v) raw = ok v
value_or_raw (err e) raw = raw_unless_cut e (("raw_hex", text (hex raw)) ∷ [])

module _ (k : Codec) where
  read_rr : Bytes → ℕ → Result (ResourceRecord × ℕ)
  unfolding decode_name unpack16 unpack32 type_name decode_rdata value_or_raw
  read_rr msg o = do
    (name, p) ← decode_name msg o
    rtype_num ← unpack16 msg p
    rclass ← unpack16 msg (p + 2)
    ttl ← unpack32 msg (p + 4)
    rdlength ← unpack16 msg (p + 8)
    let rtype = type_name rtype_num
    value ← value_or_raw (decode_rdata k rtype msg (p + 10) rdlength) (slice msg (p + 10) rdlength)
    ok (
      record { name = name; rtype = rtype; rclass = rclass; ttl = ttl; value = value },
      p + 10 + rdlength,
    )

  -- `read_rr_section`
  read_rr_section : ℕ → Bytes → ℕ → Result (List ResourceRecord × ℕ)
  unfolding read_rr
  read_rr_section zero msg o = ok ([], o)
  read_rr_section (suc n) msg o = do
    (rr, p) ← read_rr msg o
    (rest, q) ← read_rr_section n msg p
    ok (rr ∷ rest, q)

  unfoldable pub from_wire : Bytes → Result Message
  unfolding read_questions read_rr_section unpack16
  from_wire msg = do
    guard (not (ltb (length msg) 12)) dns_error
    id ← unpack16 msg 0
    flags ← unpack16 msg 2
    qdcount ← unpack16 msg 4
    ancount ← unpack16 msg 6
    nscount ← unpack16 msg 8
    arcount ← unpack16 msg 10
    (questions, o) ← read_questions qdcount msg 12
    (answers, p) ← read_rr_section ancount msg o
    (authorities, q) ← read_rr_section nscount msg p
    (additionals, _) ← read_rr_section arcount msg q
    ok (record {
      id = id;
      qr = flags / 32768 % 2;
      opcode = flags / 2048 % 16;
      aa = flags / 1024 % 2;
      tc = flags / 512 % 2;
      rd = flags / 256 % 2;
      ra = flags / 128 % 2;
      rcode = flags % 16;
      questions = questions;
      answers = answers;
      authorities = authorities;
      additionals = additionals;
    })

  write_questions : List Question → Result Bytes
  unfolding encode_name pack16 type_to_num
  write_questions [] = ok []
  write_questions (q ∷ qs) = do
    name ← encode_name k.idna q.name
    b1 ← pack16 (pos (type_to_num q.qtype))
    b2 ← pack16 (pos q.qclass)
    rest ← write_questions qs
    ok (name ++ (b1 ++ (b2 ++ rest)))

  -- `write_rr`
  write_rr : ResourceRecord → Result Bytes
  unfolding encode_name encode_rdata pack16 pack32 type_to_num
  write_rr rr = do
    name ← encode_name k.idna rr.name
    rdata ← encode_rdata k rr.rtype rr.value
    b1 ← pack16 (pos (type_to_num rr.rtype))
    b2 ← pack16 (pos rr.rclass)
    b3 ← pack32 (pos rr.ttl)
    b4 ← pack16 (pos (length rdata))
    ok (name ++ (b1 ++ (b2 ++ (b3 ++ (b4 ++ rdata)))))

  write_section : List ResourceRecord → Result Bytes
  unfolding write_rr
  write_section [] = ok []
  write_section (rr ∷ rrs) = do b ← write_rr rr; rest ← write_section rrs; ok (b ++ rest)

  unfoldable pub to_wire : Message → Result Bytes
  unfolding flags_word pack16 write_questions write_section
  to_wire m = do
    b1 ← pack16 (pos m.id)
    b2 ← pack16 (pos (flags_word m))
    b3 ← pack16 (pos (length m.questions))
    b4 ← pack16 (pos (length m.answers))
    b5 ← pack16 (pos (length m.authorities))
    b6 ← pack16 (pos (length m.additionals))
    qs ← write_questions m.questions
    an ← write_section m.answers
    au ← write_section m.authorities
    ad ← write_section m.additionals
    ok (b1 ++ (b2 ++ (b3 ++ (b4 ++ (b5 ++ (b6 ++ (qs ++ (an ++ (au ++ ad)))))))))
