-- ===== src/Wire/Message/RoundTrip.antt =====
-- The round trip of messages, `to_wire` and `from_wire` of app/dnscore/wire.py.
use nova_dns.Prelude.{
  ℕ, ◌+◌, ◌<◌, ◌≡◌, refl, true, not, List, [], ◌∷◌, ◌++◌, arith, ltb, length, drop, drop-past,
  drop-advance, length-append, ok, sym, ◌∙◌, ap,
}
use mathlib.Core.Path.{ap₂}
use mathlib.Core.List.{append_assoc, append-nil}
use nova_dns.Prelude.Int.{pos}
use nova_dns.Text.{Text}
use nova_dns.Wire.Types.{type_name, type_to_num}
use nova_dns.Wire.Types.Symmetry.{type_to_num-type_name}
use nova_dns.Wire.Name.{Bytes}
use nova_dns.Wire.Name.RoundTrip.{IsWireName, wire_form, encode_name-dotted, decode_name-drop}
use nova_dns.Wire.Bytes.{pack16}
use nova_dns.Wire.Bytes.Laws.{be16, be32, pack16_lem, pack32_lem, unpack16_lem, unpack32_lem}
use nova_dns.Wire.Rdata.{Codec}
use nova_dns.Wire.Rdata.RoundTrip.{RoundTrips}
use nova_dns.Wire.Message.{
  Question, ResourceRecord, Message, flags_word, read_questions, read_rr, read_rr_section,
  value_or_raw, from_wire, write_questions, write_rr, write_section, to_wire,
}
use nova_dns.Wire.Message.Flags.{InBits, flags_word-ReadsBack}

-- A type as `from_wire` names it: the table's name of a number, or its digits.
pub record IsTypeName (rtype : Text) : Type 0 where
  pub number : ℕ
  pub fits : number < 65536
  pub named : rtype ≡ type_name number

pub record IsQuestion (q : Question) : Type 0 where
  pub name : IsWireName q.name
  pub qtype : IsTypeName q.qtype
  pub qclass : q.qclass < 65536

pack_type :
    (rtype : Text) (t : IsTypeName rtype) → pack16 (pos (type_to_num rtype)) ≡ ok (be16 t.number)
pack_type rtype t = rw (t.named, type_to_num-type_name) (pack16_lem t.number t.fits)

question_bytes : (q : Question) → IsQuestion q → Bytes
question_bytes q h = wire_form h.name.labels ++ (be16 h.qtype.number ++ be16 q.qclass)

abbrev pub AllQuestions : List Question → Type 0
AllQuestions [] = Unit
AllQuestions (q ∷ qs) = IsQuestion q × AllQuestions qs

questions_bytes : (qs : List Question) → AllQuestions qs → Bytes
unfolding question_bytes
questions_bytes [] h = []
questions_bytes (q ∷ qs) h = question_bytes q h.0 ++ questions_bytes qs h.1

read_questions_lem :
    (msg rest : Bytes) (o : ℕ) (qs : List Question) (h : AllQuestions qs)
    → drop o msg ≡ questions_bytes qs h ++ rest
    → read_questions (length qs) msg o ≡ ok (qs, o + length (questions_bytes qs h))
unfolding read_questions questions_bytes
read_questions_lem msg rest o [] h e = ap (λ (p : ℕ). ok ([], p)) (omega arith)
read_questions_lem msg rest o (q ∷ qs) h e =
    let w = wire_form h.0.name.labels in
    let t = be16 h.0.qtype.number in
    let c = be16 q.qclass in
    let more = questions_bytes qs h.1 in
    let at_name : drop o msg ≡ w ++ (t ++ (c ++ (more ++ rest))) = e ∙ simp (append_assoc) in
    let p = o + length w in
    let at_type : drop p msg ≡ t ++ (c ++ (more ++ rest)) = drop-past o msg w _ at_name in
    let at_class : drop (p + 2) msg ≡ c ++ (more ++ rest) =
      drop-advance p (p + 2) msg t _ at_type refl in
    let at_more : drop (p + 4) msg ≡ more ++ rest =
      drop-advance (p + 2) (p + 4) msg c _ at_class (omega arith) in
    rw
      (
        decode_name-drop msg _ o q.name h.0.name at_name,
        unpack16_lem msg p h.0.qtype.number _ at_type,
        unpack16_lem msg (p + 2) q.qclass _ at_class,
        read_questions_lem msg rest (p + 4) qs h.1 at_more,
      )
      (ap₂
        (λ (y : Text) (e : ℕ). ok (record { name = q.name; qtype = y; qclass = q.qclass } ∷ qs, e))
        (sym h.0.qtype.named)
        (omega (arith, length-append w (t ++ c), length-append (w ++ (t ++ c)) more)))

write_questions_lem :
    (k : Codec) (qs : List Question) (h : AllQuestions qs)
    → write_questions k qs ≡ ok (questions_bytes qs h)
unfolding write_questions questions_bytes
write_questions_lem k [] h = refl
write_questions_lem k (q ∷ qs) h =
    rw
      (
        encode_name-dotted k.idna q.name h.0.name,
        pack_type q.qtype h.0.qtype,
        pack16_lem q.qclass h.0.qclass,
        write_questions_lem k qs h.1,
      )
      (ap ok (simp append_assoc))

module _ (k : Codec) where
  pub record IsRecord (rr : ResourceRecord) : Type 0 where
    pub name : IsWireName rr.name
    pub rtype : IsTypeName rr.rtype
    pub rclass : rr.rclass < 65536
    pub ttl : rr.ttl < 4294967296
    pub value : RoundTrips k rr.rtype rr.value

  abbrev pub AllRecords : List ResourceRecord → Type 0
  AllRecords [] = Unit
  AllRecords (rr ∷ rrs) = IsRecord rr × AllRecords rrs

  rr_bytes : (rr : ResourceRecord) → IsRecord rr → Bytes
  rr_bytes rr h =
      wire_form h.name.labels
      ++ (be16 h.rtype.number
          ++ (be16 rr.rclass ++ (be32 rr.ttl ++ (be16 (length h.value.bytes) ++ h.value.bytes))))

  section_bytes : (rrs : List ResourceRecord) → AllRecords rrs → Bytes
  unfolding rr_bytes
  section_bytes [] h = []
  section_bytes (rr ∷ rrs) h = rr_bytes rr h.0 ++ section_bytes rrs h.1

  write_rr_lem : (rr : ResourceRecord) (h : IsRecord rr) → write_rr k rr ≡ ok (rr_bytes rr h)
  unfolding write_rr rr_bytes
  write_rr_lem rr h = rw (
    encode_name-dotted k.idna rr.name h.name,
    h.value.encodes,
    pack_type rr.rtype h.rtype,
    pack16_lem rr.rclass h.rclass,
    pack32_lem rr.ttl h.ttl,
    pack16_lem (length h.value.bytes) h.value.short,
  )

  write_section_lem :
      (rrs : List ResourceRecord) (h : AllRecords rrs)
      → write_section k rrs ≡ ok (section_bytes rrs h)
  unfolding write_section section_bytes
  write_section_lem [] h = refl
  write_section_lem (rr ∷ rrs) h = rw (write_rr_lem rr h.0, write_section_lem rrs h.1)

  read_rr_lem :
      (msg rest : Bytes) (o : ℕ) (rr : ResourceRecord) (h : IsRecord rr)
      → drop o msg ≡ rr_bytes rr h ++ rest
      → read_rr k msg o ≡ ok (rr, o + length (rr_bytes rr h))
  unfolding read_rr rr_bytes value_or_raw
  read_rr_lem msg rest o rr h e =
      let w = wire_form h.name.labels in
      let t = be16 h.rtype.number in
      let c = be16 rr.rclass in
      let l = be32 rr.ttl in
      let v = h.value.bytes in
      let n = be16 (length v) in
      let at_name : drop o msg ≡ w ++ (t ++ (c ++ (l ++ (n ++ (v ++ rest))))) =
        e ∙ simp append_assoc in
      let p = o + length w in
      let at_type : drop p msg ≡ t ++ (c ++ (l ++ (n ++ (v ++ rest)))) =
        drop-past o msg w _ at_name in
      let at_class : drop (p + 2) msg ≡ c ++ (l ++ (n ++ (v ++ rest))) =
        drop-advance p (p + 2) msg t _ at_type refl in
      let at_ttl : drop (p + 4) msg ≡ l ++ (n ++ (v ++ rest)) =
        drop-advance (p + 2) (p + 4) msg c _ at_class (omega arith) in
      let at_length : drop (p + 8) msg ≡ n ++ (v ++ rest) =
        drop-advance (p + 4) (p + 8) msg l _ at_ttl (omega arith) in
      let at_value : drop (p + 10) msg ≡ v ++ rest =
        drop-advance (p + 8) (p + 10) msg n _ at_length (omega arith) in
      rw
        (
          decode_name-drop msg _ o rr.name h.name at_name,
          unpack16_lem msg p h.rtype.number _ at_type,
          unpack16_lem msg (p + 2) rr.rclass _ at_class,
          unpack32_lem msg (p + 4) rr.ttl _ at_ttl h.ttl,
          unpack16_lem msg (p + 8) (length v) _ at_length,
          ← h.rtype.named,
          h.value.decodes msg rest (p + 10) at_value,
        )
        (ap (λ (e : ℕ). ok (rr, e))
          (omega (arith, length-append w (t ++ (c ++ (l ++ (n ++ v)))), length-append n v)))

  read_section_lem :
      (msg rest : Bytes) (o : ℕ) (rrs : List ResourceRecord) (h : AllRecords rrs)
      → drop o msg ≡ section_bytes rrs h ++ rest
      → read_rr_section k (length rrs) msg o ≡ ok (rrs, o + length (section_bytes rrs h))
  unfolding read_rr_section section_bytes
  read_section_lem msg rest o [] h e = ap (λ (p : ℕ). ok ([], p)) (omega arith)
  read_section_lem msg rest o (rr ∷ rrs) h e =
      let b = rr_bytes rr h.0 in
      let more = section_bytes rrs h.1 in
      let here : drop o msg ≡ b ++ (more ++ rest) = e ∙ append_assoc b more rest in
      rw
        (
          read_rr_lem msg (more ++ rest) o rr h.0 here,
          read_section_lem msg rest (o + length b) rrs h.1 (drop-past o msg b _ here),
        )
        (ap (λ (e : ℕ). ok (rr ∷ rrs, e)) (omega (arith, length-append b more)))

  pub record IsMessage (m : Message) : Type 0 where
    pub id : m.id < 65536
    pub bits : InBits m
    pub qdcount : length m.questions < 65536
    pub ancount : length m.answers < 65536
    pub nscount : length m.authorities < 65536
    pub arcount : length m.additionals < 65536
    pub questions : AllQuestions m.questions
    pub answers : AllRecords m.answers
    pub authorities : AllRecords m.authorities
    pub additionals : AllRecords m.additionals

  header : Message → Bytes
  header m =
      be16 m.id
      ++ (be16 (flags_word m)
          ++ (be16 (length m.questions)
              ++ (be16 (length m.answers)
                  ++ (be16 (length m.authorities) ++ be16 (length m.additionals)))))

  body : (m : Message) → IsMessage m → Bytes
  body m h =
      questions_bytes m.questions h.questions
      ++ (section_bytes m.answers h.answers
          ++ (section_bytes m.authorities h.authorities
              ++ section_bytes m.additionals h.additionals))

  to_wire_lem : (m : Message) (h : IsMessage m) → to_wire k m ≡ ok (header m ++ body m h)
  unfolding to_wire header body
  to_wire_lem m h = rw (
    pack16_lem m.id h.id,
    pack16_lem (flags_word m) (flags_word-ReadsBack m h.bits).fits,
    pack16_lem (length m.questions) h.qdcount,
    pack16_lem (length m.answers) h.ancount,
    pack16_lem (length m.authorities) h.nscount,
    pack16_lem (length m.additionals) h.arcount,
    write_questions_lem k m.questions h.questions,
    write_section_lem m.answers h.answers,
    write_section_lem m.authorities h.authorities,
    write_section_lem m.additionals h.additionals,
  )

  long_enough : (n : ℕ) → not (ltb (12 + n) 12) ≡ true
  long_enough n = ground arith

  length-header : (m : Message) (b : Bytes) → length (header m ++ b) ≡ 12 + length b
  unfolding header
  length-header m b = omega arith

  from_wire_lem :
      (m : Message) (h : IsMessage m) (msg : Bytes)
      → msg ≡ header m ++ body m h
      → from_wire k msg ≡ ok m
  unfolding from_wire header body
  from_wire_lem m h msg e =
      let at = λ (n : ℕ). ap (λ (b : Bytes). drop n b) e in
      let long_enough_msg : not (ltb (length msg) 12) ≡ true =
        rw (e, length-header m (body m h)) (long_enough (length (body m h))) in
      let q = questions_bytes m.questions h.questions in
      let an = section_bytes m.answers h.answers in
      let ns = section_bytes m.authorities h.authorities in
      let ar = section_bytes m.additionals h.additionals in
      let f = flags_word-ReadsBack m h.bits in
      let at_an : drop (12 + length q) msg ≡ an ++ (ns ++ ar) = drop-past 12 msg q _ (at 12) in
      let at_ns : drop (12 + length q + length an) msg ≡ ns ++ ar =
        drop-past (12 + length q) msg an _ at_an in
      let at_ar : drop (12 + length q + length an + length ns) msg ≡ ar ++ [] =
        drop-past (12 + length q + length an) msg ns _ at_ns ∙ sym (append-nil ar) in
      rw (
        long_enough_msg,
        unpack16_lem msg 0 m.id _ (at 0),
        unpack16_lem msg 2 (flags_word m) _ (at 2),
        unpack16_lem msg 4 (length m.questions) _ (at 4),
        unpack16_lem msg 6 (length m.answers) _ (at 6),
        unpack16_lem msg 8 (length m.authorities) _ (at 8),
        unpack16_lem msg 10 (length m.additionals) _ (at 10),
        read_questions_lem msg (an ++ (ns ++ ar)) 12 m.questions h.questions (at 12),
        read_section_lem msg (ns ++ ar) (12 + length q) m.answers h.answers at_an,
        read_section_lem msg ar (12 + length q + length an) m.authorities h.authorities at_ns,
        read_section_lem msg [] (12 + length q + length an + length ns) m.additionals h.additionals
            at_ar,
        f.qr,
        f.opcode,
        f.aa,
        f.tc,
        f.rd,
        f.ra,
        f.rcode,
      )

  -- A message whose names are plain labels, whose numbers fit their fields and whose record data
  -- round-trips is written to bytes that are read back as the same message, all sections included.
  pub from_wire-to_wire :
      (m : Message) → IsMessage m → (b : Bytes) × (to_wire k m ≡ ok b) × (from_wire k b ≡ ok m)
  from_wire-to_wire m h = (header m ++ body m h, to_wire_lem m h, from_wire_lem m h _ refl)
