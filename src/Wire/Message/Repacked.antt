-- ===== src/Wire/Message/Repacked.antt =====
-- Messages of app/dnscore/wire.py that hold nothing but the questions of a message that was read.
use nova_dns.Prelude.{
  ◌/◌, ◌%◌, ◌<◌, ◌≡◌, refl, ap, List, [], ◌++◌, Result, ok, err, ◌>>=◌, arith, length, guard, not,
  ltb, dns_error,
}
use nova_dns.Prelude.Int.{pos}
use nova_dns.Wire.Name.{Bytes}
use nova_dns.Wire.Bytes.{pack16, unpack16}
use nova_dns.Wire.Bytes.Laws.{AllBytes, pack16_lem, unpack16-lt, be16}
use nova_dns.Wire.Rdata.{Codec}
use nova_dns.Wire.Message.Flags.{InBits, flags_word-ReadsBack}
use nova_dns.Wire.Message.{
  Message, Question, new_message, flags_word, from_wire, to_wire, write_questions, write_section,
  read_questions, read_rr_section,
}

read_message : Result Message → Message
read_message (ok m) = m
read_message (err e) = new_message

-- What holds of the value that a computation ends with, if it ends well.
record Yields {A : Type 0} (P : A → Type 0) (r : Result A) : Type 0 where
  yields : (a : A) → r ≡ ok a → P a

module _ {A B : Type 0} (P : B → Type 0) where
  Yields-then :
      (first : Result A) (next : A → Result B)
      → ((a : A) → first ≡ ok a → Yields P (next a))
      → Yields P (first >>= next)
  Yields-then (ok a) next h = h a refl
  Yields-then (err e) next h = record { yields = λ b c. cc }

module _ (k : Codec) where
  abbrev Fits : Message → Type 0
  Fits m = (m.id < 65536) × (m.rd < 2)

  Yields-from_wire : (msg : Bytes) → AllBytes msg → Yields Fits (from_wire k msg)
  unfolding from_wire read_message
  Yields-from_wire msg bytes =
      Yields-then Fits (guard (not (ltb (length msg) 12)) dns_error) _ λ g e0.
        Yields-then Fits (unpack16 msg 0) _ λ id e1. Yields-then Fits (unpack16 msg 2) _ λ flags e2.
          Yields-then Fits (unpack16 msg 4) _ λ qd e3. Yields-then Fits (unpack16 msg 6) _ λ an e4.
            Yields-then Fits (unpack16 msg 8) _ λ ns e5.
              Yields-then Fits (unpack16 msg 10) _ λ ar e6.
                Yields-then Fits (read_questions qd msg 12) _ λ q e7.
                  Yields-then Fits (read_rr_section k an msg q.1) _ λ a e8.
                    Yields-then Fits (read_rr_section k ns msg a.1) _ λ b e9.
                      Yields-then Fits (read_rr_section k ar msg b.1) _ λ c e10. record {
                        yields = λ m e.
                            let i : id ≡ m.id = ap (λ r. (read_message r).id) e in
                            let d : flags / 256 % 2 ≡ m.rd = ap (λ r. (read_message r).rd) e in
                            let small = unpack16-lt msg 0 bytes e1 in
                            (omega (arith, i, small), omega (arith, d));
                      }

  -- A message is read with an identifier of 16 bits and an RD bit.
  pub from_wire-lt : (msg : Bytes) (m : Message) → AllBytes msg → from_wire k msg ≡ ok m → Fits m
  from_wire-lt msg m bytes e = (Yields-from_wire msg bytes).yields m e

  abbrev ArePacked : List Question → Type 0
  ArePacked qs =
      ((b : Bytes) × (pack16 (pos (length qs)) ≡ ok b))
      × ((b : Bytes) × (write_questions k qs ≡ ok b))

  ArePacked-of : (m : Message) → Yields (λ (b : Bytes). ArePacked m.questions) (to_wire k m)
  unfolding to_wire
  ArePacked-of m =
      let P : Bytes → Type 0 = λ b. ArePacked m.questions in
      Yields-then P (pack16 (pos m.id)) _ λ b1 e1.
        Yields-then P (pack16 (pos (flags_word m))) _ λ b2 e2.
          Yields-then P (pack16 (pos (length m.questions))) _ λ b3 e3.
            Yields-then P (pack16 (pos (length m.answers))) _ λ b4 e4.
              Yields-then P (pack16 (pos (length m.authorities))) _ λ b5 e5.
                Yields-then P (pack16 (pos (length m.additionals))) _ λ b6 e6.
                  Yields-then P (write_questions k m.questions) _
                    λ b7 e7. record { yields = λ b e. ((b3, e3), (b7, e7)) }

  packed :
      (m : Message) (count qs : Bytes)
      → m.id < 65536
      → InBits m
      → m.answers ≡ []
      → m.authorities ≡ []
      → m.additionals ≡ []
      → pack16 (pos (length m.questions)) ≡ ok count
      → write_questions k m.questions ≡ ok qs
      → to_wire k m
        ≡ ok (
            be16 m.id
            ++ (be16 (flags_word m)
                ++ (count ++ (be16 0 ++ (be16 0 ++ (be16 0 ++ (qs ++ ([] ++ ([] ++ [])))))))))
  unfolding to_wire write_section
  packed m count qs small bits an au ad c q =
      rw
        (
          pack16_lem m.id small,
          pack16_lem (flags_word m) (flags_word-ReadsBack m bits).fits,
          c,
          an,
          au,
          ad,
          q,
        )
        refl

  -- A message without records can be packed, if its identifier and flags fit and a message of the
  -- same questions alone can be packed.
  pub to_wire-questions :
      (m : Message) {b : Bytes}
      → m.id < 65536
      → InBits m
      → m.answers ≡ []
      → m.authorities ≡ []
      → m.additionals ≡ []
      → to_wire k (record new_message { questions = m.questions }) ≡ ok b
      → (c : Bytes) × (to_wire k m ≡ ok c)
  to_wire-questions m {b} small bits an au ad e =
      let ((count, c), (qs, q)) =
        (ArePacked-of (record new_message { questions = m.questions })).yields b e in
      (_, packed m count qs small bits an au ad c q)
