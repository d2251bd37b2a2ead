-- ===== src/Wire/Message/Flags.antt =====
-- The flags word of `Message` in app/dnscore/wire.py, packed and unpacked.
use Prim.Native.Nat.{bit_or}
use nova_dns.Prelude.{
  tested, tested-at, ℕ, ◌+◌, ◌*◌, ◌/◌, ◌%◌, ◌<◌, ◌≡◌, refl, Bool, true, arith, ◌==◌, ==_iff,
}
use nova_dns.Wire.Message.{Message, flags_word}

-- Every flag stands in its own bits.
pub record InBits (m : Message) : Type 0 where
  pub qr : m.qr < 2
  pub opcode : m.opcode < 16
  pub aa : m.aa < 2
  pub tc : m.tc < 2
  pub rd : m.rd < 2
  pub ra : m.ra < 2
  pub rcode : m.rcode < 16

-- the seven fields as the digits of one number below 8192
abbrev by_digits : ℕ → Bool
by_digits x =
    bit_or
      (bit_or
        (bit_or
          (bit_or (bit_or (bit_or (x / 4096 * 32768) (x / 256 % 16 * 2048)) (x / 128 % 2 * 1024))
            (x / 64 % 2 * 512))
          (x / 32 % 2 * 256))
        (x / 16 % 2 * 128))
      (x % 16)
    == x / 4096 * 32768
      + x / 256 % 16 * 2048
      + x / 128 % 2 * 1024
      + x / 64 % 2 * 512
      + x / 32 % 2 * 256
      + x / 16 % 2 * 128
      + x % 16

digits_table : tested by_digits 8192 ≡ true
digits_table = refl

-- the digits of the number that the fields make
index : Message → ℕ
index m = m.qr * 4096 + m.opcode * 256 + m.aa * 128 + m.tc * 64 + m.rd * 32 + m.ra * 16 + m.rcode

pub flags_word-sum :
    (m : Message)
    → InBits m
    → flags_word m
      ≡ m.qr * 32768
        + m.opcode * 2048
        + m.aa * 1024
        + m.tc * 512
        + m.rd * 256
        + m.ra * 128
        + m.rcode
unfolding flags_word index
flags_word-sum m h =
    let x = index m in
    let e = (==_iff _ _).0 (tested-at by_digits 8192 x (omega arith) digits_table) in
    let d1 : x / 4096 ≡ m.qr = omega arith in
    let d2 : x / 256 % 16 ≡ m.opcode = omega arith in
    let d3 : x / 128 % 2 ≡ m.aa = omega arith in
    let d4 : x / 64 % 2 ≡ m.tc = omega arith in
    let d5 : x / 32 % 2 ≡ m.rd = omega arith in
    let d6 : x / 16 % 2 ≡ m.ra = omega arith in
    let d7 : x % 16 ≡ m.rcode = omega arith in cc (e, d1, d2, d3, d4, d5, d6, d7)

-- The flags that are read back from the word.
pub record ReadsBack (m : Message) (w : ℕ) : Type 0 where
  pub fits : w < 65536
  pub qr : w / 32768 % 2 ≡ m.qr
  pub opcode : w / 2048 % 16 ≡ m.opcode
  pub aa : w / 1024 % 2 ≡ m.aa
  pub tc : w / 512 % 2 ≡ m.tc
  pub rd : w / 256 % 2 ≡ m.rd
  pub ra : w / 128 % 2 ≡ m.ra
  pub rcode : w % 16 ≡ m.rcode

-- The word of flags that stand each in its own bits fits 16 bits, and every flag is read back from it.
pub flags_word-ReadsBack : (m : Message) → InBits m → ReadsBack m (flags_word m)
flags_word-ReadsBack m h = rw (flags_word-sum m h) (omega arith)
