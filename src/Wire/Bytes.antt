-- ===== src/Wire/Bytes.antt =====
-- Python's `struct.pack` and `struct.unpack` for the formats that app/dnscore uses (big-endian),
-- `bytes.hex` and `bytes.fromhex`.
pub mod Laws
use nova_dns.Prelude.{
  ℕ, zero, suc, ◌+◌, ◌-◌, ◌*◌, ◌/◌, ◌%◌, Bool, true, false, ◌&&◌, ◌||◌, Option, none, some, List,
  [], ◌∷◌, ◌++◌, ltb, leb, ◌==◌, if◌then◌else◌, length, drop, take, get_elem?, Result, ok, err,
  ◌>>=◌, or_raise, struct_error, index_error, value_error,
}
use nova_dns.Prelude.Int.{ℤ, pos, negsuc}
use nova_dns.Text.{Text}
use nova_dns.Wire.Name.{Bytes, slice}

-- pack("!B", n), pack("!H", n) and pack("!I", n)
unfoldable pub pack8 : ℤ → Result Bytes
pack8 (pos n) = if ltb n 256 then ok (n ∷ []) else err struct_error
pack8 (negsuc n) = err struct_error

unfoldable pub pack16 : ℤ → Result Bytes
pack16 (pos n) = if ltb n 65536 then ok (n / 256 ∷ n % 256 ∷ []) else err struct_error
pack16 (negsuc n) = err struct_error

unfoldable pub pack32 : ℤ → Result Bytes
pack32 (pos n) =
    if ltb n 4294967296
    then ok (n / 16777216 ∷ n / 65536 % 256 ∷ n / 256 % 256 ∷ n % 256 ∷ [])
    else err struct_error
pack32 (negsuc n) = err struct_error

-- One field of `unpack`, at an offset; an incomplete field raises struct.error.
unfoldable pub unpack8 : Bytes → ℕ → Result ℕ
unpack8 b o = elim (drop o b) [ [] ↦ err struct_error | x ∷ _ ↦ ok x ]

two_bytes : Bytes → Result ℕ
two_bytes (x ∷ y ∷ _) = ok (x * 256 + y)
two_bytes _ = err struct_error

unfoldable pub unpack16 : Bytes → ℕ → Result ℕ
unfolding two_bytes
unpack16 b o = two_bytes (drop o b)

four_bytes : Bytes → Result ℕ
four_bytes (x ∷ y ∷ z ∷ w ∷ _) = ok (x * 16777216 + y * 65536 + z * 256 + w)
four_bytes _ = err struct_error

unfoldable pub unpack32 : Bytes → ℕ → Result ℕ
unfolding four_bytes
unpack32 b o = four_bytes (drop o b)

-- b[i]
abbrev pub byte_at : Bytes → ℕ → Result ℕ
byte_at b i = or_raise index_error (get_elem? b i)

hex_digit : ℕ → ℕ
hex_digit n = if ltb n 10 then 48 + n else 87 + n

-- b.hex()
unfoldable pub hex : Bytes → Text
unfolding hex_digit
hex [] = []
hex (b ∷ bs) = hex_digit (b / 16) ∷ hex_digit (b % 16) ∷ hex bs

hex_value : ℕ → Option ℕ
hex_value c =
    if leb 48 c && leb c 57
    then some (c - 48)
    else if leb 97 c && leb c 102
    then some (c - 87)
    else if leb 65 c && leb c 70
    then some (c - 55)
    else none

-- ASCII white space
unfoldable pub is_space : ℕ → Bool
is_space c = c == 32 || (leb 9 c && leb c 13)

both : Option ℕ → Option ℕ → Result Bytes → Result Bytes
both (some x) (some y) rest = do bs ← rest; ok ((x * 16 + y) ∷ bs)
both _ _ rest = err value_error

-- bytes.fromhex(s): white space is skipped in front of a pair of digits
unfoldable pub from_hex : Text → Result Bytes
unfolding hex_value is_space both
from_hex [] = ok []
from_hex (c ∷ []) = if is_space c then ok [] else err value_error
from_hex (c ∷ d ∷ s) =
    let skipped = from_hex (d ∷ s) in
    let paired = both (hex_value c) (hex_value d) (from_hex s) in
    if is_space c then skipped else paired
