-- ===== src/Wire/Name.antt =====
-- The name codec of app/dnscore/wire.py: `encode_name` and `decode_name`.
-- `idna` is Python's codec of that name (none where it raises UnicodeError).
pub mod Steps
pub mod Grammar
pub mod Safety
pub mod RoundTrip
use nova_dns.Prelude.{
  ℕ, zero, suc, ◌+◌, ◌*◌, ◌/◌, ◌%◌, Bool, true, false, Option, none, some, List, [], ◌∷◌, ◌++◌, map,
  ltb, ◌==◌, ◌&&◌, length, take, drop, get_elem?, if◌then◌else◌, Result, ok, err, ◌>>=◌, ◌>>◌,
  guard, Error, dns_error, out_of_fuel,
}
use nova_dns.Text.{Text, dot, text_eq, is_ascii, rstrip_dot, split_dot, split_from, join_dot}

abbrev pub Bytes : Type 0
Bytes = List ℕ

-- b[start:end], given the length of the slice
abbrev pub slice : Bytes → ℕ → ℕ → Bytes
slice b start n = take n (drop start b)

unfoldable pub is_surrogate : ℕ → Bool
is_surrogate c = ltb 55295 c && ltb c 57344

-- One code point in UTF-8; surrogates are dropped by errors="ignore".
utf8_char : ℕ → Bytes
unfolding is_surrogate
utf8_char c =
    if ltb c 128
    then c ∷ []
    else if ltb c 2048
    then (192 + c / 64) ∷ (128 + c % 64) ∷ []
    else if is_surrogate c
    then []
    else if ltb c 65536
    then (224 + c / 4096) ∷ (128 + c / 64 % 64) ∷ (128 + c % 64) ∷ []
    else (240 + c / 262144) ∷ (128 + c / 4096 % 64) ∷ (128 + c / 64 % 64) ∷ (128 + c % 64) ∷ []

-- s.encode("utf-8", errors="ignore")
unfoldable pub utf8 : Text → Bytes
unfolding utf8_char
utf8 [] = []
utf8 (c ∷ s) = utf8_char c ++ utf8 s

module _ (idna : Text → Option Bytes) where
  -- the bytes of one label; an ASCII label is its own encoding
  unfoldable pub label_bytes : Text → Bytes
  unfolding is_ascii utf8
  label_bytes label =
      if is_ascii label
      then label
      else elim (idna label) [ some b ↦ b | none ↦ take 63 (utf8 label) ]

  -- the loop over `name.split(".")`, with the final zero byte
  unfoldable pub encode_labels : List Text → Result Bytes
  unfolding label_bytes
  encode_labels [] = ok (0 ∷ [])
  encode_labels (label ∷ labels) = do
    let b = label_bytes label
    guard (ltb (length b) 64) dns_error
    rest ← encode_labels labels
    ok (length b ∷ b ++ rest)

  unfoldable pub encode_name : Text → Result Bytes
  unfolding encode_labels rstrip_dot text_eq split_from
  encode_name name =
      let stripped = rstrip_dot name in
      if text_eq stripped [] then ok (0 ∷ []) else encode_labels (split_dot stripped)

-- b.decode("ascii", errors="replace")
unfoldable pub decode_ascii : Bytes → Text
decode_ascii = map (λ b. if ltb b 128 then b else 65533)

-- What the loop of `decode_name` has gathered when it ends: the labels, the offset after the last
-- byte read, and `start_offset`, which is set at the first jump.
pub record Walk : Type 0 where
  pub labels : List Text
  pub final : ℕ
  pub resume : Option ℕ

abbrev pub on_jump : Option ℕ → ℕ → Option ℕ
on_jump none o = some o
on_jump (some r) o = some r

-- The loop. `jumps_left` is 128 - seen_pointers, and `fuel` bounds the labels between two jumps:
-- each label moves the offset on, so fuel of one more than the message's length is enough.
-- `length & 0xC0 == 0xC0` reads the two top bits of a byte, and `length & 0x3F` the other six.
unfoldable pub decode_loop : Bytes → ℕ → ℕ → ℕ → Option ℕ → List Text → Result Walk
unfolding decode_ascii
decode_loop msg jumps_left zero offset resume labels = err out_of_fuel
decode_loop msg zero (suc fuel) offset resume labels = elim (get_elem? msg offset) [
  | none ↦ err dns_error
  | some len ↦
      if len == 0
      then ok (record { labels = labels; final = offset + 1; resume = resume })
      else if len / 64 % 4 == 3
      then err dns_error
      else decode_loop msg zero fuel (offset + 1 + len) resume
          (labels ++ decode_ascii (slice msg (offset + 1) len) ∷ [])
]
decode_loop msg (suc jumps_left) (suc fuel) offset resume labels = elim (get_elem? msg offset) [
  | none ↦ err dns_error
  | some len ↦
      let next =
        decode_loop msg (suc jumps_left) fuel (offset + 1 + len) resume
          (labels ++ decode_ascii (slice msg (offset + 1) len) ∷ []) in
      if len == 0
      then ok (record { labels = labels; final = offset + 1; resume = resume })
      else if len / 64 % 4 == 3
      then (elim (get_elem? msg (offset + 1)) [
        | none ↦ err dns_error
        | some low ↦
            decode_loop msg jumps_left (suc (length msg)) (len % 64 * 256 + low)
              (on_jump resume (offset + 2)) labels
      ])
      else next
]

-- ".".join(labels) + "." if labels else "."
abbrev pub dotted : List Text → Text
dotted [] = dot ∷ []
dotted (w ∷ ws) = join_dot (w ∷ ws) ++ dot ∷ []

abbrev pub walk_result : Walk → Text × ℕ
walk_result w = (dotted w.labels, elim w.resume [ none ↦ w.final | some r ↦ r ])

unfoldable pub decode_name : Bytes → ℕ → Result (Text × ℕ)
unfolding decode_loop join_dot
decode_name msg offset = do
  w ← decode_loop msg 128 (suc (length msg)) offset none []
  ok (walk_result w)
