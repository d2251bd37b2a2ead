-- ===== src/Text.antt =====
-- Python's `str` and `bytes` as lists of numbers: code points in a text, 0 to 255 in bytes.
-- `lower` is `str.lower` on ASCII letters; every other code point is left alone.
pub mod Split
pub mod Matching
pub mod Number
pub mod Order
use nova_dns.Prelude.{
  ℕ, ◌+◌, ◌-◌, Bool, true, false, ◌&&◌, List, [], ◌∷◌, ◌++◌, map, ltb, leb, ◌==◌, length, drop,
  if◌then◌else◌,
}

abbrev pub Text : Type 0
Text = List ℕ

abbrev pub dot : ℕ
dot = 46

-- a == b on texts and bytes
unfoldable pub text_eq : Text → Text → Bool
text_eq [] [] = true
text_eq [] (y ∷ ys) = false
text_eq (x ∷ xs) [] = false
text_eq (x ∷ xs) (y ∷ ys) = x == y && text_eq xs ys

-- s.isascii()
unfoldable pub is_ascii : Text → Bool
is_ascii [] = true
is_ascii (c ∷ s) = ltb c 128 && is_ascii s

-- s.rstrip(".")
unfoldable pub rstrip_dot : Text → Text
rstrip_dot [] = []
rstrip_dot (c ∷ s) = let rest = rstrip_dot s in if c == dot && text_eq rest [] then [] else c ∷ rest

-- s.split("."): `word` is what has been read of the current part
unfoldable pub split_from : Text → Text → List Text
split_from word [] = word ∷ []
split_from word (c ∷ s) =
    let next = split_from [] s in
    let more = split_from (word ++ c ∷ []) s in if c == dot then word ∷ next else more

abbrev pub split_dot : Text → List Text
split_dot = split_from []

-- ".".join(parts)
unfoldable pub join_dot : List Text → Text
join_dot [] = []
join_dot (w ∷ []) = w
join_dot (w ∷ v ∷ ws) = w ++ dot ∷ join_dot (v ∷ ws)

unfoldable pub to_lower : ℕ → ℕ
to_lower c = if leb 65 c && leb c 90 then c + 32 else c

-- s.lower()
unfoldable pub lower : Text → Text
unfolding to_lower
lower = map to_lower

-- s.startswith(prefix)
unfoldable pub starts_with : Text → Text → Bool
starts_with s [] = true
starts_with [] (p ∷ ps) = false
starts_with (c ∷ s) (p ∷ ps) = c == p && starts_with s ps

-- s.endswith(suffix)
unfoldable pub ends_with : Text → Text → Bool
unfolding text_eq
ends_with s suffix =
    leb (length suffix) (length s) && text_eq (drop (length s - length suffix) s) suffix

-- the name as a key: s.rstrip(".").lower()
unfoldable pub fold_name : Text → Text
unfolding rstrip_dot lower text_eq
fold_name s = lower (rstrip_dot s)
