-- ===== src/Wire/Name/RoundTrip.antt =====
-- The round trip of names, `encode_name` and `decode_name` of app/dnscore/wire.py.
use nova_dns.Prelude.{
  ℕ, suc, ◌+◌, ◌<◌, ◌≡◌, ◌≢◌, refl, true, false, Option, List, [], ◌∷◌, ◌++◌, arith, length, drop,
  drop-suc, drop-past, slice-drop, drop-length, get_elem?-drop, length-append, ok, ◌∙◌, ap, lt→ltb,
}
use mathlib.Core.Path.{subst}
use mathlib.Core.List.{append_assoc}
use nova_dns.Text.{Text, dot, text_eq, is_ascii, rstrip_dot, join_dot}
use nova_dns.Text.Split.{NoDot, AllNoDot, split-join}
use nova_dns.Wire.Name.{
  Bytes, slice, decode_ascii, decode_name, dotted, label_bytes, encode_labels, encode_name,
}
use nova_dns.Wire.Name.Grammar.{NameAt, root, more, decode_name_iff_NameAt}

-- A label of ASCII characters, of 1 to 63 of them, with no dot in it.
pub record IsPlainLabel (s : Text) : Type 0 where
  pub ascii : is_ascii s ≡ true
  pub nonempty : 0 < length s
  pub short : length s < 64
  pub no_dot : NoDot s

abbrev pub AllPlain : List Text → Type 0
AllPlain [] = Unit
AllPlain (w ∷ ws) = IsPlainLabel w × AllPlain ws

-- RFC 1035: each label behind its length, and a zero byte.
unfoldable pub wire_form : List Text → Bytes
wire_form [] = 0 ∷ []
wire_form (w ∷ ws) = length w ∷ w ++ wire_form ws

decode_ascii-ascii : (s : Text) → is_ascii s ≡ true → decode_ascii s ≡ s
unfolding decode_ascii is_ascii
decode_ascii-ascii [] h = refl
decode_ascii-ascii (c ∷ s) h = ground (arith, decode_ascii-ascii s)

encode_labels-wire_form :
    (idna : Text → Option Bytes) (ws : List Text)
    → AllPlain ws
    → encode_labels idna ws ≡ ok (wire_form ws)
unfolding encode_labels wire_form
encode_labels-wire_form idna [] h = refl
encode_labels-wire_form idna (w ∷ ws) h =
    rw (h.0.ascii, label_bytes)
      (rw (lt→ltb (length w) 64 h.0.short) (rw (encode_labels-wire_form idna ws h.1)))

-- Wire form that stands in a message is a name of that message.
NameAt-wire_form :
    (msg rest : Bytes) (j o : ℕ) (ws : List Text)
    → AllPlain ws
    → drop o msg ≡ wire_form ws ++ rest
    → NameAt msg j o ws (o + length (wire_form ws))
unfolding wire_form
NameAt-wire_form msg rest j o [] h e = root (get_elem?-drop o msg e)
NameAt-wire_form msg rest j o (w ∷ ws) h e =
    let tail : drop (o + 1) msg ≡ w ++ (wire_form ws ++ rest) =
      drop-suc o msg e ∙ append_assoc w (wire_form ws) rest in
    let inner =
      NameAt-wire_form msg rest j (o + 1 + length w) ws h.1
        (drop-past (o + 1) msg w (wire_form ws ++ rest) tail) in
    let label : decode_ascii (slice msg (o + 1) (length w)) ≡ w =
      ap decode_ascii (slice-drop (o + 1) msg w (wire_form ws ++ rest) tail)
      ∙ decode_ascii-ascii w h.0.ascii in
    let here =
      more (length w) (get_elem?-drop o msg e)
        (record { nonzero = omega (arith, h.0.nonempty); plain = omega (arith, h.0.short) })
        inner in
    let end : o + 1 + length w + length (wire_form ws) ≡ o + suc (length (w ++ wire_form ws)) =
      omega (arith, length-append w (wire_form ws)) in
    subst (λ k. NameAt msg j o (w ∷ ws) k) end
      (subst (λ l. NameAt msg j o (l ∷ ws) (o + 1 + length w + length (wire_form ws))) label here)

-- A text that ends in no dot keeps all its characters under `rstrip`.
rstrip_dot-append : (s t : Text) → rstrip_dot t ≡ t → t ≢ [] → rstrip_dot (s ++ t) ≡ s ++ t
unfolding rstrip_dot text_eq
rstrip_dot-append [] t h n = h
rstrip_dot-append (c ∷ []) [] h n = absurd (n refl)
rstrip_dot-append (c ∷ []) (d ∷ t) h n = rw (h, rstrip_dot) (ground arith)
rstrip_dot-append (c ∷ d ∷ s) t h n = ground (arith, rstrip_dot-append (d ∷ s) t h n)

rstrip_dot-label : (s : Text) → NoDot s → rstrip_dot s ≡ s
unfolding rstrip_dot text_eq
rstrip_dot-label [] h = refl
rstrip_dot-label (c ∷ s) h = ground (arith, h.0, rstrip_dot-label s h.1)

append-ne-nil : (s t : Text) → t ≢ [] → s ++ t ≢ []
append-ne-nil [] t h = h
append-ne-nil (c ∷ s) t h = λ e. cc

join_dot-ne-nil : (w : Text) (ws : List Text) → AllPlain (w ∷ ws) → join_dot (w ∷ ws) ≢ []
unfolding join_dot
join_dot-ne-nil [] ws h = absurd (omega (arith, h.0.nonempty))
join_dot-ne-nil (c ∷ w) [] h = λ e. cc
join_dot-ne-nil (c ∷ w) (v ∷ ws) h = λ e. cc

rstrip_dot-join :
    (w : Text) (ws : List Text)
    → AllPlain (w ∷ ws)
    → rstrip_dot (join_dot (w ∷ ws)) ≡ join_dot (w ∷ ws)
unfolding join_dot
rstrip_dot-join w [] h = rstrip_dot-label w h.0.no_dot
rstrip_dot-join w (v ∷ ws) h =
    rstrip_dot-append w (dot ∷ join_dot (v ∷ ws))
      (rstrip_dot-append (dot ∷ []) (join_dot (v ∷ ws)) (rstrip_dot-join v ws h.1)
        (join_dot-ne-nil v ws h.1))
      (λ e. cc)

-- One closing dot makes no difference to `rstrip`.
rstrip_dot-dotted : (s : Text) → rstrip_dot (s ++ dot ∷ []) ≡ rstrip_dot s
unfolding rstrip_dot text_eq
rstrip_dot-dotted [] = refl
rstrip_dot-dotted (c ∷ s) = rw (rstrip_dot-dotted s, rstrip_dot)

AllNoDot-of_plain : (ws : List Text) → AllPlain ws → AllNoDot ws
AllNoDot-of_plain [] h = tt
AllNoDot-of_plain (w ∷ ws) h = (h.0.no_dot, AllNoDot-of_plain ws h.1)

text_eq_ne-nil : (s : Text) → s ≢ [] → text_eq s [] ≡ false
unfolding text_eq
text_eq_ne-nil [] h = absurd (h refl)
text_eq_ne-nil (c ∷ s) h = refl

-- `encode_name` writes plain labels in the wire form of RFC 1035, with or without a closing dot.
pub encode_name-wire_form :
    (idna : Text → Option Bytes) (w : Text) (ws : List Text)
    → AllPlain (w ∷ ws)
    → (encode_name idna (join_dot (w ∷ ws)) ≡ ok (wire_form (w ∷ ws)))
      × (encode_name idna (dotted (w ∷ ws)) ≡ ok (wire_form (w ∷ ws)))
unfolding encode_name
encode_name-wire_form idna w ws h = (
  stripped (join_dot (w ∷ ws)) (rstrip_dot-join w ws h),
  stripped (dotted (w ∷ ws)) (rstrip_dot-dotted (join_dot (w ∷ ws)) ∙ rstrip_dot-join w ws h),
)
  where
    stripped :
        (name : Text)
        → rstrip_dot name ≡ join_dot (w ∷ ws)
        → encode_name idna name ≡ ok (wire_form (w ∷ ws))
    stripped name e =
        rw (e, encode_name)
          (rw (text_eq_ne-nil _ (join_dot-ne-nil w ws h), encode_name)
            (rw (split-join w ws (AllNoDot-of_plain (w ∷ ws) h))
              (encode_labels-wire_form idna (w ∷ ws) h)))

-- A name of plain labels, encoded anywhere in a message, decodes to the same name (with its closing
-- dot) and to the offset right behind it.
pub decode-encode_name :
    (idna : Text → Option Bytes) (w : Text) (ws : List Text) (before rest : Bytes)
    → AllPlain (w ∷ ws)
    → (b : Bytes) × (encode_name idna (join_dot (w ∷ ws)) ≡ ok b)
      × (decode_name (before ++ (b ++ rest)) (length before)
          ≡ ok (dotted (w ∷ ws), length before + length b))
decode-encode_name idna w ws before rest h = (
  wire_form (w ∷ ws),
  (encode_name-wire_form idna w ws h).0,
  (decode_name_iff_NameAt _ (length before) _ _).1 (
    w ∷ ws,
    NameAt-wire_form _ rest 128 (length before) (w ∷ ws) h
        (drop-length before (wire_form (w ∷ ws) ++ rest)),
    refl,
  ),
)

-- A name as messages hold it: plain labels, written with the closing dot; "." for none.
pub record IsWireName (name : Text) : Type 0 where
  pub labels : List Text
  pub plain : AllPlain labels
  pub spelled : name ≡ dotted labels

pub encode_name-dotted :
    (idna : Text → Option Bytes) (name : Text) (n : IsWireName name)
    → encode_name idna name ≡ ok (wire_form n.labels)
encode_name-dotted idna name n = rw n.spelled (go n.labels n.plain)
  where
    go : (ls : List Text) → AllPlain ls → encode_name idna (dotted ls) ≡ ok (wire_form ls)
    go [] h = unfold encode_name wire_form in refl
    go (w ∷ ws) h = (encode_name-wire_form idna w ws h).1

pub decode_name-drop :
    (msg rest : Bytes) (o : ℕ) (name : Text) (n : IsWireName name)
    → drop o msg ≡ wire_form n.labels ++ rest
    → decode_name msg o ≡ ok (name, o + length (wire_form n.labels))
decode_name-drop msg rest o name n h =
    (decode_name_iff_NameAt msg o name _).1
      (n.labels, NameAt-wire_form msg rest 128 o n.labels n.plain h, n.spelled)
