-- ===== src/Wire/Name/Grammar.antt =====
-- The names of a message as `decode_name` of app/dnscore/wire.py reads them, as a relation. This is
-- wider than RFC 1035: any length byte below 192 announces a label, a pointer may lead anywhere in
-- the message, and a name may have more than 255 octets.
use nova_dns.Prelude.{
  ℕ, zero, suc, ◌+◌, ◌*◌, ◌%◌, ◌/◌, ◌<◌, ◌≡◌, refl, Option, none, some, List, [], ◌∷◌, ◌++◌, arith,
  length, get_elem?, Result, ok, err, Error, out_of_fuel, ◌↔◌, >>=-eq-ok, sym, ◌∙◌, ap,
}
use mathlib.Core.Path.{subst}
use mathlib.Core.List.{append_assoc, append-nil}
use nova_dns.Text.{Text}
use nova_dns.Wire.Name.{
  Bytes, Walk, slice, decode_ascii, decode_loop, decode_name, on_jump, walk_result, dotted,
}
use nova_dns.Wire.Name.Steps.{
  IsLabel, truncated, end, label, cut, jump, meets, lt_of_get_elem?, decode_loop-truncated,
  decode_loop-end, decode_loop-label, decode_loop-loop, decode_loop-cut, decode_loop-jump,
}

-- `NameAt msg jumps offset labels after`: at `offset` of the message stand these labels, reached
-- through at most `jumps` pointers, and the name takes the bytes up to `after`.
pub data NameAt (msg : Bytes) : ℕ → ℕ → List Text → ℕ → Type 0 where
  root : {j o : ℕ} → get_elem? msg o ≡ some 0 → NameAt msg j o [] (o + 1)
  more :
      {j o : ℕ} {ls : List Text} {after : ℕ} (len : ℕ)
      → get_elem? msg o ≡ some len
      → IsLabel len
      → NameAt msg j (o + 1 + len) ls after
      → NameAt msg j o (decode_ascii (slice msg (o + 1) len) ∷ ls) after
  pointer :
      {j o : ℕ} {ls : List Text} {after : ℕ} (len low : ℕ)
      → get_elem? msg o ≡ some len
      → len / 64 % 4 ≡ 3
      → get_elem? msg (o + 1) ≡ some low
      → NameAt msg j (len % 64 * 256 + low) ls after
      → NameAt msg (suc j) o ls (o + 2)

-- where the caller goes on, if a jump has been made at `resume` before
abbrev resumed : Option ℕ → ℕ → ℕ
resumed none after = after
resumed (some r) after = r

resumed-walk : (w : Walk) → (walk_result w).1 ≡ resumed w.resume w.final
resumed-walk w = ground arith

resumed-on_jump :
    (resume : Option ℕ) (o after : ℕ)
    → resumed (on_jump resume (o + 2)) after ≡ resumed resume (o + 2)
resumed-on_jump none o after = refl
resumed-on_jump (some r) o after = refl

wrong : {A : Type 0} {e : Error} {a : A} → ◌≡◌ {A = Result A} (err e) (ok a) → ⊥
wrong h = cc

-- What `sound` finds.
abbrev Found : Bytes → ℕ → ℕ → Option ℕ → List Text → Walk → Type 0
Found msg j o resume acc w =
    (ls : List Text) × (after : ℕ) × NameAt msg j o ls after
    × (w.labels ≡ acc ++ ls)
    × ((walk_result w).1 ≡ resumed resume after)

module _ (msg : Bytes) (j o : ℕ) (resume : Option ℕ) (acc : List Text) (w : Walk) where
  Found-end :
      get_elem? msg o ≡ some 0
      → ◌≡◌ {A = Result Walk} (ok (record { labels = acc; final = o + 1; resume = resume })) (ok w)
      → Found msg j o resume acc w
  Found-end e h = ([], o + 1, root e, ground (arith, append-nil acc), ground arith)

  Found-label :
      (len : ℕ)
      → get_elem? msg o ≡ some len
      → IsLabel len
      → Found msg j (o + 1 + len) resume (acc ++ decode_ascii (slice msg (o + 1) len) ∷ []) w
      → Found msg j o resume acc w
  Found-label len e l (ls, after, n, gathers, goes) =
      let piece = decode_ascii (slice msg (o + 1) len) in
      (piece ∷ ls, after, more len e l n, gathers ∙ append_assoc acc (piece ∷ []) ls, goes)

  Found-jump :
      (len low : ℕ)
      → get_elem? msg o ≡ some len
      → len / 64 % 4 ≡ 3
      → get_elem? msg (o + 1) ≡ some low
      → Found msg j (len % 64 * 256 + low) (on_jump resume (o + 2)) acc w
      → Found msg (suc j) o resume acc w
  Found-jump len low e q g (ls, after, n, gathers, goes) =
      (ls, o + 2, pointer len low e q g n, gathers, goes ∙ resumed-on_jump resume o after)

-- The loop's result on a name.
abbrev Walks : Result Walk → Option ℕ → List Text → List Text → ℕ → Type 0
Walks r resume acc ls after =
    (w : Walk) × (r ≡ ok w) × (w.labels ≡ acc ++ ls) × ((walk_result w).1 ≡ resumed resume after)

complete :
    {msg : Bytes} {j o : ℕ} {ls : List Text} {after : ℕ} (fuel : ℕ) (resume : Option ℕ)
    (acc : List Text)
    → length msg < o + fuel
    → 0 < fuel
    → NameAt msg j o ls after
    → Walks (decode_loop msg j fuel o resume acc) resume acc ls after
complete zero resume acc h p _ = elim p [ ]
complete {msg} (suc f) resume acc h p (root {j = j} {o = o} e) = (
  record { labels = acc; final = o + 1; resume = resume },
  decode_loop-end msg f o resume acc j e,
  sym (append-nil acc),
  resumed-walk (record { labels = acc; final = o + 1; resume = resume }),
)
complete {msg} (suc f) resume acc h p (more {j = j} {o = o} {ls = ls} len e l n) =
    let piece = decode_ascii (slice msg (o + 1) len) in
    let (w, runs, gathers, goes) =
      complete f resume (acc ++ piece ∷ []) (omega arith) (omega (arith, lt_of_get_elem? msg o e))
        n in
    (
      w,
      decode_loop-label msg f o resume acc j len e l ∙ runs,
      gathers ∙ append_assoc acc (piece ∷ []) ls,
      goes,
    )
complete {msg} (suc f) resume acc h p (pointer {j = j} {o = o} {after = after} len low e q g n) =
    let (w, runs, gathers, goes) =
      complete (suc (length msg)) (on_jump resume (o + 2)) acc (omega arith) (omega arith) n in
    (
      w,
      decode_loop-jump msg f o resume acc j len low e q g ∙ runs,
      gathers,
      goes ∙ resumed-on_jump resume o after,
    )

decode_loop-stuck :
    (msg : Bytes) (j o : ℕ) (resume : Option ℕ) (acc : List Text)
    → decode_loop msg j zero o resume acc ≡ err out_of_fuel
unfolding decode_loop
decode_loop-stuck msg zero o resume acc = refl
decode_loop-stuck msg (suc j) o resume acc = refl

sound :
    (msg : Bytes) (j fuel o : ℕ) (resume : Option ℕ) (acc : List Text) (w : Walk)
    → decode_loop msg j fuel o resume acc ≡ ok w
    → Found msg j o resume acc w
sound msg zero zero o r acc w h = absurd (wrong (sym (decode_loop-stuck msg zero o r acc) ∙ h))
sound msg (suc j) zero o r acc w h =
    absurd (wrong (sym (decode_loop-stuck msg (suc j) o r acc) ∙ h))
sound msg zero (suc f) o r acc w h = elim (meets msg o) [
  | truncated e ↦ absurd (wrong (sym (decode_loop-truncated msg f o r acc zero e) ∙ h))
  | end e ↦ Found-end msg zero o r acc w e (sym (decode_loop-end msg f o r acc zero e) ∙ h)
  | label len e l ↦ Found-label msg zero o r acc w len e l (
      sound msg zero f (o + 1 + len) r _ w (sym (decode_loop-label msg f o r acc zero len e l) ∙ h))
  | cut len e q g ↦ absurd (wrong (sym (decode_loop-loop msg f o r acc len e q) ∙ h))
  | jump len low e q g ↦ absurd (wrong (sym (decode_loop-loop msg f o r acc len e q) ∙ h))
]
sound msg (suc j) (suc f) o r acc w h = elim (meets msg o) [
  | truncated e ↦ absurd (wrong (sym (decode_loop-truncated msg f o r acc (suc j) e) ∙ h))
  | end e ↦ Found-end msg (suc j) o r acc w e (sym (decode_loop-end msg f o r acc (suc j) e) ∙ h)
  | label len e l ↦ Found-label msg (suc j) o r acc w len e l (
      sound msg (suc j) f (o + 1 + len) r _ w
        (sym (decode_loop-label msg f o r acc (suc j) len e l) ∙ h))
  | cut len e q g ↦ absurd (wrong (sym (decode_loop-cut msg f o r acc j len e q g) ∙ h))
  | jump len low e q g ↦ Found-jump msg j o r acc w len low e q g (
      sound msg j (suc (length msg)) (len % 64 * 256 + low) (on_jump r (o + 2)) acc w
        (sym (decode_loop-jump msg f o r acc j len low e q g) ∙ h))
]

pair_path : {a c : Text} {b d : ℕ} → a ≡ c → b ≡ d → ◌≡◌ {A = Text × ℕ} (a, b) (c, d)
pair_path p q = cc

-- `decode_name` returns a name exactly where labels stand that make it up, each behind a byte of its
-- length, other than 0 and below 192, up to a byte 0, reached through at most 128 pointers that lead
-- anywhere in the message; and with it the offset behind the name, or behind its first pointer.
pub decode_name_iff_NameAt :
    (msg : Bytes) (o : ℕ) (name : Text) (after : ℕ)
    → (decode_name msg o ≡ ok (name, after))
      ↔ ((ls : List Text) × NameAt msg 128 o ls after × (name ≡ dotted ls))
unfolding decode_name
decode_name_iff_NameAt msg o name after = (
  λ h.
      let (w, runs, result) =
        >>=-eq-ok (decode_loop msg 128 (suc (length msg)) o none []) (λ v. ok (walk_result v)) h in
      let (ls, last, n, gathers, goes) = sound msg 128 (suc (length msg)) o none [] w runs in
      let p : walk_result w ≡ (name, after) = ground arith in
      (
        ls,
        subst (λ k. NameAt msg 128 o ls k) (sym goes ∙ ap (λ (q : Text × ℕ). q.1) p) n,
        sym (ap (λ (q : Text × ℕ). q.0) p) ∙ ap dotted gathers,
      ),
  λ (ls, n, named).
      let (w, runs, gathers, goes) =
        complete (suc (length msg)) none [] (omega arith) (omega arith) n in
      rw runs (ap (λ (q : Text × ℕ). ok q) (pair_path (ap dotted gathers ∙ sym named) goes)),
)
