-- ===== src/Wire/Rdata/Decode/Endings.antt =====
-- The ends of the loops of `decode_rdata` in app/dnscore/wire.py, and their fuel.
use nova_dns.Prelude.{
  ℕ, zero, suc, ◌+◌, ◌<◌, ◌≡◌, ◌≢◌, refl, Bool, true, false, Option, none, some, [], ◌∷◌, arith,
  ltb, ◌==◌, if◌then◌else◌, length, Result, ok, err, ◌>>=◌, or_raise, out_of_fuel, value_error,
}
use nova_dns.Text.{Text}
use nova_dns.Wire.Name.{Bytes, slice, decode_name}
use nova_dns.Wire.Name.Safety.{decode_name_ends, decode_name_bounds}
use nova_dns.Wire.Bytes.{unpack8, unpack16, unpack32, byte_at}
use nova_dns.Wire.Rdata.{
  Value, Codec, text, Kind, a, aaaa, target, mx, txt, soa, srv, caa, naptr, tlsa, sshfp, ds, https,
  opaque, kind_of,
}
use nova_dns.Wire.Rdata.Decode.{
  decode_rdata, nat_field, decode_kind, txt_loop, svc_loop, svc_param, alpn_names, hint_texts,
  exactly_16, read_str, strict_ascii, address_of, decode_soa, decode_srv, decode_caa, decode_naptr,
  decode_tlsa, decode_sshfp, decode_ds, decode_https,
}

-- The result is not the model's mark of spent fuel.
pub record Ends {ℓ} {A : Type ℓ} (r : Result A) : Type ℓ where
  pub not_cut : r ≢ err out_of_fuel

pub Ends-ok {ℓ} : {A : Type ℓ} (x : A) → Ends (ok x)
Ends-ok x = record { not_cut = λ e. cc }

Ends-bind {ℓ κ} :
    {A : Type ℓ} {B : Type κ} (m : Result A) (f : A → Result B)
    → Ends m
    → ((x : A) → m ≡ ok x → Ends (f x))
    → Ends (m >>= f)
Ends-bind (ok x) f h k = k x refl
Ends-bind (err e) f h k = record { not_cut = λ p. h.not_cut (ground arith) }

pub Ends-then {ℓ κ} :
    {A : Type ℓ} {B : Type κ} (m : Result A) (f : A → Result B)
    → Ends m
    → ((x : A) → Ends (f x))
    → Ends (m >>= f)
Ends-then m f h k = Ends-bind m f h (λ x _. k x)

Ends-if {ℓ} :
    {A : Type ℓ} (b : Bool) (x y : Result A)
    → (b ≡ true → Ends x)
    → (b ≡ false → Ends y)
    → Ends (if b then x else y)
Ends-if true x y hx hy = hx refl
Ends-if false x y hx hy = hy refl

Ends-raise {ℓ} : {A : Type ℓ} (o : Option A) → Ends (or_raise value_error o)
Ends-raise none = record { not_cut = λ e. cc }
Ends-raise (some x) = Ends-ok x

Ends-byte_at : (msg : Bytes) (o : ℕ) → Ends (byte_at msg o)
Ends-byte_at msg o = record { not_cut = λ e. ground arith }

Ends-unpack8 : (msg : Bytes) (o : ℕ) → Ends (unpack8 msg o)
unfolding unpack8
Ends-unpack8 msg o = record { not_cut = λ e. ground arith }

pub Ends-unpack16 : (msg : Bytes) (o : ℕ) → Ends (unpack16 msg o)
unfolding unpack16
Ends-unpack16 msg o = record { not_cut = λ e. ground arith }

pub Ends-unpack32 : (msg : Bytes) (o : ℕ) → Ends (unpack32 msg o)
unfolding unpack32
Ends-unpack32 msg o = record { not_cut = λ e. ground arith }

pub Ends-decode_name : (msg : Bytes) (o : ℕ) → Ends (decode_name msg o)
Ends-decode_name msg o = record { not_cut = decode_name_ends msg o }

Ends-strict_ascii : (b : Bytes) → Ends (strict_ascii b)
unfolding strict_ascii
Ends-strict_ascii b = record { not_cut = λ e. ground arith }

ruleset endings = (
  Ends-ok, Ends-then, Ends-raise, Ends-byte_at, Ends-unpack8, Ends-unpack16, Ends-unpack32,
  Ends-decode_name, Ends-strict_ascii,
)

Ends-alpn_names :
    (f : ℕ) (pval : Bytes) (q : ℕ) → length pval < q + f → 0 < f → Ends (alpn_names f pval q)
unfolding alpn_names
Ends-alpn_names zero pval q h p = elim p [ ]
Ends-alpn_names (suc f) pval q h p =
    Ends-if (ltb q (length pval)) _ _
      (λ more. Ends-then _ _ (Ends-byte_at pval q) (λ n.
        Ends-then _ _ (Ends-alpn_names f pval (q + 1 + n) (omega arith) (ground arith))
          (λ r. Ends-ok _)))
      (λ done. Ends-ok [])

Ends-hint_texts :
    (f : ℕ) (text_of : Bytes → Option Text) (size : ℕ) (b : Bytes)
    → Ends (hint_texts f text_of size b)
unfolding hint_texts
Ends-hint_texts zero text_of size b = Ends-ok []
Ends-hint_texts (suc f) text_of size [] = Ends-ok []
Ends-hint_texts (suc f) text_of size (c ∷ b) =
    Ends-then _ _ (Ends-raise _)
      (λ t. Ends-then _ _ (Ends-hint_texts f text_of size _) (λ r. Ends-ok _))

Ends-txt_loop :
    (u : Bytes → Text) (f : ℕ) (msg : Bytes) (p end : ℕ)
    → end < p + f
    → 0 < f
    → Ends (txt_loop u f msg p end)
unfolding txt_loop
Ends-txt_loop u zero msg p end h z = elim z [ ]
Ends-txt_loop u (suc f) msg p end h z =
    Ends-if (ltb p end) _ _
      (λ more. Ends-then _ _ (Ends-byte_at msg p) (λ n.
        Ends-then _ _ (Ends-txt_loop u f msg (p + 1 + n) end (omega arith) (ground arith))
          (λ r. Ends-ok _)))
      (λ done. Ends-ok [])

Ends-exactly_16 : (pval : Bytes) → Ends (exactly_16 pval)
unfolding exactly_16
Ends-exactly_16 pval =
    Ends-if (length pval == 2) _ _ (λ e. Ends-unpack16 pval 0) (λ e. record { not_cut = λ x. cc })

Ends-read_str : (msg : Bytes) (p : ℕ) → Ends (read_str msg p)
unfolding read_str
Ends-read_str msg p = Ends-then _ _ (Ends-byte_at msg p) (λ n. Ends-ok _)

module _ (k : Codec) where
  Ends-svc_param : (key : ℕ) (pval : Bytes) (v : Value) → Ends (svc_param k key pval v)
  unfolding svc_param
  Ends-svc_param key pval v =
      Ends-if (key == 1) _ _
        (λ _.
          Ends-then _ _ (Ends-alpn_names (suc (length pval)) pval 0 (omega arith) (omega arith))
            (λ r. Ends-ok _))
        (λ _.
          Ends-if (key == 3) _ _ (λ _. Ends-then _ _ (Ends-exactly_16 pval) (λ r. Ends-ok _))
            (λ _.
              Ends-if (key == 4) _ _
                (λ _.
                  Ends-then _ _ (Ends-hint_texts (length pval) k.v4_text 4 pval) (λ r. Ends-ok _))
                (λ _.
                  Ends-if (key == 6) _ _
                    (λ _.
                      Ends-then _ _ (Ends-hint_texts (length pval) k.v6_text 16 pval)
                        (λ r. Ends-ok _))
                    (λ _. Ends-ok v))))

  Ends-svc_loop :
      (f : ℕ) (msg : Bytes) (p end : ℕ) (v : Value)
      → end < p + f
      → 0 < f
      → Ends (svc_loop k f msg p end v)
  unfolding svc_loop
  Ends-svc_loop zero msg p end v h z = elim z [ ]
  Ends-svc_loop (suc f) msg p end v h z =
      Ends-if (ltb p end) _ _
        (λ more. Ends-then _ _ (Ends-unpack16 msg p) (λ key.
          Ends-then _ _ (Ends-unpack16 msg (p + 2)) (λ n.
            Ends-then _ _ (Ends-svc_param key (slice msg (p + 4) n) v)
              (λ v'. Ends-svc_loop f msg (p + 4 + n) end v' (omega arith) (ground arith)))))
        (λ done. Ends-ok v)

  Ends-decode_https :
      (msg : Bytes) (o rdlength : ℕ) → Ends (decode_https k msg o rdlength (o + rdlength))
  unfolding decode_https
  Ends-decode_https msg o rdlength = Ends-then _ _ (Ends-unpack16 msg o) (λ priority.
      Ends-bind _ _ (Ends-decode_name msg (o + 2)) (λ np e.
        Ends-svc_loop (suc rdlength) msg np.1 (o + rdlength)
          (("priority", nat_field priority) ∷ ("target", text np.0) ∷ [])
          (omega (arith, decode_name_bounds msg (o + 2) np.0 np.1 e)) (omega arith)))

  Ends-decode_kind : (kd : Kind) (msg : Bytes) (o n : ℕ) → Ends (decode_kind k kd msg o n)
  unfolding decode_kind address_of decode_soa decode_srv decode_caa decode_naptr decode_tlsa
      decode_sshfp decode_ds
  Ends-decode_kind a msg o n = search endings
  Ends-decode_kind aaaa msg o n = search endings
  Ends-decode_kind target msg o n = search endings
  Ends-decode_kind mx msg o n = search endings
  Ends-decode_kind txt msg o n =
      Ends-then _ _ (Ends-txt_loop k.utf8_replace (suc n) msg o (o + n) (omega arith) (omega arith))
        (λ t. Ends-ok _)
  Ends-decode_kind https msg o n = Ends-decode_https msg o n
  Ends-decode_kind soa msg o n = search endings depth 9
  Ends-decode_kind srv msg o n = search endings depth 9
  Ends-decode_kind caa msg o n = search endings depth 9
  Ends-decode_kind naptr msg o n = search (endings, Ends-read_str) depth 9
  Ends-decode_kind tlsa msg o n = search endings depth 9
  Ends-decode_kind sshfp msg o n = search endings depth 9
  Ends-decode_kind ds msg o n = search endings depth 9
  Ends-decode_kind opaque msg o n = Ends-ok _

  -- The loops over character strings, SvcParams and ALPN names have fuel enough for every input.
  pub decode_rdata_ends :
      (rtype : Text) (msg : Bytes) (o n : ℕ) → decode_rdata k rtype msg o n ≢ err out_of_fuel
  unfolding decode_rdata
  decode_rdata_ends rtype msg o n = (Ends-decode_kind (kind_of rtype) msg o n).not_cut
