-- ===== src/Routes/Zones/Requests.antt =====
-- What the handlers of app/routes/zones.py read of a request: fields of a JSON object, and of a form.
use nova_dns.Prelude.{
  ℕ, zero, suc, ◌+◌, Bool, true, false, Option, none, some, List, [], ◌∷◌, String, if◌then◌else◌,
  Result, ok, err, type_error, below_zero, ◌>>=◌,
}
use nova_dns.Prelude.Int.{ℤ, pos, negsuc}
use package.text.Mathlib.Text.{◌==◌ as str_eq}
use nova_dns.Text.{Text, text_eq}
use nova_dns.Text.Number.{str_of}
use nova_dns.Wire.Types.{codes}
use nova_dns.Wire.Rdata.{
  Field, num, text, null, Value, item_or, as_text, strip, lstrip, rstrip, int_of_text,
}
use nova_dns.Db.{exists}

-- body.get(k)
unfoldable pub field : String → Value → Field
unfolding item_or
field k body = item_or k null body

-- the truth value of a field
unfoldable pub is_true : Field → Bool
is_true null = false
is_true (text []) = false
is_true (text (c ∷ s)) = true
is_true (num (pos zero)) = false
is_true (num (pos (suc n))) = true
is_true (num (negsuc n)) = true

-- field not in (None, "")
unfoldable pub is_given : Field → Bool
is_given null = false
is_given (text []) = false
is_given (text (c ∷ s)) = true
is_given (num n) = true

-- int(x)
unfoldable pub int_of_field : Field → Result ℤ
unfolding int_of_text
int_of_field (num n) = ok n
int_of_field (text s) = int_of_text s
int_of_field null = err type_error

-- a number for a column that holds none below 0
unfoldable pub natural : ℤ → Result ℕ
natural (pos n) = ok n
natural (negsuc n) = err below_zero

unfoldable pub nat_of_field : Field → Result ℕ
unfolding int_of_field natural
nat_of_field f = int_of_field f >>= natural

-- int(ttl) if ttl else None
unfoldable pub ttl_of : Field → Result (Option ℕ)
unfolding is_true nat_of_field
ttl_of f = elim (is_true f) [ true ↦ nat_of_field f >>= λ n. ok (some n) | false ↦ ok none ]

-- [int(i) for i in …]
unfoldable pub numbers_of : List Field → Result (List ℤ)
unfolding int_of_field
numbers_of [] = ok []
numbers_of (f ∷ fields) = do n ← int_of_field f; rest ← numbers_of fields; ok (n ∷ rest)

-- str(n)
unfoldable pub number_text : ℤ → Text
unfolding str_of
number_text (pos n) = str_of n
number_text (negsuc n) = 45 ∷ str_of (n + 1)

-- body.get(k, default).strip()
unfoldable pub stripped : String → Text → Value → Result Text
unfolding item_or as_text lstrip rstrip
stripped k default body = as_text (item_or k (text default) body) >>= λ s. ok (strip s)

-- x or None
unfoldable pub or_none : Text → Option Text
or_none [] = none
or_none (c ∷ s) = some (c ∷ s)

-- x or "@"
unfoldable pub or_apex : Text → Text
or_apex [] = codes "@"
or_apex (c ∷ s) = c ∷ s

-- RTYPE_FIELDS
abbrev pub rtype_fields : List (String × List String)
rtype_fields =
    ("A", "address" ∷ [])
    ∷ ("AAAA", "address" ∷ [])
    ∷ ("CNAME", "target" ∷ [])
    ∷ ("NS", "target" ∷ [])
    ∷ ("PTR", "target" ∷ [])
    ∷ ("MX", "priority" ∷ "target" ∷ [])
    ∷ ("TXT", "text" ∷ [])
    ∷ ("SRV", "priority" ∷ "weight" ∷ "port" ∷ "target" ∷ [])
    ∷ ("CAA", "flags" ∷ "tag" ∷ "value" ∷ [])
    ∷ ("NAPTR", "order" ∷ "preference" ∷ "flags" ∷ "service" ∷ "regexp" ∷ "replacement" ∷ [])
    ∷ ("TLSA", "usage" ∷ "selector" ∷ "matching_type" ∷ "cert_data" ∷ [])
    ∷ ("SSHFP", "algorithm" ∷ "fp_type" ∷ "fingerprint" ∷ [])
    ∷ ("DS", "key_tag" ∷ "algorithm" ∷ "digest_type" ∷ "digest" ∷ [])
    ∷ ("HTTPS", "priority" ∷ "target" ∷ "alpn" ∷ "port" ∷ "ipv4hint" ∷ "ipv6hint" ∷ [])
    ∷ []

-- RTYPE_FIELDS.get(rtype)
fields_in : List (String × List String) → Text → Option (List String)
unfolding text_eq
fields_in [] rtype = none
fields_in ((name, fields) ∷ table) rtype =
    let rest = fields_in table rtype in if text_eq (codes name) rtype then some fields else rest

-- the type that a request names, and its fields
unfoldable pub fields_for : Field → Option (Text × List String)
unfolding fields_in
fields_for (text rtype) = elim (fields_in rtype_fields rtype) [
  | none ↦ none
  | some fields ↦ some (rtype, fields)
]
fields_for (num n) = none
fields_for null = none

-- OPTIONAL_FIELDS.get(rtype, set()) | {"raw_hex"}
unfoldable pub optional_fields : Text → List String
unfolding text_eq
optional_fields rtype =
    if text_eq rtype (codes "HTTPS")
    then "alpn" ∷ "port" ∷ "ipv4hint" ∷ "ipv6hint" ∷ "raw_hex" ∷ []
    else "raw_hex" ∷ []

-- {f: body.get(f) for f in fields if body.get(f) not in (None, "")}
unfoldable pub given : List String → Value → Value
unfolding is_given field
given [] body = []
given (f ∷ fields) body =
    let rest = given fields body in
    if is_given (field f body) then (f, field f body) ∷ rest else rest

-- [f for f in fields if f not in data and f not in optional]
unfoldable pub missing : List String → List String → Value → List String
unfolding exists
missing [] optional body = []
missing (f ∷ fields) optional body =
    let rest = missing fields optional body in
    if exists (λ (e : String × Field). str_eq e.0 f) body
    then rest
    else if exists (str_eq f) optional
    then rest
    else f ∷ rest
