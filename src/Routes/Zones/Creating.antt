-- ===== src/Routes/Zones/Creating.antt =====
-- The handlers of app/routes/zones.py that make, change and delete a zone: `new_zone` with
-- ZONE_TEMPLATES, `simple_mode`, `update_soa` and `delete_zone`. A form is a dictionary of texts.
use nova_dns.Prelude.{
  ℕ, zero, suc, ◌+◌, ◌-◌, Bool, true, false, Option, none, some, List, [], ◌∷◌, ◌++◌, ◌==◌, String,
  if◌then◌else◌, length, Result, ok,
}
use nova_dns.Prelude.Int.{pos}
use package.text.Mathlib.Text.{◌==◌ as str_eq}
use nova_dns.Dict
use nova_dns.Text.{Text, text_eq, rstrip_dot, dot, starts_with}
use nova_dns.Wire.Types.{codes}
use nova_dns.Wire.Rdata.{Field, num, text, null, Value, find, item_or, strip, lstrip, rstrip}
use nova_dns.Run.{Run, ◌>>=◌, ◌>>◌, pure, lift, read}
use nova_dns.Db.{Db, Zone, exists}
use nova_dns.Db.Statements.{
  zone_of, insert_record, insert_zone, update_zone, delete_zone_row, audit,
}
use nova_dns.ZoneSigning.Signing.{Signer}
use nova_dns.Routes.{Site, Reply, done, redirected, put_db, on_db, bust_cache, refuse_if}
use nova_dns.Routes.Zones.Requests.{nat_of_field, number_text, or_none}
use nova_dns.Routes.Zones.Records.{with_zone, zone_found, quoted, resign_if_enabled}

abbrev pub Form : Type 0
Form = List (String × Text)

-- request.form.get(k, default)
unfoldable pub form_get : String → Text → Form → Text
unfolding Dict.get
form_get k default form = elim (Dict.get str_eq k form) [ none ↦ default | some v ↦ v ]

-- int(request.form.get(k, 3600))
unfoldable pub form_ttl : String → Form → Result ℕ
unfolding Dict.get nat_of_field
form_ttl k form = elim (Dict.get str_eq k form) [ none ↦ ok 3600 | some v ↦ nat_of_field (text v) ]

-- s.replace(old, new) for a text `old` that is not empty: `skip` characters are of a match
replace_from : ℕ → Text → Text → Text → Text
replace_from skip old new [] = []
replace_from skip old new (c ∷ s) = elim skip [
  | suc k ↦ replace_from k old new s
  | zero ↦ elim (starts_with (c ∷ s) old) [
    | true ↦ new ++ replace_from (length old - 1) old new s
    | false ↦ c ∷ replace_from 0 old new s
  ]
]

unfoldable pub replace : String → Text → Text → Text
unfolding replace_from starts_with
replace old new s = replace_from 0 (codes old) new s

-- A record of a template: its fields' texts may hold "{IP}" and "{ZONE}".
pub record Template : Type 0 where
  pub name : Text
  pub rtype : Text
  pub fields : Value
  pub client_match : Text

abbrev address_record : String → String → Template
address_record name client_match = record {
  name = codes name;
  rtype = codes "A";
  fields = ("address", text (codes "{IP}")) ∷ [];
  client_match = codes client_match;
}

-- ZONE_TEMPLATES: the records of each
abbrev pub zone_templates : List (String × List Template)
zone_templates =
    ("blank", [])
    ∷ ("basic_web", address_record "@" "" ∷ address_record "www" "" ∷ [])
    ∷ (
      "web_and_mail",
      address_record "@" ""
          ∷ address_record "www" ""
          ∷ address_record "mail" ""
          ∷ record {
            name = codes "@";
            rtype = codes "MX";
            fields = ("priority", num (pos 10)) ∷ ("target", text (codes "mail.{ZONE}.")) ∷ [];
            client_match = [];
          }
          ∷ record {
            name = codes "@";
            rtype = codes "TXT";
            fields = ("text", text (codes "v=spf1 mx ~all")) ∷ [];
            client_match = [];
          }
          ∷ [],
    )
    ∷ ("internal_service", address_record "@" "{ACL}" ∷ [])
    ∷ []

-- ZONE_TEMPLATES.get(template_id, ZONE_TEMPLATES["blank"])
unfoldable pub template_of : Text → List (String × List Template) → List Template
unfolding text_eq
template_of template_id [] = []
template_of template_id ((name, records) ∷ table) =
    let rest = template_of template_id table in
    if text_eq (codes name) template_id then records else rest

-- {k: v.replace("{IP}", ip).replace("{ZONE}", name) if isinstance(v, str) else v …}
fill_field : Text → Text → Field → Field
unfolding replace
fill_field ip name (text v) = text (replace "{ZONE}" name (replace "{IP}" ip v))
fill_field ip name (num n) = num n
fill_field ip name null = null

unfoldable pub fill_fields : Text → Text → Value → Value
unfolding fill_field
fill_fields ip name [] = []
fill_fields ip name ((k, v) ∷ fields) = (k, fill_field ip name v) ∷ fill_fields ip name fields

-- f"ns1.{name}."
abbrev pub under : String → Text → Text
under label name = codes label ++ (name ++ dot ∷ [])

-- for rec in template["records"]: …
unfoldable pub insert_templates : ℕ → ℕ → Text → Text → Text → List Template → Run Db (Unit {0})
unfolding insert_record fill_fields replace or_none
insert_templates zone_id ttl ip name acl [] = pure tt
insert_templates zone_id ttl ip name acl (rec ∷ records) = do
  id ←
      insert_record zone_id rec.name rec.rtype (some ttl) (fill_fields ip name rec.fields)
        (or_none (replace "{ACL}" acl rec.client_match))
  insert_templates zone_id ttl ip name acl records

-- form.get(k, "").strip()
abbrev pub stripped_of : String → Form → Text
stripped_of k form = strip (form_get k [] form)

unfoldable pub new_zone : Form → Run Site Reply
unfolding form_get form_ttl insert_zone insert_record insert_templates template_of audit quoted
    bust_cache put_db rstrip_dot lstrip rstrip
new_zone form = do
  let name = rstrip_dot (stripped_of "name" form)
  ttl ← lift (form_ttl "default_ttl" form)
  let template_id = form_get "template" (codes "blank") form
  let ip = stripped_of "template_ip" form
  let acl = stripped_of "template_acl" form
  zone_id ← on_db (insert_zone name ttl (under "ns1." name) (under "admin." name))
  id ← on_db (
      insert_record zone_id (codes "@") (codes "NS") (some ttl)
        (("target", text (under "ns1." name)) ∷ []) none)
  on_db (insert_templates zone_id ttl ip name acl (template_of template_id zone_templates))
  on_db (
      audit (quoted (codes "Created zone ") name (quoted (codes " from template ") template_id []))
        (codes "dns"))
  bust_cache
  pure (redirected zone_id)

-- SELECT id FROM zones WHERE name=?
unfoldable pub name_taken : Text → Db → Bool
unfolding exists text_eq
name_taken name db = exists (λ z. text_eq z.name name) db.zones

-- ":" in ip
has_colon : Text → Bool
unfolding exists
has_colon = exists (λ c. c == 58)

unfoldable pub create_simple : Text → Text → ℕ → Run Site Reply
unfolding has_colon insert_zone insert_record audit quoted bust_cache put_db
create_simple domain ip ttl = do
  let rtype = if has_colon ip then codes "AAAA" else codes "A"
  let values : Value = ("address", text ip) ∷ []
  zone_id ← on_db (insert_zone domain ttl (under "ns1." domain) (under "admin." domain))
  first ← on_db (insert_record zone_id (codes "@") rtype (some ttl) values none)
  second ← on_db (insert_record zone_id (codes "www") rtype (some ttl) values none)
  on_db (audit (quoted (codes "Created zone ") domain (codes " via Simple DNS Mode")) (codes "dns"))
  bust_cache
  pure (redirected zone_id)

-- The page that is shown again with an error has status 200.
unfoldable pub simple_mode : Form → Run Site Reply
unfolding form_get form_ttl name_taken create_simple put_db rstrip_dot lstrip rstrip refuse_if
simple_mode form = do
  let domain = rstrip_dot (stripped_of "domain" form)
  let ip = stripped_of "ip" form
  ttl ← lift (form_ttl "ttl" form)
  taken ← on_db (read (name_taken domain))
  refuse_if taken 200 (create_simple domain ip ttl)

-- body.get(k, default) for a nullable text column, which keeps a number as its text
unfoldable pub text_or_default : String → Option Text → Value → Option Text
unfolding find number_text
text_or_default k default body = elim (find k body) [
  | none ↦ default
  | some f ↦ elim f [ text t ↦ some t | num n ↦ some (number_text n) | null ↦ none ]
]

-- int(body.get(k, default))
unfoldable pub nat_or_default : String → ℕ → Value → Result ℕ
unfolding item_or nat_of_field
nat_or_default k default body = nat_of_field (item_or k (num (pos default)) body)

unfoldable pub update_soa : Signer → ℕ → Value → Run Site Reply
unfolding zone_found zone_of text_or_default nat_or_default update_zone audit quoted
    resign_if_enabled bust_cache put_db
update_soa s zone_id body = with_zone zone_id λ zone. do
  refresh ← lift (nat_or_default "refresh" zone.soa_refresh body)
  retry ← lift (nat_or_default "retry" zone.soa_retry body)
  expire ← lift (nat_or_default "expire" zone.soa_expire body)
  minimum ← lift (nat_or_default "minimum" zone.soa_minimum body)
  on_db (
      update_zone
        (λ z. record z {
          soa_mname = text_or_default "mname" zone.soa_mname body;
          soa_rname = text_or_default "rname" zone.soa_rname body;
          soa_refresh = refresh;
          soa_retry = retry;
          soa_expire = expire;
          soa_minimum = minimum;
          soa_serial = z.soa_serial + 1;
        })
        zone_id)
  on_db (audit (quoted (codes "Updated SOA for zone ") zone.name []) (codes "dns"))
  on_db (resign_if_enabled s zone_id)
  bust_cache
  pure done

-- if zone: audit(…)
unfoldable pub audit_deleted : Option Zone → Run Db (Unit {0})
unfolding audit quoted
audit_deleted none = pure tt
audit_deleted (some z) = audit (quoted (codes "Deleted zone ") z.name []) (codes "dns")

unfoldable pub delete_zone : ℕ → Run Site Reply
unfolding zone_of delete_zone_row audit_deleted bust_cache put_db
delete_zone zone_id = do
  zone ← on_db (read (zone_of zone_id))
  on_db (delete_zone_row zone_id)
  on_db (audit_deleted zone)
  bust_cache
  pure done
