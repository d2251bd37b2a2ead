-- ===== src/Routes/Zones/Records.antt =====
-- The handlers of app/routes/zones.py that change the records of a zone, `_resign_if_enabled`,
-- `dnssec_sign`, `update_soa` and `delete_zone`. The request's body is a JSON object.
use nova_dns.Prelude.{
  ℕ, Bool, true, false, not, ◌&&◌, Option, none, some, List, [], ◌∷◌, ◌++◌, ◌==◌, length, String,
}
use nova_dns.Prelude.Int.{ℤ, pos, negsuc}
use nova_dns.Text.{Text}
use nova_dns.Text.Number.{str_of}
use nova_dns.Wire.Types.{codes}
use nova_dns.Wire.Rdata.{Field, num, text, null, Value}
use nova_dns.Run.{Run, ◌>>=◌, ◌>>◌, pure, lift, read, write}
use nova_dns.Db.{Db, Zone, Row, exists, select_one, update}
use nova_dns.Db.Statements.{zone_of, insert_record, delete_records, bump_serial, audit}
use nova_dns.ZoneSigning.Signing.{Signer, sign_zone}
use nova_dns.Routes.{
  Site, Reply, done, with_id, with_count, refused, put_db, on_db, bust_cache, refuse_if,
}
use nova_dns.Routes.Zones.Requests.{
  field, number_text, numbers_of, is_given, nat_of_field, ttl_of, stripped, or_none, or_apex,
  fields_for, optional_fields, given, missing,
}

-- SELECT * FROM zones WHERE id=?, and the reply 404 where there is none
unfoldable pub zone_found : (Zone → Run Site Reply) → Option Zone → Run Site Reply
zone_found next none = pure (refused 404)
zone_found next (some zone) = next zone

abbrev pub with_zone : ℕ → (Zone → Run Site Reply) → Run Site Reply
with_zone zone_id next = on_db (read (zone_of zone_id)) >>= zone_found next

-- f"{before}'{name}'{after}"
unfoldable pub quoted : Text → Text → Text → Text
quoted before name after = before ++ (39 ∷ (name ++ (39 ∷ after)))

-- what an UPDATE of a zone's records does: WHERE zone_id=? AND id IN (…)
unfoldable pub is_id : ℕ → ℤ → Bool
is_id id (pos n) = id == n
is_id id (negsuc n) = false

unfoldable pub chosen : ℕ → List ℤ → Row → Bool
unfolding exists is_id
chosen zone_id ids r = r.zone_id == zone_id && exists (is_id r.id) ids

unfoldable pub set_ttl : ℕ → List ℤ → ℕ → Run Db (Unit {0})
unfolding chosen update
set_ttl zone_id ids ttl = write (λ db. record db {
  records = update (chosen zone_id ids) (λ r. record r { ttl = some ttl }) db.records;
})

module _ (s : Signer) where
  -- zonesigning.sign_zone(db, zone), if the zone is signed
  unfoldable pub sign_if : Bool → Zone → Run Db (Unit {0})
  unfolding sign_zone
  sign_if true zone = sign_zone s zone none >>= λ summary. pure tt
  sign_if false zone = pure tt

  unfoldable pub resign : Option Zone → Run Db (Unit {0})
  unfolding sign_if
  resign none = pure tt
  resign (some zone) = sign_if zone.dnssec_enabled zone

  unfoldable pub resign_if_enabled : ℕ → Run Db (Unit {0})
  unfolding resign zone_of
  resign_if_enabled zone_id = read (zone_of zone_id) >>= resign

  -- the end of a change: the serial number, the audit log, the signatures and the cache
  unfoldable pub publish : ℕ → Text → Reply → Run Site Reply
  unfolding bump_serial audit resign_if_enabled put_db bust_cache
  publish zone_id action reply = do
    on_db (bump_serial zone_id)
    on_db (audit action (codes "dns"))
    on_db (resign_if_enabled zone_id)
    bust_cache
    pure reply

  unfoldable pub dnssec_sign : ℕ → Run Site Reply
  unfolding zone_found sign_zone audit put_db bust_cache zone_of str_of quoted
  dnssec_sign zone_id = with_zone zone_id λ zone. do
    result ← on_db (sign_zone s zone none)
    on_db (
        audit
          (quoted (codes "Signed zone ") zone.name
            (codes " with DNSSEC (key tag " ++ (str_of result.key_tag ++ codes ")")))
          (codes "dns"))
    bust_cache
    pure done

  unfoldable pub add_to : Zone → ℕ → Text → Text → Option ℕ → Value → Option Text → Run Site Reply
  unfolding insert_record publish put_db quoted
  add_to zone zone_id rtype name ttl values client_match = do
    id ← on_db (insert_record zone_id name rtype ttl values client_match)
    publish zone_id
        (quoted (codes "Added " ++ (rtype ++ codes " record ")) name
          (quoted (codes " to zone ") zone.name []))
        (with_id id)

  -- a request with a known type: 400 where a field that is required is missing
  unfoldable pub add_typed :
      Zone → ℕ → Value → Text → Option Text → Option (Text × List String) → Run Site Reply
  unfolding add_to given missing optional_fields ttl_of field refuse_if
  add_typed zone zone_id body name client_match none = pure (refused 400)
  add_typed zone zone_id body name client_match (some (rtype, fields)) =
      let values = given fields body in
      refuse_if (not (length (missing fields (optional_fields rtype) values) == 0)) 400 (
        lift (ttl_of (field "ttl" body)) >>= λ ttl.
        add_to zone zone_id rtype name ttl values client_match)

  unfoldable pub add_record : ℕ → Value → Run Site Reply
  unfolding zone_found add_typed stripped or_none or_apex fields_for field put_db zone_of
  add_record zone_id body = with_zone zone_id λ zone. do
    name ← lift (stripped "name" (codes "@") body)
    client ← lift (stripped "client_match" [] body)
    add_typed zone zone_id body (or_apex name) (or_none client) (fields_for (field "rtype" body))

  unfoldable pub delete_found : ℕ → Option Row → Run Site (Unit {0})
  unfolding delete_records bump_serial audit resign_if_enabled put_db quoted
  delete_found record_id none = pure tt
  delete_found record_id (some rec) = do
    on_db (delete_records (λ r. r.id == record_id))
    on_db (bump_serial rec.zone_id)
    on_db (
        audit (quoted (codes "Deleted " ++ (rec.rtype ++ codes " record ")) rec.name [])
          (codes "dns"))
    on_db (resign_if_enabled rec.zone_id)

  unfoldable pub delete_record : ℕ → Run Site Reply
  unfolding delete_found select_one put_db bust_cache
  delete_record record_id = do
    rec ← on_db (read (λ db. select_one (λ r. r.id == record_id) db.records))
    delete_found record_id rec
    bust_cache
    pure done

  unfoldable pub delete_chosen : Zone → ℕ → List ℤ → Run Site Reply
  unfolding delete_records publish put_db quoted str_of chosen
  delete_chosen zone zone_id [] = pure (refused 400)
  delete_chosen zone zone_id (id ∷ ids) = do
    on_db (delete_records (chosen zone_id (id ∷ ids)))
    publish zone_id
        (quoted
          (codes "Bulk-deleted " ++ (str_of (length (id ∷ ids)) ++ codes " record(s) from zone "))
          zone.name [])
        (with_count (length (id ∷ ids)))

  -- `ids` is body["ids"]
  unfoldable pub bulk_delete_records : ℕ → List Field → Run Site Reply
  unfolding zone_found delete_chosen put_db zone_of numbers_of
  bulk_delete_records zone_id ids =
      with_zone zone_id λ zone. lift (numbers_of ids) >>= delete_chosen zone zone_id

  -- f"{ttl}"
  unfoldable pub ttl_text : Field → Text
  unfolding number_text
  ttl_text (num n) = number_text n
  ttl_text (text t) = t
  ttl_text null = codes "None"

  unfoldable pub set_chosen : Zone → ℕ → Field → List ℤ → Run Site Reply
  unfolding is_given nat_of_field set_ttl publish put_db quoted str_of ttl_text refuse_if
  set_chosen zone zone_id ttl [] = pure (refused 400)
  set_chosen zone zone_id ttl (id ∷ ids) = refuse_if (not (is_given ttl)) 400 (
      lift (nat_of_field ttl) >>= λ n.
      on_db (set_ttl zone_id (id ∷ ids) n)
      >> publish zone_id
          (quoted
            (codes "Bulk-set TTL to "
              ++ (ttl_text ttl
                  ++ (codes " for "
                      ++ (str_of (length (id ∷ ids)) ++ codes " record(s) in zone "))))
            zone.name [])
          (with_count (length (id ∷ ids))))

  unfoldable pub bulk_set_ttl : ℕ → List Field → Field → Run Site Reply
  unfolding zone_found set_chosen put_db zone_of numbers_of
  bulk_set_ttl zone_id ids ttl =
      with_zone zone_id λ zone. lift (numbers_of ids) >>= set_chosen zone zone_id ttl
