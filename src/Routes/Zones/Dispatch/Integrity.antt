-- ===== src/Routes/Zones/Dispatch/Integrity.antt =====
-- Every request to app/routes/zones.py that Dispatch has keeps the invariant of the tables.
use nova_dns.Prelude.{ℕ, refl, Bool, true, false, Option, none, some, List, [], ◌∷◌, String, ok}
use nova_dns.Prelude.Int.{ℤ}
use nova_dns.Text.{Text}
use nova_dns.Wire.Types.{codes}
use nova_dns.Wire.Rdata.{Field, Value}
use nova_dns.Run.{Run, Steps, lift-Steps, read-Steps, write-Steps}
use nova_dns.Db.{Zone, Row}
use nova_dns.Db.Statements.{zone_of, delete_records, bump_serial, next_serial}
use nova_dns.Db.Valid.{IsValid}
use nova_dns.Db.Valid.Statements.{
  Keeps, with_record-Keeps, delete_records-Keeps, update_zone-Keeps, update_records-Keeps,
  key-Keeps,
}
use nova_dns.ZoneSigning.Signing.{Signer, signed, sign_zone}
use nova_dns.ZoneSigning.Signing.Frame.{Allows, sign_zone-Steps}
use nova_dns.Routes.{Site, Reply, done, refused}
use nova_dns.Routes.Kept.{
  Keeps-same, Keeps-trans, SiteKeeps, db_then, site_then, given, on, on_then, look_then, lift_then,
  refuse_if-Steps, busted, inserted, logged,
}
use nova_dns.Routes.Zones.Requests.{numbers_of, field, stripped, or_apex, or_none, fields_for}
use nova_dns.Routes.Zones.Records.{
  with_zone, zone_found, set_ttl, sign_if, resign, resign_if_enabled, publish, dnssec_sign, add_to,
  add_typed, add_record, delete_found, delete_record, delete_chosen, bulk_delete_records,
  set_chosen, bulk_set_ttl,
}
use nova_dns.Routes.Zones.Creating.{stripped_of, update_soa}
use nova_dns.Routes.Zones.Reverse.{Network, new_reverse_zone, add_ptr, add_ptr_convenience}
use nova_dns.Routes.Zones.Dispatch.Making.{
  new_zone-Steps, simple_mode-Steps, name_network-Steps, delete_zone-Steps,
}
use nova_dns.Routes.Zones.Dispatch.{
  Request, sign, simple, reverse_new, new, add_ptr as ptr, bulk_delete, bulk_ttl, soa, delete_all,
  add, delete, handle,
}

-- signing allows itself only statements that keep the invariant
signing : (s : Signer) (zone : Zone) → Allows s zone Keeps
signing s zone = record {
  same = Keeps-same;
  trans = Keeps-trans;
  puts = λ rtype h z name ttl v db e. with_record-Keeps zone.id z name rtype ttl v none db e;
  keys = λ k n db. key-Keeps _ n db;
  deletes = λ drop h. delete_records-Keeps drop;
  marks = λ nsec3. update_zone-Keeps (signed nsec3) zone.id (λ z. (refl, refl));
}

zone_found-Steps :
    (next : Zone → Run Site Reply)
    → ((zone : Zone) → Steps SiteKeeps (next zone))
    → (found : Option Zone) → Steps SiteKeeps (zone_found next found)
unfolding zone_found
zone_found-Steps next h none = given (ok (refused 404))
zone_found-Steps next h (some zone) = h zone

pub with_zone-Steps :
    (zone_id : ℕ) (next : Zone → Run Site Reply)
    → ((zone : Zone) → Steps SiteKeeps (next zone))
    → Steps SiteKeeps (with_zone zone_id next)
with_zone-Steps zone_id next h =
    look_then (zone_of zone_id) (zone_found next) (zone_found-Steps next h)

module _ (s : Signer) where
  signed-Steps : (zone : Zone) → Steps Keeps (sign_zone s zone none)
  signed-Steps zone = sign_zone-Steps s zone Keeps (signing s zone) none

  sign_if-Steps : (enabled : Bool) (zone : Zone) → Steps Keeps (sign_if s enabled zone)
  unfolding sign_if
  sign_if-Steps true zone =
      db_then _ _ (signed-Steps zone) λ summary. lift-Steps Keeps Keeps-same Keeps-trans (ok tt)
  sign_if-Steps false zone = lift-Steps Keeps Keeps-same Keeps-trans (ok tt)

  resign-Steps : (zone : Option Zone) → Steps Keeps (resign s zone)
  unfolding resign
  resign-Steps none = lift-Steps Keeps Keeps-same Keeps-trans (ok tt)
  resign-Steps (some zone) = sign_if-Steps zone.dnssec_enabled zone

  resigned : (zone_id : ℕ) → Steps Keeps (resign_if_enabled s zone_id)
  unfolding resign_if_enabled
  resigned zone_id =
      db_then _ _ (read-Steps Keeps Keeps-same Keeps-trans (zone_of zone_id)) resign-Steps

  bumped : (zone_id : ℕ) → Steps Keeps (bump_serial zone_id)
  unfolding bump_serial
  bumped zone_id = record { keeps = update_zone-Keeps next_serial zone_id (λ z. (refl, refl)) }

  pub publish-Steps :
      (zone_id : ℕ) (action : Text) (reply : Reply)
      → Steps SiteKeeps (publish s zone_id action reply)
  unfolding publish
  publish-Steps zone_id action reply =
      on_then _ _ (bumped zone_id)
        λ a. on_then _ _ (logged _ _) λ b. on_then _ _ (resigned zone_id) λ c. busted reply

  dnssec_sign-Steps : (zone_id : ℕ) → Steps SiteKeeps (dnssec_sign s zone_id)
  unfolding dnssec_sign
  dnssec_sign-Steps zone_id =
      with_zone-Steps zone_id _ λ zone.
        on_then _ _ (signed-Steps zone) λ result. on_then _ _ (logged _ _) λ told. busted done

  add_typed-Steps :
      (zone : Zone) (zone_id : ℕ) (body : Value) (name : Text) (client_match : Option Text)
      (found : Option (Text × List String))
      → Steps SiteKeeps (add_typed s zone zone_id body name client_match found)
  unfolding add_typed add_to
  add_typed-Steps zone zone_id body name client_match none = given (ok (refused 400))
  add_typed-Steps zone zone_id body name client_match (some (rtype, fields)) =
      refuse_if-Steps _ 400 _ (
        lift_then _ _ λ ttl.
          on_then _ _ (inserted zone_id name rtype ttl _ client_match)
            λ id. publish-Steps zone_id _ _)

  add_record-Steps : (zone_id : ℕ) (body : Value) → Steps SiteKeeps (add_record s zone_id body)
  unfolding add_record
  add_record-Steps zone_id body = with_zone-Steps zone_id _ λ zone.
      lift_then (stripped "name" (codes "@") body) _ λ name.
        lift_then (stripped "client_match" [] body) _ λ client.
          add_typed-Steps zone zone_id body (or_apex name) (or_none client)
            (fields_for (field "rtype" body))

  dropped : (drop : Row → Bool) → Steps Keeps (delete_records drop)
  dropped drop = record { keeps = delete_records-Keeps drop }

  delete_found-Steps :
      (record_id : ℕ) (found : Option Row) → Steps SiteKeeps (delete_found s record_id found)
  unfolding delete_found
  delete_found-Steps record_id none = given (ok tt)
  delete_found-Steps record_id (some rec) =
      on_then _ _ (dropped _)
        λ a. on_then _ _ (bumped _) λ b. on_then _ _ (logged _ _) λ c. on _ (resigned _)

  delete_record-Steps : (record_id : ℕ) → Steps SiteKeeps (delete_record s record_id)
  unfolding delete_record
  delete_record-Steps record_id =
      look_then _ _ λ rec. site_then _ _ (delete_found-Steps record_id rec) λ deleted. busted done

  delete_chosen-Steps :
      (zone : Zone) (zone_id : ℕ) (ids : List ℤ)
      → Steps SiteKeeps (delete_chosen s zone zone_id ids)
  unfolding delete_chosen
  delete_chosen-Steps zone zone_id [] = given (ok (refused 400))
  delete_chosen-Steps zone zone_id (id ∷ ids) =
      on_then _ _ (dropped _) λ deleted. publish-Steps zone_id _ _

  set_ttl-Steps : (zone_id : ℕ) (ids : List ℤ) (ttl : ℕ) → Steps Keeps (set_ttl zone_id ids ttl)
  unfolding set_ttl
  set_ttl-Steps zone_id ids ttl =
      write-Steps Keeps Keeps-same Keeps-trans _ (update_records-Keeps _ _ (λ r. (refl, refl)))

  set_chosen-Steps :
      (zone : Zone) (zone_id : ℕ) (ttl : Field) (ids : List ℤ)
      → Steps SiteKeeps (set_chosen s zone zone_id ttl ids)
  unfolding set_chosen
  set_chosen-Steps zone zone_id ttl [] = given (ok (refused 400))
  set_chosen-Steps zone zone_id ttl (id ∷ ids) = refuse_if-Steps _ 400 _ (
      lift_then _ _
        λ n. on_then _ _ (set_ttl-Steps zone_id (id ∷ ids) n) λ done. publish-Steps zone_id _ _)

  add_ptr-Steps :
      (zone : Zone) (zone_id : ℕ) (host_part target : Text) (ttl : Field)
      → Steps SiteKeeps (add_ptr s zone zone_id host_part target ttl)
  unfolding add_ptr
  add_ptr-Steps zone zone_id host_part target ttl = refuse_if-Steps _ 400 _ (
      lift_then _ _ λ n.
        on_then _ _ (inserted zone_id host_part (codes "PTR") n _ none)
          λ id. publish-Steps zone_id _ _)

  update_soa-Steps : (zone_id : ℕ) (body : Value) → Steps SiteKeeps (update_soa s zone_id body)
  unfolding update_soa
  update_soa-Steps zone_id body = with_zone-Steps zone_id _ λ zone. lift_then _ _ λ refresh.
      lift_then _ _ λ retry. lift_then _ _ λ expire. lift_then _ _ λ minimum.
        on_then _ _ (record { keeps = update_zone-Keeps _ zone_id (λ z. (refl, refl)) })
          λ a. on_then _ _ (logged _ _) λ b. on_then _ _ (resigned zone_id) λ c. busted done

  handle-Steps :
      (ip_network : Text → Option Network) (request : Request)
      → Steps SiteKeeps (handle s ip_network request)
  unfolding handle new_reverse_zone bulk_delete_records bulk_set_ttl add_ptr_convenience
  handle-Steps ip_network (sign zone_id) = dnssec_sign-Steps zone_id
  handle-Steps ip_network (simple form) = simple_mode-Steps form
  handle-Steps ip_network (reverse_new form) = lift_then _ _ λ ttl.
      name_network-Steps (stripped_of "network" form) ttl (ip_network (stripped_of "network" form))
  handle-Steps ip_network (new form) = new_zone-Steps form
  handle-Steps ip_network (ptr zone_id body) = with_zone-Steps zone_id _ λ zone.
      lift_then (stripped "target" [] body) _
        λ target. add_ptr-Steps zone zone_id _ _ (field "ttl" body)
  handle-Steps ip_network (bulk_delete zone_id ids) =
      with_zone-Steps zone_id _
        λ zone. lift_then (numbers_of ids) _ (delete_chosen-Steps zone zone_id)
  handle-Steps ip_network (bulk_ttl zone_id ids ttl) =
      with_zone-Steps zone_id _
        λ zone. lift_then (numbers_of ids) _ (set_chosen-Steps zone zone_id ttl)
  handle-Steps ip_network (soa zone_id body) = update_soa-Steps zone_id body
  handle-Steps ip_network (delete_all zone_id) = delete_zone-Steps zone_id
  handle-Steps ip_network (add zone_id body) = add_record-Steps zone_id body
  handle-Steps ip_network (delete record_id) = delete_record-Steps record_id

  -- Whatever the request, and also when it raises midway: if before it no two records have one id, no
  -- two zones one id or one name, no id that is yet to be given is in use, and every record belongs to
  -- a zone that is there, then all of this is so after it.
  pub handle-IsValid :
      (ip_network : Text → Option Network) (request : Request) (site : Site)
      → IsValid site.db
      → IsValid (handle s ip_network request site).0.db
  handle-IsValid ip_network request = (handle-Steps ip_network request).keeps
