-- ===== src/Routes/Zones/Dispatch/Added.antt =====
-- What `add_record` of app/routes/zones.py adds to a zone that is not signed.
use nova_dns.Prelude.{
  ℕ, ◌≡◌, refl, sym, ap, ◌∙◌, Bool, true, false, not, Option, none, some, List, [], ◌∷◌, ◌++◌, ◌==◌,
  ok, err, Result, subst, length, String,
}
use nova_dns.Text.{Text}
use nova_dns.Wire.Types.{codes}
use nova_dns.Wire.Rdata.{Value}
use nova_dns.Run.{Run, ◌>>=◌, lift, go_on, go_on-eq-ok}
use nova_dns.Db.{Db, Zone, Row}
use nova_dns.Db.Statements.{zone_of, with_record, next_serial, update_zone, bump_serial, audit}
use nova_dns.ZoneSigning.Signing.{Signer}
use nova_dns.Routes.{Site, Reply, with_id, put_db, cleared, refuse_if}
use nova_dns.Routes.Zones.Requests.{
  given, missing, optional_fields, ttl_of, field, stripped, or_apex, or_none, fields_for,
}
use nova_dns.Routes.Zones.Records.{zone_found, add_to, add_typed, add_record, quoted}
use nova_dns.Routes.Zones.Exchange.Unsigned.{logged_bump, publish-unsigned, zone_of-logged_bump}
use nova_dns.Routes.Zones.Exchange.Faithful.{insert_record-some}

module _ (s : Signer) where
  -- the site after a record is added, with what the log says of it
  abbrev added : ℕ → Text → Text → Option ℕ → Value → Option Text → Text → Site → Site
  added zone_id name rtype ttl values m action site = record {
    db = logged_bump zone_id action (with_record zone_id name rtype ttl values m site.db);
    cache = cleared site.cache;
  }

  zone_of-with_record :
      (zone_id : ℕ) (name rtype : Text) (ttl : Option ℕ) (values : Value) (m : Option Text)
      (db : Db)
      → zone_of zone_id (with_record zone_id name rtype ttl values m db) ≡ zone_of zone_id db
  unfolding zone_of with_record
  zone_of-with_record zone_id name rtype ttl values m db = refl

  add_to-eq :
      (zone z : Zone) (zone_id : ℕ) (rtype name : Text) (ttl : Option ℕ) (values : Value)
      (m : Option Text) (site : Site)
      → zone_of zone_id site.db ≡ some z
      → z.dnssec_enabled ≡ false
      → (action : Text) × (add_to s zone zone_id rtype name ttl values m site ≡ (
        added zone_id name rtype ttl values m action site,
        ok (with_id site.db.next_record_id),
      ))
  unfolding add_to go_on put_db
  add_to-eq zone z zone_id rtype name ttl values m site e u = (
    quoted (codes "Added " ++ (rtype ++ codes " record ")) name
        (quoted (codes " to zone ") zone.name []),
    rw (insert_record-some zone_id z name rtype ttl values m site.db e) (
        publish-unsigned s zone_id z _ (with_id site.db.next_record_id)
          (record site { db = with_record zone_id name rtype ttl values m site.db })
          (zone_of-with_record zone_id name rtype ttl values m site.db ∙ e) u),
  )

  -- Behind the records stands a new one of the zone, with the id that is next.
  abbrev pub IsAdded : ℕ → Zone → Site → Site → ℕ → Type 0
  IsAdded zone_id z site after id =
      (r : Row) × (r.id ≡ id)
      × (r.zone_id ≡ zone_id)
      × (id ≡ site.db.next_record_id)
      × (after.db.records ≡ site.db.records ++ r ∷ [])
      × (zone_of zone_id after.db ≡ some (next_serial z))

  added-IsAdded :
      (z : Zone) (zone_id : ℕ) (name rtype : Text) (ttl : Option ℕ) (values : Value)
      (m : Option Text) (action : Text) (site : Site)
      → zone_of zone_id site.db ≡ some z
      → IsAdded zone_id z site
          (added zone_id name rtype ttl values m action site)
          site.db.next_record_id
  unfolding with_record bump_serial update_zone audit
  added-IsAdded z zone_id name rtype ttl values m action site e = (
    record {
      id = site.db.next_record_id;
      zone_id = zone_id;
      name = name;
      rtype = rtype;
      ttl = ttl;
      data_json = values;
      client_match = m;
    },
    refl,
    refl,
    refl,
    refl,
    zone_of-logged_bump zone_id z action (with_record zone_id name rtype ttl values m site.db)
        (zone_of-with_record zone_id name rtype ttl values m site.db ∙ e),
  )

  id_in : Reply → ℕ → ℕ
  id_in (with_id n) other = n
  id_in reply other = other

  id_of : Result Reply → ℕ → ℕ
  id_of (ok reply) other = id_in reply other
  id_of (err e) other = other

  add_to-IsAdded :
      (zone z : Zone) (zone_id : ℕ) (rtype name : Text) (ttl : Option ℕ) (values : Value)
      (m : Option Text) (site after : Site) (id : ℕ)
      → zone_of zone_id site.db ≡ some z
      → z.dnssec_enabled ≡ false
      → add_to s zone zone_id rtype name ttl values m site ≡ (after, ok (with_id id))
      → IsAdded zone_id z site after id
  unfolding id_in id_of
  add_to-IsAdded zone z zone_id rtype name ttl values m site after id e u h =
      let (action, eq) = add_to-eq zone z zone_id rtype name ttl values m site e u in
      let both = sym eq ∙ h in
      subst (λ a. IsAdded zone_id z site a id) (ap (λ x. x.0) both)
        (subst (λ n. IsAdded zone_id z site (added zone_id name rtype ttl values m action site) n)
          (ap (λ x. id_of x.1 0) both)
          (added-IsAdded z zone_id name rtype ttl values m action site e))

  passed :
      (test : Bool) (n : ℕ) (next : Run Site Reply) (site after : Site) (id : ℕ)
      → refuse_if test n next site ≡ (after, ok (with_id id))
      → next site ≡ (after, ok (with_id id))
  unfolding refuse_if
  passed true n next site after id h = absurd (cc h)
  passed false n next site after id h = h

  add_typed-IsAdded :
      (zone z : Zone) (zone_id : ℕ) (body : Value) (name : Text) (m : Option Text)
      (found : Option (Text × List String)) (site after : Site) (id : ℕ)
      → zone_of zone_id site.db ≡ some z
      → z.dnssec_enabled ≡ false
      → add_typed s zone zone_id body name m found site ≡ (after, ok (with_id id))
      → IsAdded zone_id z site after id
  unfolding add_typed
  add_typed-IsAdded zone z zone_id body name m none site after id e u h = absurd (cc h)
  add_typed-IsAdded zone z zone_id body name m (some (rtype, fields)) site after id e u h =
      let values = given fields body in
      let test = not (length (missing fields (optional_fields rtype) values) == 0) in
      let next : Option ℕ → Run Site Reply = λ ttl. add_to s zone zone_id rtype name ttl values m in
      let ttl_read = ttl_of (field "ttl" body) in
      let ended = passed test 400 (lift ttl_read >>= next) site after id h in
      let (ttl, t, e1, e2) = go_on-eq-ok next (site, ttl_read) ended in
      let here : t ≡ site = sym (ap (λ x. x.0) e1) in
      add_to-IsAdded zone z zone_id rtype name ttl values m site after id e u
        (subst (λ (q : Site). next ttl q ≡ (after, ok (with_id id))) here e2)

  pub add_record-IsAdded :
      (z : Zone) (zone_id : ℕ) (body : Value) (site after : Site) (id : ℕ)
      → zone_of zone_id site.db ≡ some z
      → z.dnssec_enabled ≡ false
      → add_record s zone_id body site ≡ (after, ok (with_id id))
      → IsAdded zone_id z site after id
  unfolding add_record go_on put_db zone_found
  add_record-IsAdded z zone_id body site after id e u h =
      let rtype = fields_for (field "rtype" body) in
      let last : Text → Text → Run Site Reply =
        λ name client. add_typed s z zone_id body (or_apex name) (or_none client) rtype in
      let client_read = stripped "client_match" [] body in
      let name_read = stripped "name" (codes "@") body in
      let with_client : Text → Run Site Reply = λ name. lift client_read >>= last name in
      let found : (lift name_read >>= with_client) site ≡ (after, ok (with_id id)) = rw e at h in
      let (name, t1, a1, b1) = go_on-eq-ok with_client (site, name_read) found in
      let (client, t2, a2, b2) = go_on-eq-ok (last name) (t1, client_read) b1 in
      let here : t2 ≡ site = sym (ap (λ x. x.0) a1 ∙ ap (λ x. x.0) a2) in
      add_typed-IsAdded z z zone_id body (or_apex name) (or_none client) rtype site after id e u
        (subst (λ (q : Site). last name client q ≡ (after, ok (with_id id))) here b2)
