-- ===== src/Routes/Zones/Dispatch/Replies.antt =====
-- What the replies of app/routes/zones.py say of the database and the cache.
use nova_dns.Prelude.{ℕ, ◌≡◌, Option, none, some, List, [], ◌∷◌, String, ok}
use nova_dns.Prelude.Int.{ℤ}
use nova_dns.Text.{Text}
use nova_dns.Wire.Types.{codes}
use nova_dns.Wire.Rdata.{Field, Value}
use nova_dns.Run.{Run, ◌>>=◌}
use nova_dns.Db.{Db, Zone, Row}
use nova_dns.Db.Statements.{zone_of}
use nova_dns.ZoneSigning.Signing.{Signer}
use nova_dns.Routes.{Site, Reply, done, redirected, on_db}
use nova_dns.Routes.Settled.{
  Clears, IsDone, Settles, IsSettled, Spares, db-Spares, lift-Spares, bind-Spares, bust-Clears,
  bind-Clears, Clears-Settles, refused-Settles, read-Settles, lift-Settles, refuse_if-Settles,
}
use nova_dns.Routes.Zones.Requests.{numbers_of, field, stripped, or_apex, or_none, fields_for}
use nova_dns.Routes.Zones.Records.{
  with_zone, zone_found, publish, dnssec_sign, add_to, add_typed, add_record, delete_found,
  delete_record, delete_chosen, bulk_delete_records, set_chosen, bulk_set_ttl,
}
use nova_dns.Routes.Zones.Creating.{
  Form, stripped_of, new_zone, create_simple, simple_mode, update_soa, delete_zone,
}
use nova_dns.Routes.Zones.Reverse.{
  Network, create_reverse, name_reverse, name_network, new_reverse_zone, add_ptr,
  add_ptr_convenience,
}
use nova_dns.Routes.Zones.Dispatch.{
  Request, sign, simple, reverse_new, new, add_ptr as ptr, bulk_delete, bulk_ttl, soa, delete_all,
  add, delete, handle,
}

-- a step on the database, of which the rest empties the cache
db_step :
    {A : Type 0} (call : Run Db A) (next : A → Run Site Reply)
    → ((a : A) → Clears (next a))
    → Clears (on_db call >>= next)
db_step call next = bind-Clears (on_db call) next (db-Spares call)

zone_found-Settles :
    (next : Zone → Run Site Reply)
    → ((zone : Zone) → Settles (next zone))
    → (found : Option Zone) → Settles (zone_found next found)
unfolding zone_found
zone_found-Settles next h none = refused-Settles 404
zone_found-Settles next h (some zone) = h zone

with_zone-Settles :
    (zone_id : ℕ) (next : Zone → Run Site Reply)
    → ((zone : Zone) → Settles (next zone))
    → Settles (with_zone zone_id next)
with_zone-Settles zone_id next h =
    read-Settles (zone_of zone_id) (zone_found next) (zone_found-Settles next h)

new_zone-Settles : (form : Form) → Settles (new_zone form)
unfolding new_zone
new_zone-Settles form = lift-Settles _ _ λ ttl. Clears-Settles _ (
    db_step _ _ λ zone_id.
      db_step _ _
        λ ns. db_step _ _ λ filled. db_step _ _ λ logged. bust-Clears (redirected zone_id) tt)

simple_mode-Settles : (form : Form) → Settles (simple_mode form)
unfolding simple_mode create_simple
simple_mode-Settles form = lift-Settles _ _ λ ttl. read-Settles _ _ λ taken.
    refuse_if-Settles taken 200 _ (
      Clears-Settles _ (
        db_step _ _ λ zone_id.
          db_step _ _
            λ apex. db_step _ _ λ www. db_step _ _ λ logged. bust-Clears (redirected zone_id) tt))

name_reverse-Settles :
    (network : Text) (ttl : ℕ) (found : Option Text) → Settles (name_reverse network ttl found)
unfolding name_reverse create_reverse
name_reverse-Settles network ttl none = refused-Settles 200
name_reverse-Settles network ttl (some zone_name) = read-Settles _ _ λ taken.
    refuse_if-Settles taken 200 _ (
      Clears-Settles _ (
        db_step _ _
          λ zone_id. db_step _ _ λ ns. db_step _ _ λ logged. bust-Clears (redirected zone_id) tt))

name_network-Settles :
    (network : Text) (ttl : ℕ) (net : Option Network) → Settles (name_network network ttl net)
unfolding name_network
name_network-Settles network ttl none = refused-Settles 200
name_network-Settles network ttl (some net) = name_reverse-Settles network ttl _

delete_zone-Clears : (zone_id : ℕ) → Clears (delete_zone zone_id)
unfolding delete_zone
delete_zone-Clears zone_id =
    db_step _ _ λ zone. db_step _ _ λ deleted. db_step _ _ λ logged. bust-Clears done tt

module _ (s : Signer) where
  publish-Clears :
      (zone_id : ℕ) (action : Text) (reply : Reply)
      → IsDone reply
      → Clears (publish s zone_id action reply)
  unfolding publish
  publish-Clears zone_id action reply d =
      db_step _ _ λ bumped. db_step _ _ λ logged. db_step _ _ λ resigned. bust-Clears reply d

  dnssec_sign-Settles : (zone_id : ℕ) → Settles (dnssec_sign s zone_id)
  unfolding dnssec_sign
  dnssec_sign-Settles zone_id =
      with_zone-Settles zone_id _
        λ zone. Clears-Settles _ (db_step _ _ λ result. db_step _ _ λ logged. bust-Clears done tt)

  add_typed-Settles :
      (zone : Zone) (zone_id : ℕ) (body : Value) (name : Text) (client_match : Option Text)
      (found : Option (Text × List String))
      → Settles (add_typed s zone zone_id body name client_match found)
  unfolding add_typed add_to
  add_typed-Settles zone zone_id body name client_match none = refused-Settles 400
  add_typed-Settles zone zone_id body name client_match (some (rtype, fields)) =
      refuse_if-Settles _ 400 _
        (lift-Settles _ _ λ ttl. Clears-Settles _ (db_step _ _ λ id. publish-Clears zone_id _ _ tt))

  add_record-Settles : (zone_id : ℕ) (body : Value) → Settles (add_record s zone_id body)
  unfolding add_record
  add_record-Settles zone_id body = with_zone-Settles zone_id _ λ zone.
      lift-Settles (stripped "name" (codes "@") body) _ λ name.
        lift-Settles (stripped "client_match" [] body) _ λ client.
          add_typed-Settles zone zone_id body (or_apex name) (or_none client)
            (fields_for (field "rtype" body))

  delete_found-Spares :
      (record_id : ℕ) (found : Option Row) → Spares (delete_found s record_id found)
  unfolding delete_found
  delete_found-Spares record_id none = lift-Spares (ok tt)
  delete_found-Spares record_id (some rec) = bind-Spares _ _ (db-Spares _) λ deleted.
      bind-Spares _ _ (db-Spares _) λ bumped. bind-Spares _ _ (db-Spares _) λ logged. db-Spares _

  delete_record-Settles : (record_id : ℕ) → Settles (delete_record s record_id)
  unfolding delete_record
  delete_record-Settles record_id = Clears-Settles _ (
      db_step _ _
        λ rec. bind-Clears _ _ (delete_found-Spares record_id rec) λ deleted. bust-Clears done tt)

  delete_chosen-Settles :
      (zone : Zone) (zone_id : ℕ) (ids : List ℤ) → Settles (delete_chosen s zone zone_id ids)
  unfolding delete_chosen
  delete_chosen-Settles zone zone_id [] = refused-Settles 400
  delete_chosen-Settles zone zone_id (id ∷ ids) =
      Clears-Settles _ (db_step _ _ λ deleted. publish-Clears zone_id _ _ tt)

  set_chosen-Settles :
      (zone : Zone) (zone_id : ℕ) (ttl : Field) (ids : List ℤ)
      → Settles (set_chosen s zone zone_id ttl ids)
  unfolding set_chosen
  set_chosen-Settles zone zone_id ttl [] = refused-Settles 400
  set_chosen-Settles zone zone_id ttl (id ∷ ids) =
      refuse_if-Settles _ 400 _
        (lift-Settles _ _ λ n. Clears-Settles _ (db_step _ _ λ done. publish-Clears zone_id _ _ tt))

  add_ptr-Settles :
      (zone : Zone) (zone_id : ℕ) (host_part target : Text) (ttl : Field)
      → Settles (add_ptr s zone zone_id host_part target ttl)
  unfolding add_ptr
  add_ptr-Settles zone zone_id host_part target ttl =
      refuse_if-Settles _ 400 _
        (lift-Settles _ _ λ n. Clears-Settles _ (db_step _ _ λ id. publish-Clears zone_id _ _ tt))

  update_soa-Settles : (zone_id : ℕ) (body : Value) → Settles (update_soa s zone_id body)
  unfolding update_soa
  update_soa-Settles zone_id body = with_zone-Settles zone_id _ λ zone. lift-Settles _ _ λ refresh.
      lift-Settles _ _ λ retry. lift-Settles _ _ λ expire. lift-Settles _ _ λ minimum.
        Clears-Settles _
          (db_step _ _ λ changed. db_step _ _ λ logged. db_step _ _ λ resigned. bust-Clears done tt)

  handle-Settles :
      (ip_network : Text → Option Network) (request : Request)
      → Settles (handle s ip_network request)
  unfolding handle new_reverse_zone bulk_delete_records bulk_set_ttl add_ptr_convenience
  handle-Settles ip_network (sign zone_id) = dnssec_sign-Settles zone_id
  handle-Settles ip_network (simple form) = simple_mode-Settles form
  handle-Settles ip_network (reverse_new form) = lift-Settles _ _ λ ttl.
      name_network-Settles (stripped_of "network" form) ttl
        (ip_network (stripped_of "network" form))
  handle-Settles ip_network (new form) = new_zone-Settles form
  handle-Settles ip_network (ptr zone_id body) = with_zone-Settles zone_id _ λ zone.
      lift-Settles (stripped "target" [] body) _
        λ target. add_ptr-Settles zone zone_id _ _ (field "ttl" body)
  handle-Settles ip_network (bulk_delete zone_id ids) =
      with_zone-Settles zone_id _
        λ zone. lift-Settles (numbers_of ids) _ (delete_chosen-Settles zone zone_id)
  handle-Settles ip_network (bulk_ttl zone_id ids ttl) =
      with_zone-Settles zone_id _
        λ zone. lift-Settles (numbers_of ids) _ (set_chosen-Settles zone zone_id ttl)
  handle-Settles ip_network (soa zone_id body) = update_soa-Settles zone_id body
  handle-Settles ip_network (delete_all zone_id) = Clears-Settles _ (delete_zone-Clears zone_id)
  handle-Settles ip_network (add zone_id body) = add_record-Settles zone_id body
  handle-Settles ip_network (delete record_id) = delete_record-Settles record_id

  -- A request that is refused changes nothing, not even the audit log; after any other request that
  -- gets a reply, the cache of the DNS server is empty, if the server runs.
  pub handle-IsSettled :
      (ip_network : Text → Option Network) (request : Request) (site after : Site) (reply : Reply)
      → handle s ip_network request site ≡ (after, ok reply)
      → IsSettled site after reply
  handle-IsSettled ip_network request = (handle-Settles ip_network request).settled
