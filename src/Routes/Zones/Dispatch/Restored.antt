-- ===== src/Routes/Zones/Dispatch/Restored.antt =====
-- A record that is added and deleted again leaves the records as they were.
use nova_dns.Prelude.{ℕ, ◌≡◌, refl, sym, ap, ◌∙◌, false, some, ◌==◌, ok, subst}
use nova_dns.Wire.Rdata.{Value}
use nova_dns.Db.{Zone, Row, select_one}
use nova_dns.Db.Statements.{zone_of, next_serial}
use nova_dns.Db.Valid.{IsValid}
use nova_dns.ZoneSigning.Signing.{Signer}
use nova_dns.Routes.{Site, done, with_id}
use nova_dns.Routes.Zones.Records.{add_record, delete_record}
use nova_dns.Routes.Zones.Dispatch.Deleted.{
  IsBelow, select_one-last, delete_record-eq, records-deleted,
}
use nova_dns.Routes.Zones.Dispatch.Added.{add_record-IsAdded}

module _ (s : Signer) where
  -- A record that a request adds to a zone that is not signed, on tables that are as they should be,
  -- is deleted again by a request with the id of the reply: that ends well, and the records are the
  -- ones from before, in their order.
  pub delete_record-add_record :
      (z : Zone) (zone_id : ℕ) (body : Value) (site after : Site) (id : ℕ)
      → IsValid site.db
      → zone_of zone_id site.db ≡ some z
      → z.dnssec_enabled ≡ false
      → add_record s zone_id body site ≡ (after, ok (with_id id))
      → ((delete_record s id after).1 ≡ ok done)
        × ((delete_record s id after).0.db.records ≡ site.db.records)
  delete_record-add_record z zone_id body site after id valid e u h =
      let (r, i, owner, n, recs, zo) = add_record-IsAdded s z zone_id body site after id e u h in
      let below : IsBelow r.id site.db.records =
        subst (λ k. IsBelow k site.db.records) (sym (i ∙ n)) valid.record_ids in
      let found : select_one (λ q. q.id == r.id) after.db.records ≡ some r =
        ap (select_one (λ (q : Row). q.id == r.id)) recs
        ∙ select_one-last r.id site.db.records r below refl in
      let here : zone_of r.zone_id after.db ≡ some (next_serial z) =
        subst (λ k. zone_of k after.db ≡ some (next_serial z)) (sym owner) zo in
      let ended = delete_record-eq s after r (next_serial z) found here u in
      subst
        (λ k.
          ((delete_record s k after).1 ≡ ok done)
          × ((delete_record s k after).0.db.records ≡ site.db.records))
        i
        (
          ap (λ x. x.1) ended,
          ap (λ x. x.0.db.records) ended ∙ records-deleted s after.db site.db.records r recs below,
        )
