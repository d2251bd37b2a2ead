-- ===== src/Routes/Zones/Dispatch/Making.antt =====
-- The requests to app/routes/zones.py that make or delete a zone keep the invariant of the tables.
use nova_dns.Prelude.{ℕ, Option, none, some, List, [], ◌∷◌, ok}
use nova_dns.Text.{Text}
use nova_dns.Run.{◌>>◌, pure, Steps, lift-Steps}
use nova_dns.Db.{Zone}
use nova_dns.Db.Statements.{insert_zone}
use nova_dns.Db.Valid.Statements.{Keeps, insert_zone-Keeps, delete_zone_row-Keeps}
use nova_dns.Routes.{done, redirected, refused, bust_cache}
use nova_dns.Routes.Kept.{
  Keeps-same, Keeps-trans, SiteKeeps, db_then, given, on_then, look_then, lift_then,
  refuse_if-Steps, busted, inserted, logged,
}
use nova_dns.Routes.Zones.Creating.{
  Form, Template, insert_templates, new_zone, create_simple, simple_mode, audit_deleted,
  delete_zone,
}
use nova_dns.Routes.Zones.Reverse.{Network, create_reverse, name_reverse, name_network}

zone_inserted :
    (name : Text) (ttl : ℕ) (mname rname : Text) → Steps Keeps (insert_zone name ttl mname rname)
zone_inserted name ttl mname rname = record { keeps = insert_zone-Keeps name ttl mname rname }

-- the end of the handlers that make a zone
page_of : (zone_id : ℕ) → Steps SiteKeeps (bust_cache >> pure (redirected zone_id))
page_of zone_id = busted (redirected zone_id)

insert_templates-Steps :
    (zone_id ttl : ℕ) (ip name acl : Text) (templates : List Template)
    → Steps Keeps (insert_templates zone_id ttl ip name acl templates)
unfolding insert_templates
insert_templates-Steps zone_id ttl ip name acl [] = lift-Steps Keeps Keeps-same Keeps-trans (ok tt)
insert_templates-Steps zone_id ttl ip name acl (rec ∷ templates) =
    db_then _ _ (inserted zone_id _ _ _ _ _)
      λ id. insert_templates-Steps zone_id ttl ip name acl templates

pub new_zone-Steps : (form : Form) → Steps SiteKeeps (new_zone form)
unfolding new_zone
new_zone-Steps form = lift_then _ _ λ ttl. on_then _ _ (zone_inserted _ _ _ _) λ zone_id.
    on_then _ _ (inserted zone_id _ _ _ _ _) λ ns.
      on_then _ _ (insert_templates-Steps zone_id _ _ _ _ _)
        λ filled. on_then _ _ (logged _ _) λ done. page_of zone_id

pub simple_mode-Steps : (form : Form) → Steps SiteKeeps (simple_mode form)
unfolding simple_mode create_simple
simple_mode-Steps form = lift_then _ _ λ ttl. look_then _ _ λ taken. refuse_if-Steps taken 200 _ (
    on_then _ _ (zone_inserted _ _ _ _) λ zone_id. on_then _ _ (inserted zone_id _ _ _ _ _) λ apex.
      on_then _ _ (inserted zone_id _ _ _ _ _)
        λ www. on_then _ _ (logged _ _) λ done. page_of zone_id)

name_reverse-Steps :
    (network : Text) (ttl : ℕ) (found : Option Text)
    → Steps SiteKeeps (name_reverse network ttl found)
unfolding name_reverse create_reverse
name_reverse-Steps network ttl none = given (ok (refused 200))
name_reverse-Steps network ttl (some zone_name) = look_then _ _ λ taken.
    refuse_if-Steps taken 200 _ (
      on_then _ _ (zone_inserted _ _ _ _) λ zone_id.
        on_then _ _ (inserted zone_id _ _ _ _ _)
          λ ns. on_then _ _ (logged _ _) λ done. page_of zone_id)

pub name_network-Steps :
    (network : Text) (ttl : ℕ) (net : Option Network)
    → Steps SiteKeeps (name_network network ttl net)
unfolding name_network
name_network-Steps network ttl none = given (ok (refused 200))
name_network-Steps network ttl (some net) = name_reverse-Steps network ttl _

audit_deleted-Steps : (zone : Option Zone) → Steps Keeps (audit_deleted zone)
unfolding audit_deleted
audit_deleted-Steps none = lift-Steps Keeps Keeps-same Keeps-trans (ok tt)
audit_deleted-Steps (some z) = logged _ _

pub delete_zone-Steps : (zone_id : ℕ) → Steps SiteKeeps (delete_zone zone_id)
unfolding delete_zone
delete_zone-Steps zone_id = look_then _ _ λ zone.
    on_then _ _ (record { keeps = delete_zone_row-Keeps zone_id })
      λ deleted. on_then _ _ (audit_deleted-Steps zone) λ told. busted done
