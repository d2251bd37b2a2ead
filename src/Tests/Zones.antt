-- ===== src/Tests/Zones.antt =====
-- Requests to the small site, and what the results say of them.
use nova_dns.Prelude.{
  ◌≡◌, refl, true, none, some, [], ◌∷◌, Result, ok, Option, List, ℕ, map, arith, ◌↔◌, Bool,
}
use nova_dns.Prelude.Int.{pos}
use nova_dns.Text.{Text, text_eq}
use nova_dns.Wire.Types.{codes}
use nova_dns.Wire.Rdata.{num, text, Value}
use nova_dns.Run.{go_on}
use nova_dns.Db.{Row, exists}
use nova_dns.Db.Statements.{zone_of}
use nova_dns.Db.Valid.{IsValid}
use nova_dns.Tests.Data.{plain_codec, small_db, example_zone}
use nova_dns.Tests.Signing.{small_signer}
use nova_dns.Routes.{Site, Reply, refused, done, with_id}
use nova_dns.Routes.Settled.{IsSettled}
use nova_dns.Routes.Zones.Records.{add_record, delete_record}
use nova_dns.Routes.Zones.Dispatch.Restored.{delete_record-add_record}
use nova_dns.Routes.Zones.Dispatch.{Request, add, handle}
use nova_dns.Routes.Zones.Dispatch.Replies.{handle-IsSettled}
use nova_dns.Routes.Zones.Dispatch.Integrity.{handle-IsValid}
use nova_dns.Routes.Zones.Reverse.{Network}
use nova_dns.Routes.Zones.Validate.{validate_zone}
use nova_dns.Routes.Zones.Validate.Issues.{
  Issue, Level, no_apex_ns, high, medium, retry_not_smaller,
}
use nova_dns.Routes.Zones.Validate.Reports.{IsReply, validate_zone-IsReply}
use nova_dns.Routes.Zones.Validate.Chains.{Targets, is_circular}
use nova_dns.Routes.Zones.Validate.Circular.{Revisits, is_circular_iff_Revisits}

abbrev pub small_site : Site
small_site = record { db = small_db; cache = none }

abbrev no_network : Text → Option Network
no_network network = none

-- an A record without its address
abbrev bad_request : Request
bad_request = add 1 (("rtype", text (codes "A")) ∷ ("name", text (codes "www")) ∷ [])

abbrev good_request : Request
good_request = add 1 (
    ("rtype", text (codes "A"))
    ∷ ("name", text (codes " mail "))
    ∷ ("ttl", num (pos 60))
    ∷ ("address", text (codes "abcd"))
    ∷ [])

bad_request_refused :
    ◌≡◌ {A = Site × Result Reply}
      (handle small_signer no_network bad_request small_site)
      (small_site, ok (refused 400))
unfolding handle go_on add_record
bad_request_refused = refl

handle-IsSettled_example : IsSettled small_site small_site (refused 400)
handle-IsSettled_example =
    handle-IsSettled small_signer no_network bad_request small_site small_site (refused 400)
      bad_request_refused

pub small_db-IsValid : IsValid small_db
unfolding exists text_eq
small_db-IsValid = record {
  record_ids = (omega arith, tt);
  records_apart = (tt, tt);
  owned = (refl, tt);
  zone_ids = (omega arith, tt);
  zones_apart = (tt, tt);
}

handle-IsValid_example : IsValid (handle small_signer no_network good_request small_site).0.db
handle-IsValid_example =
    handle-IsValid small_signer no_network good_request small_site small_db-IsValid

names_after :
    map (λ (r : Row). r.name) (handle small_signer no_network good_request small_site).0.db.records
    ≡ codes "www" ∷ codes "mail" ∷ []
unfolding handle go_on add_record
names_after = refl

-- a → b → a
abbrev looping : Targets
looping = (codes "a", codes "b.example.org") ∷ (codes "b", codes "a.example.org") ∷ []

is_circular_iff_Revisits_example :
    (b : Bool) × (is_circular looping (codes "example.org") (codes "a") ≡ ok b)
    × ((b ≡ true) ↔ Revisits looping (codes "example.org") (codes "a"))
is_circular_iff_Revisits_example =
    is_circular_iff_Revisits looping (codes "example.org") (codes "a")

looping_found : is_circular looping (codes "example.org") (codes "a") ≡ ok true
unfolding is_circular
looping_found = refl

abbrev small_issues : List Issue
small_issues = no_apex_ns ∷ retry_not_smaller ∷ []

abbrev small_counts : List (Level × ℕ)
small_counts = (high, 1) ∷ (medium, 1) ∷ []

small_zone_validated : validate_zone plain_codec 1 small_db ≡ ok (some (small_issues, small_counts))
unfolding validate_zone
small_zone_validated = refl

small_zone_found : zone_of 1 small_db ≡ some example_zone
unfolding zone_of
small_zone_found = refl

validate_zone-IsReply_example : IsReply plain_codec example_zone small_db small_issues small_counts
validate_zone-IsReply_example =
    validate_zone-IsReply plain_codec 1 small_db example_zone small_issues small_counts
      small_zone_found small_zone_validated

abbrev mail_body : Value
mail_body =
    ("rtype", text (codes "A"))
    ∷ ("name", text (codes "mail"))
    ∷ ("address", text (codes "192.0.2.1"))
    ∷ []

abbrev with_mail : Site
with_mail = (add_record small_signer 1 mail_body small_site).0

mail_added :
    ◌≡◌ {A = Site × Result Reply}
      (add_record small_signer 1 mail_body small_site)
      (with_mail, ok (with_id 2))
unfolding add_record go_on
mail_added = refl

zone_here : zone_of 1 small_db ≡ some example_zone
unfolding zone_of
zone_here = refl

delete_record-add_record_example :
    ((delete_record small_signer 2 with_mail).1 ≡ ok done)
    × ((delete_record small_signer 2 with_mail).0.db.records ≡ small_db.records)
delete_record-add_record_example =
    delete_record-add_record small_signer example_zone 1 mail_body small_site with_mail 2
      small_db-IsValid zone_here refl mail_added
