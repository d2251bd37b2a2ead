-- ===== src/Routes/Zones/Dispatch.antt =====
-- The routes of app/routes/zones.py that change the database, but the import of a file, each with what
-- its request brings.
pub mod Replies
pub mod Making
pub mod Integrity
pub mod Added
pub mod Deleted
pub mod Restored
use nova_dns.Prelude.{ℕ, Option, List, Result}
use nova_dns.Text.{Text}
use nova_dns.Wire.Rdata.{Field, Value}
use nova_dns.Run.{Run}
use nova_dns.ZoneSigning.Signing.{Signer}
use nova_dns.Routes.{Site, Reply}
use nova_dns.Routes.Zones.Records.{
  add_record, delete_record, bulk_delete_records, bulk_set_ttl, dnssec_sign,
}
use nova_dns.Routes.Zones.Creating.{Form, new_zone, simple_mode, update_soa, delete_zone}
use nova_dns.Routes.Zones.Reverse.{Network, new_reverse_zone, add_ptr_convenience}

pub data Request : Type 0 where
  sign : ℕ → Request
  simple reverse_new new : Form → Request
  add_ptr : ℕ → Value → Request
  bulk_delete : ℕ → List Field → Request
  bulk_ttl : ℕ → List Field → Field → Request
  soa : ℕ → Value → Request
  delete_all : ℕ → Request
  add : ℕ → Value → Request
  delete : ℕ → Request

unfoldable pub handle : Signer → (Text → Option Network) → Request → Run Site Reply
handle s ip_network (sign zone_id) = dnssec_sign s zone_id
handle s ip_network (simple form) = simple_mode form
handle s ip_network (reverse_new form) = new_reverse_zone ip_network form
handle s ip_network (new form) = new_zone form
handle s ip_network (add_ptr zone_id body) = add_ptr_convenience s zone_id body
handle s ip_network (bulk_delete zone_id ids) = bulk_delete_records s zone_id ids
handle s ip_network (bulk_ttl zone_id ids ttl) = bulk_set_ttl s zone_id ids ttl
handle s ip_network (soa zone_id body) = update_soa s zone_id body
handle s ip_network (delete_all zone_id) = delete_zone zone_id
handle s ip_network (add zone_id body) = add_record s zone_id body
handle s ip_network (delete record_id) = delete_record s record_id
