-- ===== src/Tests/Signing.antt =====
-- Signing the small zone, and what the results say of it.
use nova_dns.Prelude.{◌≡◌, refl, false, none, [], ◌∷◌, Result, ok}
use nova_dns.Wire.Types.{codes}
use nova_dns.Run.{go_on}
use nova_dns.Db.{Db}
use nova_dns.Tests.Data.{plain_codec, small_db, example_zone}
use nova_dns.ZoneSigning.Signing.{Signer, Summary, sign_zone}
use nova_dns.ZoneSigning.Signing.Kept.{Kept, sign_zone-Kept}
use nova_dns.ZoneSigning.Signing.Outcome.{IsSigned, sign_zone-IsSigned}

abbrev pub small_signer : Signer
small_signer = record {
  codec = plain_codec;
  sha1 = λ b. 1 ∷ 2 ∷ 3 ∷ 4 ∷ 5 ∷ [];
  sha256 = λ b. 7 ∷ [];
  sign = λ key b. 9 ∷ [];
  private_pem = codes "pem";
  pubkey_bytes = 1 ∷ 2 ∷ [];
  now = 5000;
}

abbrev signed_db : Db
signed_db = (sign_zone small_signer example_zone none small_db).0

-- the A, DNSKEY and SOA records, and the NSEC records of both names
abbrev small_summary : Summary
small_summary = record {
  key_tag = 1296;
  algorithm = 13;
  rrsets_signed = 5;
  nsec_records = 2;
  nsec3 = false;
  ds_digest_sha256 = codes "07";
}

small_zone_signed :
    ◌≡◌ {A = Db × Result Summary}
      (sign_zone small_signer example_zone none small_db)
      (signed_db, ok small_summary)
unfolding sign_zone go_on
small_zone_signed = refl

sign_zone-Kept_example : Kept 1 small_db signed_db
sign_zone-Kept_example = sign_zone-Kept small_signer example_zone none small_db

sign_zone-IsSigned_example :
    IsSigned small_signer example_zone false small_db signed_db small_summary
sign_zone-IsSigned_example =
    sign_zone-IsSigned small_signer example_zone none small_db signed_db small_summary
      small_zone_signed
