-- ===== src/Resolver/Transfer/Allowed.antt =====
-- To whom `axfr` of app/dnscore/resolver.py gives a zone, and in which order.
use nova_dns.Prelude.{
  ◌≡◌, Bool, true, false, some, List, [], ◌∷◌, ◌++◌, inl, inr, Bool-cases, Option-cases, IsIn,
  arith, sym, subst, false, ◌↔◌, if◌then◌else◌, ◌||◌, Option, none, refl, map, ◌≢◌, ◌⊎◌, ◌&&◌, not,
  ◌==◌,
}
use nova_dns.Text.{Text, text_eq, rstrip_dot, dot}
use nova_dns.Text.Split.{text_eq_iff}
use nova_dns.Wire.Types.{codes}
use nova_dns.Wire.Rdata.{strip}
use nova_dns.Wire.Rdata.Encode.{split_at}
use nova_dns.Wire.Message.{ResourceRecord}
use nova_dns.Db.{Db, Zone, Row, select, select_one}
use nova_dns.Resolver.Host.{Host}
use nova_dns.Resolver.Zones.{synth_soa_rr, row_to_rr}
use nova_dns.Resolver.Clients.{has_char}
use nova_dns.Resolver.Transfer.{
  records, axfr, transfer_allowed, zone_records, other_records, owner_name,
}
use nova_dns.Db.Finding.{select_one-IsIn, IsIn-map-of, IsIn-map, IsIn-select-of, IsIn-select}

-- Some entry of the list, which is not blank, is the client's address or a network that has it.
abbrev pub HasClient : Host → Text → List Text → Type 0
HasClient host ip entries =
    (entry : Text) × IsIn entry entries
    × (strip entry ≢ [])
    × ((ip ≡ strip entry)
        ⊎ (has_char 47 (strip entry) ≡ true) × (host.in_network ip (strip entry) ≡ some true))

-- what the test of an entry comes to, given whether a network has the client
verdict :
    (tried : Option Bool) (own rest : Bool)
    → elim tried [ none ↦ false | some true ↦ true | some false ↦ own || rest ] ≡ true
    → (tried ≡ some true) ⊎ (own ≡ true) ⊎ (rest ≡ true)
verdict none own rest h = cc
verdict (some true) own rest h = inl refl
verdict (some false) true rest h = inr (inl refl)
verdict (some false) false rest h = inr (inr h)

HasClient-of :
    (host : Host) (ip : Text) (entries : List Text)
    → transfer_allowed host ip entries ≡ true
    → HasClient host ip entries
unfolding transfer_allowed
HasClient-of host ip [] h = cc
HasClient-of host ip (e ∷ es) h = elim (Bool-cases (text_eq (strip e) [])) [
  | inl blank ↦ later (HasClient-of host ip es (rw (blank, transfer_allowed) at h))
  | inr given ↦
      let full : strip e ≢ [] = λ none_left. cc ((text_eq_iff (strip e) []).1 none_left) in
      elim (verdict (if has_char 47 (strip e) then host.in_network ip (strip e) else some false)
        (text_eq ip (strip e)) (transfer_allowed host ip es) (rw (given, transfer_allowed) at h)) [
          | inl network ↦ (e, inl refl, full, inr (in_network e network))
          | inr (inl own) ↦ (e, inl refl, full, inl ((text_eq_iff ip (strip e)).0 own))
          | inr (inr rest) ↦ later (HasClient-of host ip es rest)
        ]
]
  where
    later : HasClient host ip es → HasClient host ip (e ∷ es)
    later (entry, at, filled, has) = (entry, inr at, filled, has)

    in_network :
        (x : Text)
        → (if has_char 47 (strip x) then host.in_network ip (strip x) else some false) ≡ some true
        → (has_char 47 (strip x) ≡ true) × (host.in_network ip (strip x) ≡ some true)
    in_network x h = elim (Bool-cases (has_char 47 (strip x))) [
      | inl net ↦ (net, rw net at h)
      | inr plain ↦ let no : some false ≡ some true = rw plain at h in cc
    ]

-- Row `row` of the zone is the record `rr` of its transfer: at the zone's own name for "@", else
-- below it. An SOA row at the zone's name is left out.
abbrev pub IsRecordOf : Db → Zone → ResourceRecord → Type 0
IsRecordOf db zone rr =
    (row : Row) × IsIn row db.records
    × (row.zone_id ≡ zone.id)
    × ((row.name ≡ codes "@")
          × (text_eq row.rtype (codes "SOA") ≡ false)
          × (rr ≡ row_to_rr (rstrip_dot zone.name ++ dot ∷ []) row zone.default_ttl)
        ⊎ (row.name ≢ codes "@")
          × (rr
              ≡ row_to_rr (row.name ++ dot ∷ (rstrip_dot zone.name ++ dot ∷ [])) row
                  zone.default_ttl))

module _ (host : Host) (db : Db) (zone : Zone) where
  abbrev base : Text
  base = rstrip_dot zone.name ++ dot ∷ []

  -- the row is of the zone, and no SOA at its name
  abbrev is_kept : Row → Bool
  is_kept row =
      row.zone_id == zone.id
      && not (text_eq row.name (codes "@") && text_eq row.rtype (codes "SOA"))

  abbrev record_of : Row → ResourceRecord
  record_of row = row_to_rr (owner_name host base row.name) row zone.default_ttl

  record_of-IsRecordOf :
      (row : Row) → IsIn row db.records → is_kept row ≡ true → IsRecordOf db zone (record_of row)
  unfolding owner_name
  record_of-IsRecordOf row at kept = elim (Bool-cases (text_eq row.name (codes "@"))) [
    | inl apex ↦ (
      row,
      at,
      ground arith,
      inl ((text_eq_iff row.name (codes "@")).0 apex, ground arith, rw (apex, owner_name) refl),
    )
    | inr below ↦ (
      row,
      at,
      ground arith,
      inr ((λ e. cc ((text_eq_iff row.name (codes "@")).1 e)), rw (below, owner_name) refl),
    )
  ]

  IsRecordOf-of :
      (rr : ResourceRecord) → IsIn rr (other_records host db zone) → IsRecordOf db zone rr
  unfolding other_records
  IsRecordOf-of rr i =
      let (row, at, e) = IsIn-map-of record_of (select is_kept db.records) rr i in
      let (there, kept) = IsIn-select-of is_kept db.records row at in
      subst (λ q. IsRecordOf db zone q) (sym e) (record_of-IsRecordOf row there kept)

  of-IsRecordOf :
      (rr : ResourceRecord) → IsRecordOf db zone rr → IsIn rr (other_records host db zone)
  unfolding other_records owner_name
  of-IsRecordOf rr (row, at, of_zone, inl (apex, other, e)) =
      let named : text_eq row.name (codes "@") ≡ true = (text_eq_iff row.name (codes "@")).1 apex in
      let kept : is_kept row ≡ true = ground arith in
      let same : record_of row ≡ rr = rw (named, owner_name) (sym e) in
      subst (λ q. IsIn q (map record_of (select is_kept db.records))) same
        (IsIn-map record_of _ row (IsIn-select is_kept db.records row at kept))
  of-IsRecordOf rr (row, at, of_zone, inr (below, e)) =
      elim (Bool-cases (text_eq row.name (codes "@"))) [
        | inl apex ↦ absurd (below ((text_eq_iff row.name (codes "@")).0 apex))
        | inr named ↦
            let kept : is_kept row ≡ true = ground arith in
            let same : record_of row ≡ rr = rw (named, owner_name) (sym e) in
            subst (λ q. IsIn q (map record_of (select is_kept db.records))) same
              (IsIn-map record_of _ row (IsIn-select is_kept db.records row at kept))
      ]

-- The transfer of a zone of the name that was asked for: its SOA first and last, and between them
-- the records of its rows, all of them and no others.
pub record IsTransferOf (db : Db) (name : Text) (rrs : List ResourceRecord) : Type 0 where
  pub zone : Zone
  pub listed : IsIn zone db.zones
  pub named : zone.name ≡ rstrip_dot name
  pub others : List ResourceRecord
  pub framed : rrs ≡ synth_soa_rr zone ∷ (others ++ synth_soa_rr zone ∷ [])
  pub complete : (rr : ResourceRecord) → IsIn rr others ↔ IsRecordOf db zone rr

module _ (host : Host) (db : Db) (raw name ip : Text) where
  -- Records are transferred only where the setting is not blank and some entry of it is the client's
  -- address or a network that has it. They are then those of a zone that is named like this: its SOA
  -- first and last, and between them exactly the records of its rows, without those of another zone
  -- and without an SOA row at its own name.
  pub axfr-Allowed :
      (rrs : List ResourceRecord)
      → axfr host db raw name ip ≡ records rrs
      → (strip raw ≢ [])
        × (host.is_address ip ≡ true)
        × HasClient host ip (split_at 44 [] raw)
        × IsTransferOf db name rrs
  unfolding axfr zone_records
  axfr-Allowed rrs h =
      elim (Option-cases (select_one (λ z. text_eq z.name (rstrip_dot name)) db.zones)) [
        | inl gone ↦ ground arith
        | inr (z, there) ↦
            let found = select_one-IsIn (λ z. text_eq z.name (rstrip_dot name)) db.zones there in
            let same : records (zone_records host db z) ≡ records rrs = ground arith in
            let set : text_eq (strip raw) [] ≡ false = ground arith in
            let allowed : transfer_allowed host ip (split_at 44 [] raw) ≡ true = ground arith in
            (
              (λ e. cc ((text_eq_iff (strip raw) []).1 e)),
              ground arith,
              HasClient-of host ip (split_at 44 [] raw) allowed,
              record {
                zone = z;
                listed = found.0;
                named = (text_eq_iff z.name (rstrip_dot name)).0 found.1;
                others = other_records host db z;
                framed = cc;
                complete = λ rr. (IsRecordOf-of host db z rr, of-IsRecordOf host db z rr);
              },
            )
      ]
