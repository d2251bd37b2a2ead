-- ===== src/Cache.antt =====
-- app/dnscore/cache.py: `DNSCache`. The record type and its TTL are parameters: the cache reads
-- nothing else of a record. `time.time()` is a count of microseconds; `get` reads it twice.
pub mod Laws
pub mod History
use Prim.Native.Nat.{max, min}
use nova_dns.Prelude.{
  ℕ, zero, suc, ◌+◌, ◌-◌, ◌*◌, ◌/◌, Bool, ◌&&◌, Option, none, some, List, [], ◌∷◌, map, leb, ltb,
  if◌then◌else◌, length, take, drop,
}
use nova_dns.Dict
use nova_dns.Text.{Text, text_eq, fold_name}

abbrev pub second : ℕ
second = 1_000_000

abbrev pub Key : Type 0
Key = Text × Text

unfoldable pub key_eq : Key → Key → Bool
unfolding text_eq
key_eq (a, b) (c, d) = text_eq a c && text_eq b d

-- `_key`
unfoldable pub key : Text → Text → Key
unfolding fold_name
key name rtype = (fold_name name, rtype)

pub data Origin : Type 0 where
  forward authoritative : Origin

pub record Entry (R : Type 0) : Type 0 where
  pub expires_at : ℕ
  pub records : List R
  pub rcode : ℕ
  pub authority : List R
  pub origin : Origin

pub record DnsCache (R : Type 0) : Type 0 where
  pub store : List (Key × Entry R)
  pub max_entries : ℕ
  pub negative_ttl : ℕ
  pub hits : ℕ
  pub misses : ℕ

pub record Hit (R : Type 0) : Type 0 where
  pub records : List R
  pub rcode : ℕ
  pub ttl_remaining : ℕ
  pub authority : List R
  pub origin : Origin

-- A row of `inspect`.
pub record Row : Type 0 where
  pub name : Text
  pub rtype : Text
  pub ttl_remaining : ℕ
  pub answers : ℕ
  pub rcode : ℕ
  pub origin : Origin

-- `__init__`
abbrev pub new_cache : {R : Type 0} → ℕ → ℕ → DnsCache R
new_cache max_entries negative_ttl = record {
  store = [];
  max_entries = max_entries;
  negative_ttl = negative_ttl;
  hits = 0;
  misses = 0;
}

module _ {R : Type 0} where
  missed : DnsCache R → DnsCache R
  missed c = record c { misses = c.misses + 1 }

  hit_of : Entry R → ℕ → Hit R
  hit_of e now = record {
    records = e.records;
    rcode = e.rcode;
    ttl_remaining = (e.expires_at - now) / second;
    authority = e.authority;
    origin = e.origin;
  }

  -- `now` and `later` are the two readings of the clock.
  unfoldable pub get : DnsCache R → ℕ → ℕ → Text → Text → DnsCache R × Option (Hit R)
  unfolding missed hit_of key_eq key Dict.get Dict.remove
  get c now later name rtype =
      let k = key name rtype in
      elim (Dict.get key_eq k c.store) [
        | none ↦ (missed c, none)
        | some e ↦
            if ltb e.expires_at now
            then (missed (record c { store = Dict.remove key_eq k c.store }), none)
            else (record c { hits = c.hits + 1 }, some (hit_of e later))
      ]

  -- the first 5% of the keys, at least one, go when the store is full
  unfoldable pub make_room : DnsCache R → List (Key × Entry R)
  make_room c =
      if leb c.max_entries (length c.store)
      then drop (max 1 (c.max_entries / 20)) c.store
      else c.store

  module _ (ttl_of : R → ℕ) where
    -- min((r.ttl for r in records))
    unfoldable pub min_ttl : R → List R → ℕ
    min_ttl r [] = ttl_of r
    min_ttl r (s ∷ rs) = min (ttl_of r) (min_ttl s rs)

    unfoldable pub effective_ttl : ℕ → List R → Option ℕ → ℕ
    unfolding min_ttl
    effective_ttl negative_ttl [] ttl = negative_ttl
    effective_ttl negative_ttl (r ∷ rs) none = min_ttl r rs
    effective_ttl negative_ttl (r ∷ rs) (some ttl) = ttl

    unfoldable pub new_entry : ℕ → ℕ → List R → ℕ → Option ℕ → List R → Origin → Entry R
    unfolding effective_ttl
    new_entry negative_ttl now records rcode ttl authority origin = record {
      expires_at = now + effective_ttl negative_ttl records ttl * second;
      records = records;
      rcode = rcode;
      authority = authority;
      origin = origin;
    }

    unfoldable pub set :
        DnsCache R → ℕ → Text → Text → List R → ℕ → Option ℕ → List R → Origin → DnsCache R
    unfolding make_room new_entry key key_eq Dict.put
    set c now name rtype records rcode ttl authority origin = record c {
      store =
          Dict.put key_eq (key name rtype)
            (new_entry c.negative_ttl now records rcode ttl authority origin) (make_room c);
    }

  unfoldable pub clear : DnsCache R → DnsCache R
  clear c = record c { store = []; hits = 0; misses = 0 }

  -- `stats`; `ratio hits total` is the rounded percentage
  unfoldable pub stats : {F : Type 0} → (ℕ → ℕ → F) → F → DnsCache R → ℕ × ℕ × ℕ × F
  stats ratio zero_ratio c =
      let total = c.hits + c.misses in
      (length c.store, c.hits, c.misses, if leb total 0 then zero_ratio else ratio c.hits total)

  row : Key × Entry R → ℕ → Row
  row ((name, rtype), e) now = record {
    name = name;
    rtype = rtype;
    ttl_remaining = (e.expires_at - now) / second;
    answers = length e.records;
    rcode = e.rcode;
    origin = e.origin;
  }

  unfoldable pub inspect : DnsCache R → ℕ → ℕ → List Row
  unfolding row
  inspect c now limit = map (λ kv. row kv now) (take limit c.store)
