-- ===== src/Resolver/Forward/Failover.antt =====
-- The failover of `_forward_query` in app/dnscore/resolver.py.
use nova_dns.Prelude.{
  ◌≡◌, refl, true, false, none, some, List, [], ◌∷◌, ◌++◌, ◌⊎◌, inl, inr, Bool-cases,
}
use nova_dns.Wire.Name.{Bytes}
use nova_dns.Wire.Message.{Message}
use nova_dns.Db.{Forwarder}
use nova_dns.Resolver.Host.{Host}
use nova_dns.Resolver.Forward.{ask, known_protocol, try_forwarders, set_healthy}

module _ (host : Host) (payload : Bytes) where
  -- A forwarder that gives no answer: its protocol is unknown, or the exchange fails.
  abbrev pub IsSilent : Forwarder → Type 0
  IsSilent f = (known_protocol f.protocol ≡ false) ⊎ (ask host payload f ≡ none)

  abbrev pub AllSilent : List Forwarder → Type 0
  AllSilent [] = Unit
  AllSilent (f ∷ fs) = IsSilent f × AllSilent fs

  -- the health of those that were asked
  unfoldable pub marked : List Forwarder → List Forwarder → List Forwarder
  marked [] table = table
  marked (f ∷ fs) table = elim (known_protocol f.protocol) [
    | false ↦ marked fs table
    | true ↦ marked fs (set_healthy false f.id table)
  ]

  skip-silent :
      (silent rest table : List Forwarder)
      → AllSilent silent
      → try_forwarders host payload (silent ++ rest) table
        ≡ try_forwarders host payload rest (marked silent table)
  unfolding try_forwarders marked
  skip-silent [] rest table h = refl
  skip-silent (f ∷ fs) rest table h = elim (Bool-cases (known_protocol f.protocol)) [
    | inl known ↦
        rw (known, answer known h.0, try_forwarders, marked)
          (skip-silent fs rest (set_healthy false f.id table) h.1)
    | inr unknown ↦ rw (unknown, try_forwarders, marked) (skip-silent fs rest table h.1)
  ]
    where
      answer : known_protocol f.protocol ≡ true → IsSilent f → ask host payload f ≡ none
      answer known (inl unknown) = cc
      answer known (inr e) = e

  -- Forwarders that are silent are passed over and those that were asked marked unhealthy; the
  -- first one that answers is marked healthy, and its answer is the result, whatever comes after.
  pub try_forwarders-first :
      (silent rest table : List Forwarder) (f : Forwarder) (m : Message)
      → AllSilent silent
      → known_protocol f.protocol ≡ true
      → ask host payload f ≡ some m
      → try_forwarders host payload (silent ++ f ∷ rest) table
        ≡ (set_healthy true f.id (marked silent table), some m)
  unfolding try_forwarders
  try_forwarders-first silent rest table f m h known answers =
      rw (skip-silent silent (f ∷ rest) table h, try_forwarders, known, answers)
