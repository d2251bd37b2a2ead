-- ===== src/ZoneSigning/Covering.antt =====
-- Which entry of a chain the search for a denial finds.
use nova_dns.Prelude.{
  ◌≡◌, refl, ◌⊎◌, inl, inr, Bool, true, false, not, ◌&&◌, some, List, [], ◌∷◌, arith, Bool-cases,
}
use nova_dns.Db.{Row}
use nova_dns.ZoneSigning.{covers, find_in_chain, find_covering}

module _ {ℓ} {K : Type ℓ} (lt : K → K → Bool) (key_of : Row → K) (q : K) (last_test : Bool) where
  -- Each key is below the next.
  abbrev pub Ascending : Row → List Row → Type 0
  Ascending row [] = Unit
  Ascending row (r ∷ rows) = (lt (key_of row) (key_of r) ≡ true) × Ascending r rows

  -- The entry stands below `q`, and the next one at `q` or above; or it is the last one, and `q` is
  -- above it, or not above the first.
  abbrev pub Denies : Row → Row → List Row → Row → Type 0
  Denies first row [] found =
      (found ≡ row) × ((lt (key_of row) q ≡ true) ⊎ (lt (key_of first) q ≡ false))
  Denies first row (r ∷ rows) found =
      (found ≡ row) × (lt (key_of row) q ≡ true) × (lt (key_of r) q ≡ false)
      ⊎ Denies first r rows found

  covers-middle :
      (owner next : K)
      → lt owner next ≡ true
      → covers lt key_of q last_test false owner next ≡ (lt owner q && not (lt next q))
  unfolding covers
  covers-middle owner next h = ground arith

  find_in_chain-Denies :
      (first row : Row) (rows : List Row)
      → Ascending row rows
      → (lt (key_of row) q ≡ true) ⊎ (lt (key_of first) q ≡ false)
      → Denies first row rows (find_in_chain lt key_of q last_test first row rows)
  unfolding find_in_chain
  find_in_chain-Denies first row [] a h = ground arith
  find_in_chain-Denies first row (r ∷ rows) a h = elim (Bool-cases (lt (key_of row) q)) [
    | inl below ↦ elim (Bool-cases (lt (key_of r) q)) [
      | inl on ↦
          rw (covers-middle (key_of row) (key_of r) a.0, below, on)
            (inr (find_in_chain-Denies first r rows a.1 (inl on)))
      | inr off ↦
          rw (covers-middle (key_of row) (key_of r) a.0, below, off) (inl (refl, refl, refl))
    ]
    | inr above ↦
        rw (covers-middle (key_of row) (key_of r) a.0, above)
          (inr (find_in_chain-Denies first r rows a.1 (inr (ground arith))))
  ]

  -- In a chain in strict order the search finds the entry whose range up to the next one holds the
  -- name, the last entry's range going on to the first.
  pub find_covering-Denies :
      (row : Row) (rows : List Row)
      → Ascending row rows
      → (found : Row) × (find_covering lt key_of q last_test (row ∷ rows) ≡ some found)
        × Denies row row rows found
  unfolding find_covering
  find_covering-Denies row rows a = (
    find_in_chain lt key_of q last_test row row rows,
    refl,
    find_in_chain-Denies row row rows a (decide (lt (key_of row) q)),
  )
    where
      decide : (b : Bool) → (b ≡ true) ⊎ (b ≡ false)
      decide b = Bool-cases b
