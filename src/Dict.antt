-- ===== src/Dict.antt =====
-- Python's `dict` as a list of pairs in insertion order: a new key goes to the end, a key that is
-- there keeps its place. `eq` is the keys' ==.
pub mod Laws
use nova_dns.Prelude.{Bool, Option, none, some, List, [], ◌∷◌, map, if◌then◌else◌}

module _ {ℓ κ} {K : Type ℓ} {V : Type κ} (eq : K → K → Bool) where
  -- d.get(k)
  unfoldable pub get : K → List (K × V) → Option V
  get k [] = none
  get k ((j, v) ∷ d) = let rest = get k d in if eq j k then some v else rest

  -- d[k] = v
  unfoldable pub put : K → V → List (K × V) → List (K × V)
  put k v [] = (k, v) ∷ []
  put k v ((j, w) ∷ d) = let rest = put k v d in if eq j k then (j, v) ∷ d else (j, w) ∷ rest

  -- del d[k], for a key that is there
  unfoldable pub remove : K → List (K × V) → List (K × V)
  remove k [] = []
  remove k ((j, v) ∷ d) = let rest = remove k d in if eq j k then d else (j, v) ∷ rest
