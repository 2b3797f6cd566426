-- ===== src/Py/Dict.antt =====
-- Python's `dict`: entries in insertion order, each key once.
pub mod Laws
use evoid_plugins.Prelude.{
  Bool, true, false, not, ◌&&◌, ◌||◌, Option, none, some, List, [], ◌∷◌, map, HasEq, ◌==◌,
  if◌then◌else◌,
}

abbrev pub Dict {ℓ} : Type ℓ → Type ℓ → Type ℓ
Dict K V = List (K × V)

module _ {ℓ} {K V : Type ℓ} ⦃e : HasEq K⦄ where
  -- `d.get(k)`
  unfoldable pub get : Dict K V → K → Option V
  get [] k = none
  get ((j, v) ∷ d) k = if j == k then some v else get d k

  -- `k in d`
  unfoldable pub has_key : Dict K V → K → Bool
  has_key [] k = false
  has_key ((j, v) ∷ d) k = j == k || has_key d k

  -- `d[k] = v`: a new key goes to the end, a present one keeps its place
  unfoldable pub put : Dict K V → K → V → Dict K V
  put [] k v = (k, v) ∷ []
  put ((j, w) ∷ d) k v = if j == k then (j, v) ∷ d else (j, w) ∷ put d k v

  -- `d.pop(k, None)` and `del d[k]`, as far as the dict goes
  unfoldable pub remove : Dict K V → K → Dict K V
  remove [] k = []
  remove ((j, w) ∷ d) k = let rest = remove d k in if j == k then rest else (j, w) ∷ rest

  abbrev pub get_or : Dict K V → K → V → V
  get_or d k v = elim (get d k) [ none ↦ v | some w ↦ w ]

  -- No key stands twice: what Python guarantees of a `dict`.
  unfoldable pub unique_keys : Dict K V → Bool
  unfolding has_key
  unique_keys [] = true
  unique_keys ((j, v) ∷ d) = not (has_key d j) && unique_keys d

module _ {ℓ} {K V : Type ℓ} where
  -- `d.values()`
  abbrev pub values : Dict K V → List V
  values d = map (λ e. e.1) d

  -- `d.keys()`
  abbrev pub keys : Dict K V → List K
  keys d = map (λ e. e.0) d
