-- ===== src/Py/Dict/Laws.antt =====
-- Laws of Python's `dict`.
use evoid_plugins.Prelude.{
  ◌+◌, ◌≤◌, ◌≡◌, inl, inr, refl, true, false, not, ◌&&◌, ◌||◌, none, some, [], ◌∷◌, ◌++◌, arith,
  HasEq, ◌==◌, ==_iff, ==_sym, if◌then◌else◌, length, keep_if, Bool, Option-cases,
}
use evoid_plugins.Py.Dict.{Dict, get, has_key, put, remove, unique_keys}

module _ {ℓ} {K V : Type ℓ} ⦃e : HasEq K⦄ where
  pub get-put :
      (d : Dict K V) (k j : K) (v : V) → get (put d k v) j ≡ (if k == j then some v else get d j)
  unfolding get put
  get-put [] k j v = refl
  get-put ((i, w) ∷ d) k j v = ground (arith, ==_iff i k, ==_iff k j, ==_iff i j, get-put d k j v)

  pub get-remove :
      (d : Dict K V) (k j : K) → get (remove d k) j ≡ (if k == j then none else get d j)
  unfolding get remove
  get-remove [] k j = ground arith
  get-remove ((i, w) ∷ d) k j = ground (arith, ==_iff i k, ==_iff k j, ==_iff i j, get-remove d k j)

  pub has_key-put :
      (d : Dict K V) (k j : K) (v : V) → has_key (put d k v) j ≡ (k == j || has_key d j)
  unfolding has_key put
  has_key-put [] k j v = refl
  has_key-put ((i, w) ∷ d) k j v =
      ground (arith, ==_iff i k, ==_iff k j, ==_iff i j, has_key-put d k j v)

  pub has_key-remove :
      (d : Dict K V) (k j : K) → has_key (remove d k) j ≡ (not (k == j) && has_key d j)
  unfolding has_key remove
  has_key-remove [] k j = ground arith
  has_key-remove ((i, w) ∷ d) k j =
      ground (arith, ==_iff i k, ==_iff k j, ==_iff i j, has_key-remove d k j)

  -- A present key has a value, and an absent one has none.
  pub has_key-eq :
      (d : Dict K V) (k : K) → has_key d k ≡ (elim (get d k) [ none ↦ false | some v ↦ true ])
  unfolding get has_key
  has_key-eq [] k = refl
  has_key-eq ((j, v) ∷ d) k = ground (arith, has_key-eq d k)

  pub has_key→get : (d : Dict K V) (k : K) → has_key d k ≡ true → (v : V) × (get d k ≡ some v)
  has_key→get d k h = elim (Option-cases (get d k)) [
    | inl absent ↦ ground (arith, has_key-eq d k)
    | inr present ↦ present
  ]

  pub put-unique_keys :
      (d : Dict K V) (k : K) (v : V) → unique_keys d ≡ true → unique_keys (put d k v) ≡ true
  unfolding unique_keys put has_key
  put-unique_keys [] k v h = refl
  put-unique_keys ((j, w) ∷ d) k v h =
      ground (arith, ==_sym j k, has_key-put d k j v, put-unique_keys d k v)

  pub remove-unique_keys :
      (d : Dict K V) (k : K) → unique_keys d ≡ true → unique_keys (remove d k) ≡ true
  unfolding unique_keys remove has_key
  remove-unique_keys [] k h = refl
  remove-unique_keys ((j, w) ∷ d) k h = ground (arith, has_key-remove d k j, remove-unique_keys d k)

  pub length-put :
      (d : Dict K V) (k : K) (v : V)
      → length (put d k v) ≡ (if has_key d k then length d else length d + 1)
  unfolding has_key put
  length-put [] k v = refl
  length-put ((j, w) ∷ d) k v = ground (arith, length-put d k v)

  -- A new key goes to the end.
  pub put_new : (d : Dict K V) (k : K) (v : V) → has_key d k ≡ false → put d k v ≡ d ++ (k, v) ∷ []
  unfolding has_key put
  put_new [] k v h = refl
  put_new ((j, w) ∷ d) k v h = ground (arith, put_new d k v)

  pub length-remove-le : (d : Dict K V) (k : K) → length (remove d k) ≤ length d
  unfolding remove
  length-remove-le [] k = omega arith
  length-remove-le ((j, w) ∷ d) k = ground (arith, length-remove-le d k)

  -- Absent keys: `d.pop(k, None)` changes nothing.
  pub remove_absent : (d : Dict K V) (k : K) → has_key d k ≡ false → remove d k ≡ d
  unfolding remove has_key
  remove_absent [] k h = refl
  remove_absent ((j, w) ∷ d) k h = ground (arith, remove_absent d k)

  -- `{k: v for k, v in d.items() if p(k)}`
  pub get-keep_if :
      (p : K → Bool) (d : Dict K V) (k : K)
      → get (keep_if (λ entry. p entry.0) d) k ≡ (if p k then get d k else none)
  unfolding get keep_if
  get-keep_if p [] k = ground arith
  get-keep_if p ((j, v) ∷ d) k = ground (arith, ==_iff j k, get-keep_if p d k)
