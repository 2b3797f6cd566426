-- ===== src/Cluster/Registry/Balance.antt =====
-- `resolve_load_balanced` goes round the healthy nodes.
use evoid_plugins.Prelude.{
  ℕ, zero, suc, ◌+◌, ◌%◌, ◌≡◌, refl, some, List, ◌∷◌, String, arith, string_eq, ap, ◌∙◌, ◌<◌, ◌-◌,
  ==_iff, length, get_elem?, sym, lt-length_of_get_elem?,
}
use native.Mathlib.Nat.{add-zero, mod-add-mod, add-mod-mod, add-mod_right, mod-lt, mod-eq_of_lt}
use evoid_plugins.Py.Dict.{Dict, get, get_or, put}
use evoid_plugins.Py.Dict.Laws.{get-put}
use evoid_plugins.Cluster.Registry.{
  Registry, is_healthy, candidates, healthy_ids, pick, resolve_load_balanced,
}

-- The registry after so many balanced resolutions of one name.
unfoldable pub after : Registry → String → ℕ → Registry
after r name zero = r
after r name (suc j) = (resolve_load_balanced (after r name j) name).1

module _ (r : Registry) (name : String) (i : String) (is : List String)
    (healthy : healthy_ids r name ≡ i ∷ is) where
  abbrev count : ℕ
  count = length (i ∷ is)

  healthy_ids_same : (x : Dict String ℕ) → healthy_ids (record r { rr_index = x }) name ≡ i ∷ is
  unfolding is_healthy candidates
  healthy_ids_same x = healthy

  resolve_load_balanced_step :
      (x : Dict String ℕ)
      → resolve_load_balanced (record r { rr_index = x }) name ≡ (
        pick r (i ∷ is) (get_or x name 0 % count),
        record r { rr_index = put x name (get_or x name 0 % count + 1) },
      )
  unfolding resolve_load_balanced pick
  resolve_load_balanced_step x = rw (healthy_ids_same x, resolve_load_balanced)

  -- the counter of the name after so many calls
  counters : ℕ → Dict String ℕ
  counters zero = r.rr_index
  counters (suc j) = put (counters j) name (get_or (counters j) name 0 % count + 1)

  after-eq : (j : ℕ) → after r name j ≡ record r { rr_index = counters j }
  unfolding after counters
  after-eq zero = refl
  after-eq (suc j) =
      ap (λ s. (resolve_load_balanced s name).1) (after-eq j)
      ∙ ap (λ p. p.1) (resolve_load_balanced_step (counters j))

  counters_mod :
      (j : ℕ) → get_or (counters j) name 0 % count ≡ (get_or r.rr_index name 0 + j) % count
  unfolding counters
  counters_mod zero = rw add-zero
  counters_mod (suc j) =
      let next : get_or (counters (suc j)) name 0 ≡ get_or (counters j) name 0 % count + 1 =
        ground (
          arith,
          get-put (counters j) name name (get_or (counters j) name 0 % count + 1),
          ==_iff name name,
        ) in
      ap (λ t. t % count) next
      ∙ ap (λ t. (t + 1) % count) (counters_mod j)
      ∙ mod-add-mod (get_or r.rr_index name 0 + j) count 1
      ∙ ap (λ t. t % count) (omega arith)

  -- While the healthy nodes stay the same, the j-th of consecutive balanced resolutions takes the
  -- node that stands j places on from the counter, round the list of healthy ids.
  pub resolve_load_balanced-after :
      (j : ℕ)
      → (resolve_load_balanced (after r name j) name).0
        ≡ pick r (i ∷ is) ((get_or r.rr_index name 0 + j) % count)
  resolve_load_balanced-after j =
      ap (λ s. (resolve_load_balanced s name).0) (after-eq j)
      ∙ ap (λ p. p.0) (resolve_load_balanced_step (counters j))
      ∙ ap (pick r (i ∷ is)) (counters_mod j)

  -- the call, counted from the current one, that takes the p-th healthy id
  abbrev turn_of : ℕ → ℕ
  turn_of p = (p + (count - get_or r.rr_index name 0 % count)) % count

  turn_of_lem : (p : ℕ) → p < count → (get_or r.rr_index name 0 + turn_of p) % count ≡ p
  turn_of_lem p h =
      let start = get_or r.rr_index name 0 in
      let low = mod-lt start {m = count} (omega arith) in
      add-mod-mod start (p + (count - start % count)) count
      ∙ sym (mod-add-mod start count (p + (count - start % count)))
      ∙ ap (λ t. t % count) {x = start % count + (p + (count - start % count))} {y = p + count}
          (omega (arith, low))
      ∙ add-mod_right p count
      ∙ mod-eq_of_lt h

  -- Fairness: while the healthy nodes stay the same, each of them is taken within as many balanced
  -- resolutions as there are healthy ids.
  pub resolve_load_balanced_fair :
      (p : ℕ) (nid : String)
      → get_elem? (i ∷ is) p ≡ some nid
      → (j : ℕ) × (j < count) × ((resolve_load_balanced (after r name j) name).0 ≡ get r.nodes nid)
  unfolding pick
  resolve_load_balanced_fair p nid at =
      let within = lt-length_of_get_elem? (i ∷ is) p at in
      (
        turn_of p,
        mod-lt (p + (count - get_or r.rr_index name 0 % count)) (omega arith),
        resolve_load_balanced-after (turn_of p)
            ∙ ap (pick r (i ∷ is)) (turn_of_lem p within)
            ∙ ground (arith, at),
      )
