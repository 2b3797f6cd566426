-- ===== src/Tasks/Handles/Values.antt =====
-- The handles that stand in the index of running tasks.
use evoid_plugins.Prelude.{
  ℕ, ◌≡◌, refl, ap, true, false, not, ◌&&◌, ◌||◌, some, [], ◌∷◌, ◌++◌, arith, nat_eq, ◌==◌, ==_iff,
  contains, distinct, Bool-cases, inl, inr,
}
use evoid_plugins.Py.Dict.{Dict, get, has_key, put, remove, values, unique_keys}
use evoid_plugins.Tasks.{TaskId, task_id_eq}

pub values-snoc :
    (d : Dict TaskId ℕ) (k : TaskId) (h : ℕ) → values (d ++ (k, h) ∷ []) ≡ values d ++ h ∷ []
values-snoc [] k h = refl
values-snoc ((j, w) ∷ d) k h = ap (λ t. w ∷ t) (values-snoc d k h)

pub contains-values_absent :
    (d : Dict TaskId ℕ) (k : TaskId) (x : ℕ) → has_key d k ≡ false → remove d k ≡ d
unfolding has_key remove
contains-values_absent [] k x h = refl
contains-values_absent ((j, w) ∷ d) k x h = ground (arith, contains-values_absent d k x)

pub contains-values-get :
    (d : Dict TaskId ℕ) (k : TaskId) (h : ℕ) → get d k ≡ some h → contains (values d) h ≡ true
unfolding get contains
contains-values-get [] k h found = cc
contains-values-get ((j, w) ∷ d) k h found = ground (arith, contains-values-get d k h, ==_iff w h)

pub contains-values-remove :
    (d : Dict TaskId ℕ) (k : TaskId) (h x : ℕ)
    → unique_keys d ≡ true
    → distinct (values d) ≡ true
    → get d k ≡ some h
    → contains (values (remove d k)) x ≡ (contains (values d) x && not (x == h))
unfolding get contains remove unique_keys distinct
contains-values-remove [] k h x u n found = cc
contains-values-remove ((j, w) ∷ d) k h x u n found = elim (Bool-cases (j == k)) [
  | inl same ↦
      ground (arith, ==_iff j k, contains-values_absent d k x, ==_iff w x, ==_iff x h, ==_iff x w)
  | inr other ↦ ground (
    arith,
    other,
    contains-values-remove d k h x,
    contains-values-get d k h,
    ==_iff w x,
    ==_iff x h,
    ==_iff w h,
  )
]

pub distinct-values-remove :
    (d : Dict TaskId ℕ) (k : TaskId) (h : ℕ)
    → unique_keys d ≡ true
    → distinct (values d) ≡ true
    → get d k ≡ some h
    → distinct (values (remove d k)) ≡ true
unfolding get contains remove unique_keys distinct
distinct-values-remove [] k h u n found = cc
distinct-values-remove ((j, w) ∷ d) k h u n found = elim (Bool-cases (j == k)) [
  | inl same ↦ ground (arith, ==_iff j k, contains-values_absent d k h)
  | inr other ↦ ground (arith, other, distinct-values-remove d k h, contains-values-remove d k h w)
]

pub contains-values-put :
    (d : Dict TaskId ℕ) (k : TaskId) (h v x : ℕ)
    → unique_keys d ≡ true
    → distinct (values d) ≡ true
    → get d k ≡ some h
    → contains (values (put d k v)) x ≡ (v == x || (contains (values d) x && not (x == h)))
unfolding get contains put unique_keys distinct
contains-values-put [] k h v x u n found = cc
contains-values-put ((j, w) ∷ d) k h v x u n found = elim (Bool-cases (j == k)) [
  | inl same ↦ ground (arith, ==_iff j k, ==_iff w x, ==_iff x h, ==_iff x w)
  | inr other ↦ ground (
    arith,
    other,
    contains-values-put d k h v x,
    contains-values-get d k h,
    ==_iff w x,
    ==_iff x h,
    ==_iff w h,
  )
]
