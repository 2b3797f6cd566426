-- ===== src/Scheduler/Heap.antt =====
-- Python's `heapq`, which packages/evoid-scheduler/evoid_scheduler/engine.py uses: an interface, so
-- that nothing depends on which of several least items `heappop` takes.
pub mod Scan
use evoid_plugins.Prelude.{
  ℕ, ◌+◌, ◌≡◌, ◌≢◌, Bool, true, Option, none, some, List, [], ◌∷◌, if◌then◌else◌,
}

module _ {ℓ} {A : Type ℓ} where
  -- how many items of a list meet a test
  unfoldable pub count_if : (A → Bool) → List A → ℕ
  count_if p [] = 0
  count_if p (x ∷ xs) = (if p x then 1 else 0) + count_if p xs

-- A heap is a list of items in the order `lt`. What the functions do is said by counting: a push
-- adds the item, a pop takes out one, and no other item is less than the one that is popped.
pub record Heapq {ℓ} {A : Type ℓ} (lt : A → A → Bool) : Type ℓ where
  pub heappush : List A → A → List A
  pub heappop : List A → Option (A × List A)
  pub is_heap : List A → Bool
  pub is_heap-nil : is_heap [] ≡ true
  pub is_heap-heappush : (h : List A) (a : A) → is_heap h ≡ true → is_heap (heappush h a) ≡ true
  pub count_if-heappush :
      (p : A → Bool) (h : List A) (a : A)
      → count_if p (heappush h a) ≡ (if p a then 1 else 0) + count_if p h
  pub heappop-nil : heappop [] ≡ none
  pub heappop-some : (h : List A) → h ≢ [] → heappop h ≢ none
  pub count_if-heappop :
      (p : A → Bool) (h rest : List A) (a : A)
      → heappop h ≡ some (a, rest)
      → count_if p h ≡ (if p a then 1 else 0) + count_if p rest
  pub is_heap-heappop :
      (h rest : List A) (a : A)
      → is_heap h ≡ true
      → heappop h ≡ some (a, rest)
      → is_heap rest ≡ true
  pub heappop-least :
      (h rest : List A) (a : A)
      → is_heap h ≡ true
      → heappop h ≡ some (a, rest)
      → count_if (λ b. lt b a) rest ≡ 0
