-- ===== src/Scheduler/Heap/Scan.antt =====
-- A heap that is searched from the front: the interface `Heapq` can be met.
use evoid_plugins.Prelude.{
  ◌+◌, ◌≡◌, ◌≢◌, refl, Bool, true, false, Option, none, some, List, [], ◌∷◌, if◌then◌else◌, arith,
  Bool-cases, inl, inr,
}
use mathlib.Core.Path.{subst}
use evoid_plugins.Scheduler.Heap.{count_if, Heapq}
use evoid_plugins.Scheduler.Engine.{QueueItem, item_lt}

module _ {I : Type 0} where
  -- a least item of a list with at least one, and the others
  unfoldable pub take_least : QueueItem I → List (QueueItem I) → QueueItem I × List (QueueItem I)
  take_least x [] = (x, [])
  take_least x (y ∷ ys) =
      let (least, others) = take_least y ys in
      if item_lt least x then (least, x ∷ others) else (x, y ∷ ys)

  unfoldable pub pop_least : List (QueueItem I) → Option (QueueItem I × List (QueueItem I))
  unfolding take_least
  pop_least [] = none
  pop_least (x ∷ xs) = some (take_least x xs)

  count_if-take_least :
      (p : QueueItem I → Bool) (x : QueueItem I) (xs : List (QueueItem I))
      → count_if p (x ∷ xs)
        ≡ (if p (take_least x xs).0 then 1 else 0) + count_if p (take_least x xs).1
  unfolding take_least count_if
  count_if-take_least p x [] = refl
  count_if-take_least p x (y ∷ ys) = ground (arith, count_if-take_least p y ys)

  -- nothing is less than an item that is not greater than the least one
  count_if_none :
      (a : QueueItem I) (x : QueueItem I) (xs : List (QueueItem I))
      → item_lt (take_least x xs).0 a ≡ false
      → count_if (λ b. item_lt b a) (x ∷ xs) ≡ 0
  unfolding take_least count_if
  count_if_none a x [] h = ground arith
  count_if_none a x (y ∷ ys) h = ground (arith, count_if_none a y ys)

  take_least_lem :
      (x : QueueItem I) (xs : List (QueueItem I))
      → count_if (λ b. item_lt b (take_least x xs).0) (take_least x xs).1 ≡ 0
  unfolding take_least count_if
  take_least_lem x [] = refl
  take_least_lem x (y ∷ ys) = elim (Bool-cases (item_lt (take_least y ys).0 x)) [
    | inl less ↦ rw less (ground (arith, take_least_lem y ys))
    | inr not_less ↦ rw not_less (count_if_none x y ys not_less)
  ]

  pub pop_least_some : (h : List (QueueItem I)) → h ≢ [] → pop_least h ≢ none
  unfolding pop_least
  pop_least_some [] full popped = full refl
  pop_least_some (x ∷ xs) full popped = cc

  pub count_if-pop_least :
      (p : QueueItem I → Bool) (h rest : List (QueueItem I)) (a : QueueItem I)
      → pop_least h ≡ some (a, rest)
      → count_if p h ≡ (if p a then 1 else 0) + count_if p rest
  unfolding pop_least
  count_if-pop_least p [] rest a popped = cc
  count_if-pop_least p (x ∷ xs) rest a popped =
      subst
        (λ (t : QueueItem I × List (QueueItem I)).
          count_if p (x ∷ xs) ≡ (if p t.0 then 1 else 0) + count_if p t.1)
        (ground arith) (count_if-take_least p x xs)

  pub pop_least-least :
      (h rest : List (QueueItem I)) (a : QueueItem I)
      → pop_least h ≡ some (a, rest)
      → count_if (λ b. item_lt b a) rest ≡ 0
  unfolding pop_least
  pop_least-least [] rest a popped = cc
  pop_least-least (x ∷ xs) rest a popped =
      let same : take_least x xs ≡ (a, rest) = ground arith in
      subst (λ (t : QueueItem I × List (QueueItem I)). count_if (λ b. item_lt b t.0) t.1 ≡ 0) same
        (take_least_lem x xs)

  unfoldable pub scan : Heapq (item_lt {I = I})
  unfolding pop_least count_if
  scan = record {
    heappush = λ h a. a ∷ h;
    heappop = pop_least;
    is_heap = λ h. true;
    is_heap-nil = refl;
    is_heap-heappush = λ h a i. refl;
    count_if-heappush = λ p h a. refl;
    heappop-nil = refl;
    heappop-some = pop_least_some;
    count_if-heappop = count_if-pop_least;
    is_heap-heappop = λ h rest a i popped. refl;
    heappop-least = λ h rest a i popped. pop_least-least h rest a popped;
  }
