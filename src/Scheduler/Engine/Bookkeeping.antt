-- ===== src/Scheduler/Engine/Bookkeeping.antt =====
-- The heap, the index and the deferred tasks of the scheduler keep track of the same tasks.
use evoid_plugins.Prelude.{
  ℕ, zero, suc, ◌+◌, ◌≤◌, ◌<◌, ◌≡◌, refl, Bool, true, false, some, List, [], ◌∷◌, ◌++◌, nat_eq,
  ◌==◌, ==_iff, length, arith, Option-cases, Bool-cases, inl, inr,
}
use evoid_plugins.Py.Dict.{has_key, remove}
use evoid_plugins.Py.Dict.Laws.{has_key-put, has_key-remove}
use evoid_plugins.Scheduler.Heap.{Heapq, count_if}
use evoid_plugins.Scheduler.Engine.{
  QueueItem, item_lt, Engine, Reading, get_metrics, remove_first, find_deferred, cancel, enqueue,
  dequeue_loop, dequeue, drain,
}

module _ {I : Type 0} where
  abbrev pub has_id : ℕ → QueueItem I → Bool
  has_id k item = item.task_id == k

  -- how many items of a list have the id
  abbrev pub copies : ℕ → List (QueueItem I) → ℕ
  copies k items = count_if (has_id k) items

  copies-remove_first-le :
      (k : ℕ) (item : QueueItem I) (items : List (QueueItem I))
      → copies k (remove_first item items) ≤ copies k items
  unfolding remove_first count_if
  copies-remove_first-le k item [] = omega arith
  copies-remove_first-le k item (x ∷ xs) = ground (arith, copies-remove_first-le k item xs)

  pub copies-append :
      (k : ℕ) (xs ys : List (QueueItem I)) → copies k (xs ++ ys) ≡ copies k xs + copies k ys
  unfolding count_if
  copies-append k [] ys = omega arith
  copies-append k (x ∷ xs) ys = omega (arith, copies-append k xs ys)

  pub get_metrics_frame :
      (e : Engine I) (env : Reading)
      → ((get_metrics e env).1.heap ≡ e.heap)
        × ((get_metrics e env).1.task_index ≡ e.task_index)
        × ((get_metrics e env).1.deferred ≡ e.deferred)
        × ((get_metrics e env).1.task_counter ≡ e.task_counter)
        × ((get_metrics e env).1.enable_defer ≡ e.enable_defer)
  unfolding get_metrics
  get_metrics_frame e env = ground arith

module _ {I : Type 0} (heapq : Heapq (item_lt {I = I})) where
  -- Every indexed task stands in the heap, every task stands once in the heap or among the deferred
  -- tasks, the ids up to the counter alone
  -- are in use, and the heap is one.
  pub record IsTracked (e : Engine I) : Type 0 where
    pub indexed : (k : ℕ) → has_key e.task_index k ≡ true → copies k e.heap ≡ 1
    pub once : (k : ℕ) → copies k e.heap + copies k e.deferred ≤ 1
    pub ordered : heapq.is_heap e.heap ≡ true
    pub counted : (k : ℕ) → e.task_counter < k → copies k e.heap + copies k e.deferred ≡ 0

  -- A new task goes into the heap and the index, and nothing else changes.
  pub enqueue-IsTracked :
      (e : Engine I) (intent : I) (priority k now : ℕ)
      → copies k e.heap + copies k e.deferred ≡ 0
      → k ≤ e.task_counter
      → IsTracked e
      → IsTracked (enqueue heapq e intent priority k now)
  unfolding enqueue
  enqueue-IsTracked e intent priority k now new small t =
      let item : QueueItem I = record {
        priority = priority;
        neg_timestamp = now;
        task_id = k;
        intent = intent;
      } in
      record {
        indexed = λ j h. ground (
          arith,
          heapq.count_if-heappush (has_id j) e.heap item,
          has_key-put e.task_index k j item,
          t.indexed j,
          t.once j,
        );
        once = λ j. ground (arith, heapq.count_if-heappush (has_id j) e.heap item, t.once j);
        ordered = heapq.is_heap-heappush e.heap item t.ordered;
        counted =
            λ j h. ground (arith, heapq.count_if-heappush (has_id j) e.heap item, t.counted j);
      }

  pub drain-IsTracked :
      (e : Engine I) (items : List (QueueItem I)) (now : ℕ)
      → e.deferred ≡ items
      → IsTracked e
      → IsTracked (drain heapq e items now).1
  unfolding drain count_if
  drain-IsTracked e [] now same t = record {
    indexed = t.indexed;
    once = λ k. ground (arith, t.once k);
    ordered = t.ordered;
    counted = λ k h. ground (arith, t.counted k);
  }
  drain-IsTracked e (item ∷ rest) now same t =
      drain-IsTracked (enqueue heapq popped item.intent item.priority item.task_id now) rest now
        (unfold enqueue in refl)
        (enqueue-IsTracked popped item.intent item.priority item.task_id now
          (ground (arith, t.once item.task_id)) (ground (arith, t.counted item.task_id))
          record {
            indexed = t.indexed;
            once = λ k. ground (arith, t.once k);
            ordered = t.ordered;
            counted = λ k h. ground (arith, t.counted k);
          })
    where
      popped : Engine I
      popped = record e { deferred = rest }

  -- an item is taken out of the heap and of the index
  taken-IsTracked :
      (e : Engine I) (item : QueueItem I) (rest : List (QueueItem I))
      → heapq.heappop e.heap ≡ some (item, rest)
      → IsTracked e
      → IsTracked (record e { heap = rest; task_index = remove e.task_index item.task_id })
  taken-IsTracked e item rest popped t = record {
    indexed = λ k h. ground (
      arith,
      heapq.count_if-heappop (has_id k) e.heap rest item popped,
      has_key-remove e.task_index item.task_id k,
      t.indexed k,
    );
    once = λ k. ground (arith, heapq.count_if-heappop (has_id k) e.heap rest item popped, t.once k);
    ordered = heapq.is_heap-heappop e.heap rest item t.ordered popped;
    counted = λ k h.
        ground (arith, heapq.count_if-heappop (has_id k) e.heap rest item popped, t.counted k);
  }

  -- an item that is not in the index is dropped
  skipped-IsTracked :
      (e : Engine I) (item : QueueItem I) (rest : List (QueueItem I))
      → heapq.heappop e.heap ≡ some (item, rest)
      → has_key e.task_index item.task_id ≡ false
      → IsTracked e
      → IsTracked (record e { heap = rest })
  skipped-IsTracked e item rest popped gone t = record {
    indexed = λ k h. ground (
      arith,
      heapq.count_if-heappop (has_id k) e.heap rest item popped,
      t.indexed k,
      ==_iff item.task_id k,
    );
    once = λ k. ground (arith, heapq.count_if-heappop (has_id k) e.heap rest item popped, t.once k);
    ordered = heapq.is_heap-heappop e.heap rest item t.ordered popped;
    counted = λ k h.
        ground (arith, heapq.count_if-heappop (has_id k) e.heap rest item popped, t.counted k);
  }

  dequeue_loop-IsTracked :
      (fuel : ℕ) (e : Engine I) → IsTracked e → IsTracked (dequeue_loop heapq fuel e).1
  unfolding dequeue_loop
  dequeue_loop-IsTracked zero e t = t
  dequeue_loop-IsTracked (suc fuel) e t = elim (Option-cases (heapq.heappop e.heap)) [
    | inl empty ↦ rw (empty, dequeue_loop) t
    | inr ((item, rest), popped) ↦
        rw (popped, dequeue_loop)
          (elim (Bool-cases (has_key e.task_index item.task_id)) [
            | inl there ↦ rw there (taken-IsTracked e item rest popped t)
            | inr gone ↦ rw gone (
                dequeue_loop-IsTracked fuel (record e { heap = rest })
                  (skipped-IsTracked e item rest popped gone t))
          ])
  ]

  pub dequeue-IsTracked : (e : Engine I) → IsTracked e → IsTracked (dequeue heapq e).1
  unfolding dequeue
  dequeue-IsTracked e t = dequeue_loop-IsTracked (length e.heap) e t

  unindexed-IsTracked :
      (e : Engine I) (k : ℕ)
      → IsTracked e
      → IsTracked (record e { task_index = remove e.task_index k })
  unindexed-IsTracked e k t = record {
    indexed = λ j h. ground (arith, has_key-remove e.task_index k j, t.indexed j);
    once = t.once;
    ordered = t.ordered;
    counted = t.counted;
  }

  fewer_deferred-IsTracked :
      (e : Engine I) (items : List (QueueItem I))
      → ((k : ℕ) → copies k items ≤ copies k e.deferred)
      → IsTracked e
      → IsTracked (record e { deferred = items })
  fewer_deferred-IsTracked e items fewer t = record {
    indexed = t.indexed;
    once = λ k. ground (arith, t.once k, fewer k);
    ordered = t.ordered;
    counted = λ k h. ground (arith, t.counted k, fewer k);
  }

  pub cancel-IsTracked : (e : Engine I) (k : ℕ) → IsTracked e → IsTracked (cancel e k).1
  unfolding cancel
  cancel-IsTracked e k t = elim (Bool-cases (has_key e.task_index k)) [
    | inl queued ↦ rw queued (unindexed-IsTracked e k t)
    | inr elsewhere ↦ rw elsewhere (elim (Option-cases (find_deferred k e.deferred)) [
      | inl nowhere ↦ rw nowhere t
      | inr (item, found) ↦ rw found (
          fewer_deferred-IsTracked e (remove_first item e.deferred)
            (λ j. copies-remove_first-le j item e.deferred) t)
    ])
  ]
