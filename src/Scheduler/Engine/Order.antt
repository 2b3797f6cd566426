-- ===== src/Scheduler/Engine/Order.antt =====
-- What the scheduler's calls answer: the task with the highest priority, the ids of tasks.
use evoid_plugins.Prelude.{
  ℕ, zero, suc, ◌≤◌, ◌≡◌, ◌≢◌, refl, true, false, ◌&&◌, not, none, some, List, [], ◌∷◌, nat_eq,
  ◌==◌, ==_iff, ltb, length, arith, Option-cases, Bool-cases, inl, inr,
}
use evoid_plugins.Py.Dict.{has_key}
use evoid_plugins.Py.Dict.Laws.{has_key-remove}
use evoid_plugins.Scheduler.Heap.{Heapq, count_if}
use evoid_plugins.Scheduler.Engine.{
  QueueItem, item_lt, Engine, cancel, remove_first, find_deferred, dequeue_loop, dequeue,
}
use evoid_plugins.Scheduler.Engine.Bookkeeping.{has_id, copies, IsTracked, cancel-IsTracked}

module _ {I : Type 0} where
  -- A deferred task is cancelled by its priority: where another one with the same priority stands
  -- first, that one goes, and the task itself stays deferred.
  pub cancel_other :
      (e : Engine I) (first item : QueueItem I) (between : List (QueueItem I))
      → e.deferred ≡ first ∷ between
      → has_key e.task_index item.task_id ≡ false
      → find_deferred item.task_id between ≡ some item
      → first.task_id ≢ item.task_id
      → first.priority ≡ item.priority
      → ((cancel e item.task_id).0 ≡ true) × ((cancel e item.task_id).1.deferred ≡ between)
  unfolding cancel find_deferred remove_first
  cancel_other e first item between stands queued found other same =
      ground (arith, stands, ==_iff first.task_id item.task_id)

  count_all : (items : List (QueueItem I)) → count_if (λ b. true) items ≡ length items
  unfolding count_if
  count_all [] = refl
  count_all (x ∷ xs) = omega (arith, count_all xs)

  copies-le-length : (k : ℕ) (items : List (QueueItem I)) → copies k items ≤ length items
  unfolding count_if
  copies-le-length k [] = omega arith
  copies-le-length k (x ∷ xs) = ground (arith, copies-le-length k xs)

module _ {I : Type 0} (heapq : Heapq (item_lt {I = I})) where
  -- The task that was dequeued, beside the engine before and after.
  pub record IsNext (e e' : Engine I) (item : QueueItem I) : Type 0 where
    -- it was queued, and not cancelled
    pub queued : has_key e.task_index item.task_id ≡ true
    -- it is queued no longer, and all others are as they were
    pub others :
        (k : ℕ) → has_key e'.task_index k ≡ (not (item.task_id == k) && has_key e.task_index k)
    -- nothing that is left in the heap has a higher priority
    pub best : count_if (λ b. ltb item.priority b.priority) e'.heap ≡ 0

  dequeue_loop-IsNext :
      (fuel : ℕ) (e e' : Engine I) (item : QueueItem I)
      → heapq.is_heap e.heap ≡ true
      → dequeue_loop heapq fuel e ≡ (some item, e')
      → IsNext e e' item
  unfolding dequeue_loop
  dequeue_loop-IsNext zero e e' item ordered h = record { queued = cc; others = λ k. cc; best = cc }
  dequeue_loop-IsNext (suc fuel) e e' item ordered h = elim (Option-cases (heapq.heappop e.heap)) [
    | inl empty ↦ record { queued = ground arith; others = λ k. ground arith; best = ground arith }
    | inr ((top, rest), popped) ↦ elim (Bool-cases (has_key e.task_index top.task_id)) [
      | inl there ↦ record {
        queued = ground arith;
        others = λ k. ground (arith, has_key-remove e.task_index top.task_id k);
        best = ground (arith, heapq.heappop-least e.heap rest top ordered popped);
      }
      | inr gone ↦
          let below = record e { heap = rest } in
          let n =
            dequeue_loop-IsNext fuel below e' item
              (heapq.is_heap-heappop e.heap rest top ordered popped) (ground arith) in
          record { queued = n.queued; others = n.others; best = n.best }
    ]
  ]

  -- `_dequeue` takes a task that was queued and not cancelled, leaves all the others, and what it
  -- leaves in the heap has no higher priority.
  pub dequeue-IsNext :
      (e e' : Engine I) (item : QueueItem I)
      → IsTracked heapq e
      → dequeue heapq e ≡ (some item, e')
      → IsNext e e' item
  unfolding dequeue
  dequeue-IsNext e e' item t h = dequeue_loop-IsNext (length e.heap) e e' item t.ordered h

  copies_of_heappop-eq-none :
      (k : ℕ) (items : List (QueueItem I)) → heapq.heappop items ≡ none → copies k items ≡ 0
  unfolding count_if
  copies_of_heappop-eq-none k [] h = refl
  copies_of_heappop-eq-none k (x ∷ xs) h = absurd (heapq.heappop-some (x ∷ xs) (λ e. cc) h)

  dequeue_loop-eq-none :
      (fuel : ℕ) (e e' : Engine I) (k : ℕ)
      → length e.heap ≤ fuel
      → dequeue_loop heapq fuel e ≡ (none, e')
      → has_key e.task_index k ≡ true
      → copies k e.heap ≡ 0
  unfolding dequeue_loop count_if
  dequeue_loop-eq-none zero e e' k short h there = omega (arith, copies-le-length k e.heap)
  dequeue_loop-eq-none (suc fuel) e e' k short h there =
      elim (Option-cases (heapq.heappop e.heap)) [
        | inl empty ↦ copies_of_heappop-eq-none k e.heap empty
        | inr ((top, rest), popped) ↦ elim (Bool-cases (has_key e.task_index top.task_id)) [
          | inl found ↦ ground arith
          | inr gone ↦ ground (
            arith,
            heapq.count_if-heappop (has_id k) e.heap rest top popped,
            heapq.count_if-heappop (λ b. true) e.heap rest top popped,
            count_all e.heap,
            count_all rest,
            ==_iff top.task_id k,
            dequeue_loop-eq-none fuel (record e { heap = rest }) e' k,
          )
        ]
      ]

  -- `_dequeue` answers `None` only where no task is queued: it never misses one.
  pub dequeue-eq-none :
      (e e' : Engine I) (k : ℕ)
      → IsTracked heapq e
      → dequeue heapq e ≡ (none, e')
      → has_key e.task_index k ≡ false
  unfolding dequeue
  dequeue-eq-none e e' k t h = elim (Bool-cases (has_key e.task_index k)) [
    | inr absent ↦ absent
    | inl there ↦ ground (
      arith,
      t.indexed k there,
      dequeue_loop-eq-none (length e.heap) e e' k (omega arith) h there,
    )
  ]

  -- A cancelled task is not dequeued.
  pub dequeue-cancel :
      (e e' : Engine I) (k : ℕ) (item : QueueItem I)
      → IsTracked heapq e
      → has_key e.task_index k ≡ true
      → dequeue heapq (cancel e k).1 ≡ (some item, e')
      → item.task_id ≢ k
  unfolding cancel
  dequeue-cancel e e' k item t queued h same =
      let n = dequeue-IsNext (cancel e k).1 e' item (cancel-IsTracked heapq e k t) h in
      ground (arith, n.queued, has_key-remove e.task_index k item.task_id, ==_iff k item.task_id)
