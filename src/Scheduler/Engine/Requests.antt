-- ===== src/Scheduler/Engine/Requests.antt =====
-- Submitting, deferring and re-enqueueing keep the scheduler's books.
use evoid_plugins.Prelude.{
  ℕ, ◌+◌, ◌≤◌, ◌≡◌, refl, Bool, true, false, ◌&&◌, List, [], ◌∷◌, ◌++◌, nat_eq, ==_iff, ltb,
  if◌then◌else◌, length, arith, all_of, distinct, Bool-cases, inl, inr,
}
use evoid_plugins.Scheduler.Heap.{Heapq, count_if}
use evoid_plugins.Scheduler.Priority
use evoid_plugins.Scheduler.Engine.{
  is_overloaded, QueueItem, item_lt, Engine, Reading, get_metrics, cancel, dequeue, submit, admit,
  drain, process_deferred, max_deferred,
}
use evoid_plugins.Scheduler.Engine.Bookkeeping.{
  copies, copies-append, IsTracked, get_metrics_frame, enqueue-IsTracked, drain-IsTracked,
  dequeue-IsTracked, cancel-IsTracked,
}
use evoid_plugins.Scheduler.Engine.Counter.{
  contains_above, above_mono, cancel_counter, dequeue_counter, process_deferred_counter,
  submit_counter,
}

module _ {I : Type 0} (heapq : Heapq (item_lt {I = I})) where
  -- The metrics cache and the counter's growth are no matter for the books.
  same_books-IsTracked :
      (e e' : Engine I)
      → e'.heap ≡ e.heap
      → e'.task_index ≡ e.task_index
      → e'.deferred ≡ e.deferred
      → e.task_counter ≤ e'.task_counter
      → IsTracked heapq e
      → IsTracked heapq e'
  same_books-IsTracked e e' h i d c t = record {
    indexed = λ k p. ground (arith, t.indexed k);
    once = λ k. ground (arith, t.once k);
    ordered = ground (arith, t.ordered);
    counted = λ k p. ground (arith, t.counted k);
  }

  process_deferred-IsTracked :
      (e : Engine I) (env : Reading)
      → IsTracked heapq e
      → IsTracked heapq (process_deferred heapq e env).1
  unfolding process_deferred
  process_deferred-IsTracked e env t = go e.deferred
    where
      e' : Engine I
      e' = (get_metrics e env).1

      t' : IsTracked heapq e'
      t' =
          let f = get_metrics_frame e env in
          same_books-IsTracked e e' f.0 f.1 f.2 (omega (arith, f.3)) t

      go :
          (d : List (QueueItem I))
          → IsTracked heapq
              (elim d as (λ x. List ℕ × Engine I) [
                | [] ↦ ([], e)
                | first ∷ others ↦
                    if is_overloaded (get_metrics e env).0
                    then ([], e')
                    else drain heapq e' e'.deferred env.now
              ]).1
      go [] = t
      go (first ∷ others) = elim (Bool-cases (is_overloaded (get_metrics e env).0)) [
        | inl busy ↦ rw busy t'
        | inr idle ↦ rw idle (drain-IsTracked heapq e' e'.deferred env.now refl t')
      ]

  deferred-IsTracked :
      (e : Engine I) (item : QueueItem I)
      → copies item.task_id e.heap + copies item.task_id e.deferred ≡ 0
      → item.task_id ≤ e.task_counter
      → IsTracked heapq e
      → IsTracked heapq (record e { deferred = e.deferred ++ item ∷ [] })
  unfolding count_if
  deferred-IsTracked e item new small t = record {
    indexed = t.indexed;
    once = λ k.
        ground (arith, copies-append k e.deferred (item ∷ []), t.once k, ==_iff item.task_id k);
    ordered = t.ordered;
    counted = λ k h.
        ground (arith, copies-append k e.deferred (item ∷ []), t.counted k, ==_iff item.task_id k);
  }

  admit-IsTracked :
      (defer : Bool) (e : Engine I) (item : QueueItem I)
      → copies item.task_id e.heap + copies item.task_id e.deferred ≡ 0
      → item.task_id ≤ e.task_counter
      → IsTracked heapq e
      → IsTracked heapq (admit heapq defer e item)
  unfolding admit
  admit-IsTracked false e item new small t =
      enqueue-IsTracked heapq e item.intent item.priority item.task_id item.neg_timestamp new small
        t
  admit-IsTracked true e item new small t =
      elim (Bool-cases (ltb (length e.deferred) max_deferred)) [
        | inl room ↦ rw room (deferred-IsTracked e item new small t)
        | inr full ↦ rw full t
      ]

  submit-IsTracked :
      (e : Engine I) (intent : I) (priority : ℕ) (env : Reading)
      → IsTracked heapq e
      → IsTracked heapq (submit heapq e intent priority env).1
  unfolding submit
  submit-IsTracked e intent priority env t =
      let counting = record e { task_counter = e.task_counter + 1 } in
      let e' = (get_metrics counting env).1 in
      let f = get_metrics_frame counting env in
      let item : QueueItem I = record {
        priority = priority;
        neg_timestamp = env.now;
        task_id = e.task_counter + 1;
        intent = intent;
      } in
      let new = t.counted (e.task_counter + 1) (omega arith) in
      admit-IsTracked
        (e'.enable_defer
          && (is_overloaded (get_metrics counting env).0 && ltb priority Priority.normal))
        e' item (ground (arith, f, new)) (omega (arith, f.3))
        (same_books-IsTracked e e' f.0 f.1 f.2 (omega (arith, f.3)) t)

  -- What clients ask of the engine, with what each call reads of the system.
  pub data Request : Type 0 where
    submit_task : (intent : I) (priority : ℕ) (env : Reading) → Request
    cancel_task : (task_id : ℕ) → Request
    next_task : Request
    retry_deferred : (env : Reading) → Request

  unfoldable pub serve : Engine I → Request → Engine I
  serve e (submit_task intent priority env) = (submit heapq e intent priority env).1
  serve e (cancel_task task_id) = (cancel e task_id).1
  serve e next_task = (dequeue heapq e).1
  serve e (retry_deferred env) = (process_deferred heapq e env).1

  unfoldable pub serve_all : Engine I → List Request → Engine I
  serve_all e [] = e
  serve_all e (q ∷ rest) = serve_all (serve e q) rest

  serve-IsTracked : (e : Engine I) (q : Request) → IsTracked heapq e → IsTracked heapq (serve e q)
  unfolding serve
  serve-IsTracked e (submit_task intent priority env) t = submit-IsTracked e intent priority env t
  serve-IsTracked e (cancel_task task_id) t = cancel-IsTracked heapq e task_id t
  serve-IsTracked e next_task t = dequeue-IsTracked heapq e t
  serve-IsTracked e (retry_deferred env) t = process_deferred-IsTracked e env t

  -- the ids that the submissions answer
  unfoldable pub answered : Engine I → List Request → List ℕ
  answered e [] = []
  answered e (submit_task intent priority env ∷ rest) =
      (submit heapq e intent priority env).0
      ∷ answered (serve e (submit_task intent priority env)) rest
  answered e (cancel_task task_id ∷ rest) = answered (serve e (cancel_task task_id)) rest
  answered e (next_task ∷ rest) = answered (serve e next_task) rest
  answered e (retry_deferred env ∷ rest) = answered (serve e (retry_deferred env)) rest

  answered_above :
      (requests : List Request) (e : Engine I)
      → all_of (λ i. ltb e.task_counter i) (answered e requests) ≡ true
  unfolding answered all_of serve
  answered_above [] e = refl
  answered_above (submit_task intent priority env ∷ rest) e =
      let after = serve e (submit_task intent priority env) in
      let counts = submit_counter heapq e intent priority env in
      ground (
        arith,
        counts,
        above_mono e.task_counter after.task_counter (answered after rest) (omega (arith, counts.1))
            (answered_above rest after),
      )
  answered_above (cancel_task task_id ∷ rest) e =
      let after = serve e (cancel_task task_id) in
      above_mono e.task_counter after.task_counter (answered after rest)
        (omega (arith, cancel_counter e task_id)) (answered_above rest after)
  answered_above (next_task ∷ rest) e =
      let after = serve e next_task in
      above_mono e.task_counter after.task_counter (answered after rest)
        (omega (arith, dequeue_counter heapq e)) (answered_above rest after)
  answered_above (retry_deferred env ∷ rest) e =
      let after = serve e (retry_deferred env) in
      above_mono e.task_counter after.task_counter (answered after rest)
        (omega (arith, process_deferred_counter heapq e env)) (answered_above rest after)

  answered-distinct :
      (requests : List Request) (e : Engine I) → distinct (answered e requests) ≡ true
  unfolding answered distinct serve
  answered-distinct [] e = refl
  answered-distinct (submit_task intent priority env ∷ rest) e =
      let after = serve e (submit_task intent priority env) in
      let counts = submit_counter heapq e intent priority env in
      ground (
        arith,
        counts,
        answered-distinct rest after,
        contains_above after.task_counter (answered after rest) (answered_above rest after),
      )
  answered-distinct (cancel_task task_id ∷ rest) e =
      answered-distinct rest (serve e (cancel_task task_id))
  answered-distinct (next_task ∷ rest) e = answered-distinct rest (serve e next_task)
  answered-distinct (retry_deferred env ∷ rest) e =
      answered-distinct rest (serve e (retry_deferred env))

  all-IsTracked :
      (requests : List Request) (e : Engine I)
      → IsTracked heapq e
      → IsTracked heapq (serve_all e requests)
  unfolding serve_all
  all-IsTracked [] e t = t
  all-IsTracked (q ∷ rest) e t = all-IsTracked rest (serve e q) (serve-IsTracked e q t)

  -- Whatever is asked of the engine, in whatever order: every indexed task stands once in the heap, and
  -- no task stands twice or both in the heap and among the deferred. No two submissions answer the
  -- same id, and none answers an id up to the counter at the start.
  pub serve_all-IsTracked :
      (requests : List Request) (e : Engine I)
      → IsTracked heapq e
      → IsTracked heapq (serve_all e requests)
        × (distinct (answered e requests) ≡ true)
        × (all_of (λ i. ltb e.task_counter i) (answered e requests) ≡ true)
  serve_all-IsTracked requests e t =
      (all-IsTracked requests e t, answered-distinct requests e, answered_above requests e)
