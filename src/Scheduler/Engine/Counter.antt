-- ===== src/Scheduler/Engine/Counter.antt =====
-- The counter of the ids of tasks in packages/evoid-scheduler/evoid_scheduler/engine.py.
use evoid_plugins.Prelude.{
  ℕ, zero, suc, ◌+◌, ◌≤◌, ◌≡◌, refl, ◌&&◌, Bool, true, false, List, [], ◌∷◌, nat_eq, ==_iff, arith,
  all_of, contains, ltb, Bool-cases, Option-cases, inl, inr, if◌then◌else◌, length,
}
use evoid_plugins.Py.Dict.{has_key}
use evoid_plugins.Scheduler.Priority
use evoid_plugins.Scheduler.Heap.{Heapq}
use evoid_plugins.Scheduler.Engine.{
  is_overloaded, QueueItem, item_lt, Engine, Reading, get_metrics, find_deferred, cancel, enqueue,
  dequeue_loop, dequeue, submit, admit, drain, process_deferred,
}
use evoid_plugins.Scheduler.Engine.Bookkeeping.{get_metrics_frame}

pub contains_above :
    (n : ℕ) (ids : List ℕ) → all_of (λ i. ltb n i) ids ≡ true → contains ids n ≡ false
unfolding all_of contains
contains_above n [] h = refl
contains_above n (i ∷ ids) h = ground (arith, contains_above n ids, ==_iff i n)

pub above_mono :
    (m n : ℕ) (ids : List ℕ)
    → m ≤ n
    → all_of (λ i. ltb n i) ids ≡ true
    → all_of (λ i. ltb m i) ids ≡ true
unfolding all_of
above_mono m n [] le h = refl
above_mono m n (i ∷ ids) le h = ground (arith, above_mono m n ids le)

module _ {I : Type 0} where
  pub cancel_counter : (e : Engine I) (k : ℕ) → (cancel e k).1.task_counter ≡ e.task_counter
  unfolding cancel
  cancel_counter e k = ground (arith, Option-cases (find_deferred k e.deferred))

module _ {I : Type 0} (heapq : Heapq (item_lt {I = I})) where
  dequeue_loop_counter :
      (fuel : ℕ) (e : Engine I) → (dequeue_loop heapq fuel e).1.task_counter ≡ e.task_counter
  unfolding dequeue_loop
  dequeue_loop_counter zero e = refl
  dequeue_loop_counter (suc fuel) e = elim (Option-cases (heapq.heappop e.heap)) [
    | inl empty ↦ rw (empty, dequeue_loop) refl
    | inr ((item, rest), popped) ↦
        rw (popped, dequeue_loop)
          (elim (Bool-cases (has_key e.task_index item.task_id)) [
            | inl there ↦ rw there refl
            | inr gone ↦ rw gone (dequeue_loop_counter fuel (record e { heap = rest }))
          ])
  ]

  pub dequeue_counter : (e : Engine I) → (dequeue heapq e).1.task_counter ≡ e.task_counter
  unfolding dequeue
  dequeue_counter e = dequeue_loop_counter (length e.heap) e

  drain_counter :
      (e : Engine I) (items : List (QueueItem I)) (now : ℕ)
      → (drain heapq e items now).1.task_counter ≡ e.task_counter
  unfolding drain enqueue
  drain_counter e [] now = refl
  drain_counter e (item ∷ rest) now =
      drain_counter
        (enqueue heapq (record e { deferred = rest }) item.intent item.priority item.task_id now)
        rest now

  pub process_deferred_counter :
      (e : Engine I) (env : Reading)
      → (process_deferred heapq e env).1.task_counter ≡ e.task_counter
  unfolding process_deferred
  process_deferred_counter e env = go e.deferred
    where
      e' : Engine I
      e' = (get_metrics e env).1

      go :
          (d : List (QueueItem I))
          → (elim d as (λ x. List ℕ × Engine I) [
            | [] ↦ ([], e)
            | first ∷ others ↦
                if is_overloaded (get_metrics e env).0
                then ([], e')
                else drain heapq e' e'.deferred env.now
          ]).1.task_counter
            ≡ e.task_counter
      go [] = refl
      go (first ∷ others) =
          ground (arith, get_metrics_frame e env, drain_counter e' e'.deferred env.now)

  admit_counter :
      (defer : Bool) (e : Engine I) (item : QueueItem I)
      → (admit heapq defer e item).task_counter ≡ e.task_counter
  unfolding admit enqueue
  admit_counter false e item = refl
  admit_counter true e item = ground arith

  pub submit_counter :
      (e : Engine I) (intent : I) (priority : ℕ) (env : Reading)
      → ((submit heapq e intent priority env).0 ≡ e.task_counter + 1)
        × ((submit heapq e intent priority env).1.task_counter ≡ e.task_counter + 1)
  unfolding submit
  submit_counter e intent priority env =
      let counting = record e { task_counter = e.task_counter + 1 } in
      let seen = get_metrics counting env in
      let item : QueueItem I = record {
        priority = priority;
        neg_timestamp = env.now;
        task_id = e.task_counter + 1;
        intent = intent;
      } in
      let defer = seen.1.enable_defer && (is_overloaded seen.0 && ltb priority Priority.normal) in
      (refl, ground (arith, admit_counter defer seen.1 item, get_metrics_frame counting env))
