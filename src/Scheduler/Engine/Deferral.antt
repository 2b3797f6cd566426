-- ===== src/Scheduler/Engine/Deferral.antt =====
-- Deferral under load: the bound on the deferred tasks, what it drops, and what comes back.
use evoid_plugins.Prelude.{
  ℕ, zero, suc, ◌+◌, ◌≤◌, ◌<◌, ◌≡◌, refl, ap, true, ◌&&◌, ◌||◌, not, List, [], ◌∷◌, nat_eq,
  if◌then◌else◌, length, arith, map, contains, Option-cases, inl, inr, length-append,
}
use evoid_plugins.Py.Dict.{has_key}
use evoid_plugins.Py.Dict.Laws.{has_key-put}
use evoid_plugins.Scheduler.Heap.{Heapq}
use evoid_plugins.Scheduler.Priority
use evoid_plugins.Scheduler.Engine.{
  SystemMetrics, is_overloaded, QueueItem, item_lt, Engine, Reading, get_metrics, cancel, enqueue,
  remove_first, find_deferred, dequeue_loop, dequeue, submit, admit, drain, process_deferred,
  max_deferred,
}
use evoid_plugins.Scheduler.Engine.Bookkeeping.{copies, IsTracked, get_metrics_frame}
use evoid_plugins.Scheduler.Engine.Requests.{
  Request, submit_task, cancel_task, next_task, retry_deferred, serve, serve_all,
}

module _ {I : Type 0} (heapq : Heapq (item_lt {I = I})) where
  -- The metrics that a call of `submit` sees.
  abbrev pub seen : Engine I → Reading → SystemMetrics
  seen e env = (get_metrics (record e { task_counter = e.task_counter + 1 }) env).0

  -- A task of low priority is deferred under load; where the deferred tasks have reached their limit
  -- it is lost: its id is answered, and no queue holds it.
  pub submit_lost :
      (e : Engine I) (intent : I) (priority : ℕ) (env : Reading)
      → IsTracked heapq e
      → e.enable_defer ≡ true
      → is_overloaded (seen e env) ≡ true
      → priority < Priority.normal
      → max_deferred ≤ length e.deferred
      → ((submit heapq e intent priority env).0 ≡ e.task_counter + 1)
        × (copies (e.task_counter + 1) (submit heapq e intent priority env).1.heap ≡ 0)
        × (copies (e.task_counter + 1) (submit heapq e intent priority env).1.deferred ≡ 0)
  unfolding submit admit
  submit_lost e intent priority env t on busy low full =
      let f = get_metrics_frame (record e { task_counter = e.task_counter + 1 }) env in
      ground (arith, f, t.counted (e.task_counter + 1))

  -- The deferred tasks stay within their limit.
  abbrev pub IsBounded : Engine I → Type 0
  IsBounded e = length e.deferred ≤ max_deferred

  length-remove_first-le :
      (item : QueueItem I) (items : List (QueueItem I))
      → length (remove_first item items) ≤ length items
  unfolding remove_first
  length-remove_first-le item [] = omega arith
  length-remove_first-le item (x ∷ xs) = ground (arith, length-remove_first-le item xs)

  dequeue_loop-deferred :
      (fuel : ℕ) (e : Engine I) → (dequeue_loop heapq fuel e).1.deferred ≡ e.deferred
  unfolding dequeue_loop
  dequeue_loop-deferred zero e = refl
  dequeue_loop-deferred (suc fuel) e = elim (Option-cases (heapq.heappop e.heap)) [
    | inl empty ↦ ground arith
    | inr ((top, rest), popped) ↦
        ground (arith, dequeue_loop-deferred fuel (record e { heap = rest }))
  ]

  drain-deferred :
      (e : Engine I) (items : List (QueueItem I)) (now : ℕ)
      → (drain heapq e items now).1.deferred ≡ []
  unfolding drain
  drain-deferred e [] now = refl
  drain-deferred e (item ∷ rest) now =
      drain-deferred
        (enqueue heapq (record e { deferred = rest }) item.intent item.priority item.task_id now)
        rest now

  serve-IsBounded : (e : Engine I) (q : Request heapq) → IsBounded e → IsBounded (serve heapq e q)
  unfolding serve submit admit enqueue cancel dequeue process_deferred
  serve-IsBounded e (submit_task intent priority env) b =
      let counting = record e { task_counter = e.task_counter + 1 } in
      ground (
        arith,
        get_metrics_frame counting env,
        length-append (get_metrics counting env).1.deferred (
            (record {
              priority = priority;
              neg_timestamp = env.now;
              task_id = e.task_counter + 1;
              intent = intent;
            })
            ∷ []),
      )
  serve-IsBounded e (cancel_task k) b = elim (Option-cases (find_deferred k e.deferred)) [
    | inl nowhere ↦ ground arith
    | inr (item, found) ↦ ground (arith, length-remove_first-le item e.deferred)
  ]
  serve-IsBounded e next_task b = ground (arith, dequeue_loop-deferred (length e.heap) e)
  serve-IsBounded e (retry_deferred env) b =
      let e' = (get_metrics e env).1 in
      ground (arith, get_metrics_frame e env, drain-deferred e' e'.deferred env.now)

  -- Whatever is asked of the engine, it never holds more than `max_deferred` deferred tasks.
  pub serve_all-IsBounded :
      (requests : List (Request heapq)) (e : Engine I)
      → IsBounded e
      → IsBounded (serve_all heapq e requests)
  unfolding serve_all
  serve_all-IsBounded [] e b = b
  serve_all-IsBounded (q ∷ rest) e b =
      serve_all-IsBounded rest (serve heapq e q) (serve-IsBounded e q b)

  drain_lem :
      (e : Engine I) (items : List (QueueItem I)) (now k : ℕ)
      → ((drain heapq e items now).0 ≡ map (λ item. item.task_id) items)
        × (has_key (drain heapq e items now).1.task_index k
            ≡ (has_key e.task_index k || contains (map (λ item. item.task_id) items) k))
  unfolding drain enqueue contains
  drain_lem e [] now k = (refl, ground arith)
  drain_lem e (item ∷ rest) now k =
      let queued =
        enqueue heapq (record e { deferred = rest }) item.intent item.priority item.task_id now in
      let ih = drain_lem queued rest now k in
      let added : QueueItem I = record {
        priority = item.priority;
        neg_timestamp = now;
        task_id = item.task_id;
        intent = item.intent;
      } in
      (
        ap (λ ids. item.task_id ∷ ids) ih.0,
        ground (arith, ih.1, has_key-put e.task_index item.task_id k added),
      )

  -- Once the load has dropped, `process_deferred` queues every deferred task again and answers their
  -- ids in the order in which they were deferred; under load it changes no queue and answers none.
  pub process_deferred_lem :
      (e : Engine I) (env : Reading) (k : ℕ)
      → ((process_deferred heapq e env).0 ≡ (
          if is_overloaded (get_metrics e env).0
          then []
          else map (λ item. item.task_id) e.deferred))
        × ((process_deferred heapq e env).1.deferred
            ≡ (if is_overloaded (get_metrics e env).0 then e.deferred else []))
        × (has_key (process_deferred heapq e env).1.task_index k ≡ (
            has_key e.task_index k
            || (not (is_overloaded (get_metrics e env).0)
                && contains (map (λ item. item.task_id) e.deferred) k)))
  unfolding process_deferred contains
  process_deferred_lem e env k =
      let e' = (get_metrics e env).1 in
      let ids = drain_lem e' e'.deferred env.now k in
      let none_left = drain-deferred e' e'.deferred env.now in
      (
        ground (arith, get_metrics_frame e env, ids),
        ground (arith, get_metrics_frame e env, none_left),
        ground (arith, get_metrics_frame e env, ids),
      )
