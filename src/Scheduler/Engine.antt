-- ===== src/Scheduler/Engine.antt =====
-- packages/evoid-scheduler/evoid_scheduler/engine.py
pub mod Bookkeeping
pub mod Counter
pub mod Requests
pub mod Order
pub mod Deferral
-- A priority is a natural number (the class `Priority` has the levels 0 to 100), and an item holds
-- the number whose negation the source stores. The task id `task-N` is the number N. Loads are in
-- units of 1/65536, in which the kernel reports them, and times in nanoseconds.
use evoid_plugins.Prelude.{
  ℕ, zero, suc, ◌+◌, ◌-◌, ◌*◌, ◌/◌, max, Bool, true, false, ◌&&◌, Option, none, some, List, [], ◌∷◌,
  ◌++◌, nat_eq, ◌==◌, ltb, if◌then◌else◌, length, map,
}
use evoid_plugins.Py.Dict.{Dict, has_key, put, remove}
use evoid_plugins.Scheduler.Heap.{Heapq}
use evoid_plugins.Scheduler.Priority

abbrev pub metrics_ttl : ℕ
metrics_ttl = 2000000000

abbrev pub max_deferred : ℕ
max_deferred = 1000

pub record SystemMetrics : Type 0 where
  pub cpu_cores : ℕ
  pub cpu_count_logical : ℕ
  pub load_avg_1m : ℕ
  pub load_avg_5m : ℕ
  pub load_avg_15m : ℕ
  pub memory_total_mb : ℕ
  pub memory_available_mb : ℕ

unfoldable pub is_overloaded : SystemMetrics → Bool
is_overloaded m = ltb (m.cpu_count_logical * 65536) m.load_avg_1m

unfoldable pub recommended_concurrency : SystemMetrics → ℕ
recommended_concurrency m =
    if is_overloaded m then max 1 (m.cpu_count_logical / 2) else m.cpu_count_logical

-- `neg_timestamp` takes no part in comparisons, nor does the id or the intent.
pub record QueueItem {ℓ} (I : Type ℓ) : Type ℓ where
  pub priority : ℕ
  pub neg_timestamp : ℕ
  pub task_id : ℕ
  pub intent : I

-- `a < b` and `a == b` of the data class: only the (negated) priorities are compared.
abbrev pub item_lt {ℓ} : {I : Type ℓ} → QueueItem I → QueueItem I → Bool
item_lt a b = ltb b.priority a.priority

abbrev pub item_eq {ℓ} : {I : Type ℓ} → QueueItem I → QueueItem I → Bool
item_eq a b = a.priority == b.priority

pub record Engine (I : Type 0) : Type 0 where
  pub max_workers : ℕ
  pub enable_defer : Bool
  pub heap : List (QueueItem I)
  pub task_index : Dict ℕ (QueueItem I)
  pub running : ℕ
  pub task_counter : ℕ
  pub deferred : List (QueueItem I)
  pub cached_metrics : Option SystemMetrics
  pub metrics_time : ℕ

-- What a call reads of the system: the clock, and the metrics if they are collected.
pub record Reading : Type 0 where
  pub now : ℕ
  pub collected : SystemMetrics

module _ {I : Type 0} where
  abbrev pub refresh : Engine I → Reading → SystemMetrics × Engine I
  refresh e env =
      (env.collected, record e { cached_metrics = some env.collected; metrics_time = env.now })

  -- `_get_metrics`
  unfoldable pub get_metrics : Engine I → Reading → SystemMetrics × Engine I
  get_metrics e env = elim e.cached_metrics [
    | none ↦ refresh e env
    | some m ↦ if ltb metrics_ttl (env.now - e.metrics_time) then refresh e env else (m, e)
  ]

  abbrev pub queue_size : Engine I → ℕ
  queue_size e = length e.heap

  abbrev pub deferred_size : Engine I → ℕ
  deferred_size e = length e.deferred

  -- `self._deferred.remove(item)`: the first item that is equal to it goes
  unfoldable pub remove_first : QueueItem I → List (QueueItem I) → List (QueueItem I)
  remove_first item [] = []
  remove_first item (x ∷ xs) = if item_eq x item then xs else x ∷ remove_first item xs

  -- the loop of `cancel`: the first deferred item with the id
  unfoldable pub find_deferred : ℕ → List (QueueItem I) → Option (QueueItem I)
  find_deferred task_id [] = none
  find_deferred task_id (x ∷ xs) = if x.task_id == task_id then some x else find_deferred task_id xs

  unfoldable pub cancel : Engine I → ℕ → Bool × Engine I
  cancel e task_id =
      let in_deferred : Bool × Engine I = elim (find_deferred task_id e.deferred) [
        | none ↦ (false, e)
        | some item ↦ (true, record e { deferred = remove_first item e.deferred })
      ] in
      if has_key e.task_index task_id
      then (true, record e { task_index = remove e.task_index task_id })
      else in_deferred

module _ {I : Type 0} (heapq : Heapq (item_lt {I = I})) where
  open heapq use {heappush, heappop}

  -- `_enqueue`
  unfoldable pub enqueue : Engine I → I → ℕ → ℕ → ℕ → Engine I
  enqueue e intent priority task_id now =
      let item : QueueItem I = record {
        priority = priority;
        neg_timestamp = now;
        task_id = task_id;
        intent = intent;
      } in
      record e { heap = heappush e.heap item; task_index = put e.task_index task_id item }

  -- the `while` loop of `_dequeue`, on fuel: each round takes an item out of the heap
  unfoldable pub dequeue_loop : ℕ → Engine I → Option (QueueItem I) × Engine I
  dequeue_loop zero e = (none, e)
  dequeue_loop (suc fuel) e = elim (heappop e.heap) [
    | none ↦ (none, e)
    | some (item, rest) ↦
        let popped = record e { heap = rest } in
        let others = dequeue_loop fuel popped in
        if has_key e.task_index item.task_id
        then (some item, record popped { task_index = remove e.task_index item.task_id })
        else others
  ]

  -- `_dequeue`
  unfoldable pub dequeue : Engine I → Option (QueueItem I) × Engine I
  dequeue e = dequeue_loop (length e.heap) e

  -- A task that is to be deferred is dropped where the deferred tasks have reached their limit.
  unfoldable pub admit : Bool → Engine I → QueueItem I → Engine I
  admit true e item =
      if ltb (length e.deferred) max_deferred
      then record e { deferred = e.deferred ++ item ∷ [] }
      else e
  admit false e item = enqueue e item.intent item.priority item.task_id item.neg_timestamp

  unfoldable pub submit : Engine I → I → ℕ → Reading → ℕ × Engine I
  submit e intent priority env =
      let task_id = e.task_counter + 1 in
      let (metrics, e') = get_metrics (record e { task_counter = task_id }) env in
      let item : QueueItem I = record {
        priority = priority;
        neg_timestamp = env.now;
        task_id = task_id;
        intent = intent;
      } in
      let defer = e'.enable_defer && (is_overloaded metrics && ltb priority Priority.normal) in
      (task_id, admit defer e' item)

  -- the `while` loop of `process_deferred`: the deferred tasks that are left, the ids re-enqueued
  unfoldable pub drain : Engine I → List (QueueItem I) → ℕ → List ℕ × Engine I
  drain e [] now = ([], record e { deferred = [] })
  drain e (item ∷ rest) now =
      let e' = enqueue (record e { deferred = rest }) item.intent item.priority item.task_id now in
      let (ids, e'') = drain e' rest now in (item.task_id ∷ ids, e'')

  unfoldable pub process_deferred : Engine I → Reading → List ℕ × Engine I
  process_deferred e env = elim e.deferred [
    | [] ↦ ([], e)
    | first ∷ others ↦
        let (metrics, e') = get_metrics e env in
        if is_overloaded metrics then ([], e') else drain e' e'.deferred env.now
  ]
