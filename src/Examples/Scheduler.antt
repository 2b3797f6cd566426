-- ===== src/Examples/Scheduler.antt =====
-- Runs of packages/evoid-scheduler/evoid_scheduler/engine.py.
use evoid_plugins.Prelude.{
  ℕ, zero, ◌≤◌, ◌<◌, ◌≡◌, refl, ap, String, true, false, some, none, List, [], ◌∷◌, nat_eq, length,
  arith, suc, distinct, all_of, ltb,
}
use evoid_plugins.Py.Dict.{has_key, put, remove}
use evoid_plugins.Scheduler.Priority
use evoid_plugins.Scheduler.Heap.{count_if}
use evoid_plugins.Scheduler.Heap.Scan.{scan, pop_least, take_least}
use evoid_plugins.Scheduler.Engine.{
  SystemMetrics, is_overloaded, QueueItem, Engine, Reading, get_metrics, cancel, enqueue, dequeue,
  dequeue_loop, submit, admit, find_deferred,
}
use evoid_plugins.Scheduler.Engine.Bookkeeping.{copies, IsTracked}
use evoid_plugins.Scheduler.Engine.Requests.{
  Request, submit_task, cancel_task, serve, serve_all, answered, serve_all-IsTracked,
}
use evoid_plugins.Scheduler.Engine.Order.{IsNext, dequeue-IsNext, dequeue-eq-none}

abbrev metrics : ℕ → SystemMetrics
metrics load = record {
  cpu_cores = 4;
  cpu_count_logical = 4;
  load_avg_1m = load;
  load_avg_5m = load;
  load_avg_15m = load;
  memory_total_mb = 8192;
  memory_available_mb = 4096;
}

abbrev fresh : Engine String
fresh = record {
  max_workers = 4;
  enable_defer = true;
  heap = [];
  task_index = [];
  running = 0;
  task_counter = 0;
  deferred = [];
  cached_metrics = none;
  metrics_time = 0;
}

fresh-IsTracked : IsTracked scan fresh
unfolding has_key count_if scan
fresh-IsTracked = record {
  indexed = λ k p. cc;
  once = λ k. omega arith;
  ordered = refl;
  counted = λ k h. refl;
}

abbrev calm : Reading
calm = record { now = 5; collected = metrics 0 }

abbrev requests : List (Request (scan {I = String}))
requests =
    submit_task "backup" Priority.background calm
    ∷ submit_task "pay" Priority.critical calm
    ∷ submit_task "mail" Priority.normal calm
    ∷ cancel_task 3
    ∷ []

serve_all-IsTracked_example :
    IsTracked scan (serve_all scan fresh requests)
    × (distinct (answered scan fresh requests) ≡ true)
    × (all_of (λ i. ltb fresh.task_counter i) (answered scan fresh requests) ≡ true)
serve_all-IsTracked_example = serve_all-IsTracked scan requests fresh fresh-IsTracked

abbrev served : Engine String
served = serve_all scan fresh requests

served-IsTracked : IsTracked scan served
served-IsTracked = (serve_all-IsTracked scan requests fresh fresh-IsTracked).0

abbrev payment : QueueItem String
payment = record { priority = 100; neg_timestamp = 5; task_id = 2; intent = "pay" }

paid : (dequeue scan served).0 ≡ some payment
unfolding serve_all serve submit admit enqueue cancel get_metrics is_overloaded dequeue dequeue_loop
    scan pop_least take_least has_key put remove find_deferred
paid = refl

dequeue-IsNext_example : IsNext scan served (dequeue scan served).1 payment
dequeue-IsNext_example =
    dequeue-IsNext scan served (dequeue scan served).1 payment served-IsTracked
      (ap (λ found. (found, (dequeue scan served).1)) paid)

none_left : (dequeue scan fresh).0 ≡ none
unfolding dequeue dequeue_loop
none_left = refl

dequeue-eq-none_example : has_key fresh.task_index 1 ≡ false
dequeue-eq-none_example =
    dequeue-eq-none scan fresh (dequeue scan fresh).1 1 fresh-IsTracked
      (ap (λ found. (found, (dequeue scan fresh).1)) none_left)

abbrev cancelled : Engine String
cancelled = (cancel served 1).1

next_paid : (dequeue scan cancelled).0 ≡ some payment
unfolding serve_all serve submit admit enqueue cancel get_metrics is_overloaded dequeue dequeue_loop
    scan pop_least take_least has_key put remove find_deferred
next_paid = refl

abbrev late : ℕ → QueueItem String
late k = record { priority = 10; neg_timestamp = k; task_id = k; intent = "report" }

-- the tasks from that number on down
backlog : ℕ → List (QueueItem String)
backlog zero = []
backlog (suc n) = late (suc n) ∷ backlog n

length-backlog : (n : ℕ) → length (backlog n) ≡ n
unfolding backlog
length-backlog zero = refl
length-backlog (suc n) = ap suc (length-backlog n)

copies-backlog : (k n : ℕ) → (copies k (backlog n) ≤ 1) × (n < k → copies k (backlog n) ≡ 0)
unfolding backlog count_if
copies-backlog k zero = (omega arith, λ h. refl)
copies-backlog k (suc n) =
    (ground (arith, copies-backlog k n), λ h. ground (arith, copies-backlog k n))
