-- ===== src/Scheduler/Processor.antt =====
-- packages/evoid-scheduler/evoid_scheduler/processor.py: `scheduler_processor`, and `get_least_loaded`
-- of engine.py, which reads the same metrics.
use evoid_plugins.Prelude.{ℕ, Bool, ◌&&◌, Option, some, ltb, if◌then◌else◌}
use evoid_plugins.Scheduler.Priority
use evoid_plugins.Scheduler.Engine.{
  SystemMetrics, is_overloaded, Engine, Reading, get_metrics, queue_size,
}

-- What the processor answers: the load and the cores where it defers the task.
pub data Decision : Type 0 where
  deferred : (load cores : ℕ) → Decision
  scheduled : Decision

-- what it leaves under `scheduler_metrics` in the state of the context
pub record MetricsNote : Type 0 where
  pub cpu_cores : ℕ
  pub load_avg_1m : ℕ
  pub memory_available_mb : ℕ
  pub is_overloaded : Bool

abbrev pub note_of : SystemMetrics → MetricsNote
note_of m = record {
  cpu_cores = m.cpu_cores;
  load_avg_1m = m.load_avg_1m;
  memory_available_mb = m.memory_available_mb;
  is_overloaded = is_overloaded m;
}

-- The load of `get_least_loaded` is the quotient of the first two figures.
pub record LoadReport : Type 0 where
  pub load_avg_1m : ℕ
  pub cpu_count_logical : ℕ
  pub queue_size : ℕ
  pub active_workers : ℕ

module _ {I : Type 0} where
  unfoldable pub scheduler_processor :
      Engine I → ℕ → Option MetricsNote → Reading → Decision × (Option MetricsNote × Engine I)
  scheduler_processor e priority noted env =
      let (m, e') = get_metrics e env in
      if is_overloaded m && ltb priority Priority.normal
      then (deferred m.load_avg_1m m.cpu_cores, (noted, e'))
      else (scheduled, (some (note_of m), e'))

  unfoldable pub get_least_loaded : Engine I → Reading → LoadReport × Engine I
  get_least_loaded e env =
      let (m, e') = get_metrics e env in
      (
        record {
          load_avg_1m = m.load_avg_1m;
          cpu_count_logical = m.cpu_count_logical;
          queue_size = queue_size e';
          active_workers = e'.running;
        },
        e',
      )
