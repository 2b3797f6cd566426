-- ===== src/Examples/Tasks.antt =====
-- Runs of packages/evoid-tasks/evoid_tasks/scheduler.py. The world counts the calls of functions.
use evoid_plugins.Prelude.{ℕ, suc, ◌≡◌, refl, true, false, some, none, [], ◌∷◌, nat_eq, contains}
use evoid_plugins.Py.Dict.{get, has_key, put}
use evoid_plugins.Py.Exec.{runtime_error}
use evoid_plugins.Tasks.{
  returned, raised, Func, TaskDef, task_id_eq, task_id_beq, TaskScheduler, init, task, shutdown,
}
use evoid_plugins.Tasks.Run.{context, run_lifecycle, ticks, tick_once, stop}
use evoid_plugins.Tasks.Handles.{IsKept, Reach, here, next, add, Reach-IsKept}
use evoid_plugins.Tasks.Lifecycle.{called, run_lifecycle_lem}

-- a function that raises whenever it is called
abbrev failing : Func ℕ
failing = record {
  ident = 1;
  name = "sync";
  run = λ (ctx, w). (raised runtime_error, (ctx, suc w));
  on_start = none;
  on_error = none;
  on_stop = none;
}

abbrev scheduled : TaskScheduler ℕ
scheduled = task (init 10) failing (some 60) 0

unknown : has_key (init {W = ℕ} 10).running (record { name = "sync"; ident = 1 }) ≡ false
unfolding has_key init
unknown = refl

reached : Reach (init {W = ℕ} 10) scheduled
reached = next here (add (init 10) failing (some 60) 0 unknown)

Reach-IsKept_example :
    IsKept scheduled
    × (contains (shutdown scheduled).live 0 ≡ false)
    × ((shutdown scheduled).one_shots ≡ scheduled.one_shots)
Reach-IsKept_example = Reach-IsKept 10 0 reached

running : get scheduled.running (record { name = "sync"; ident = 1 }) ≡ some 0
unfolding task init put get task_id_beq
running = refl

abbrev syncing : TaskDef ℕ
syncing = record { name = "sync"; func = failing; interval = some 60; event = none; created_at = 0 }

run_lifecycle_lem_example :
    let (ctx, w) =
      called failing 0 (60 ∷ 120 ∷ []) (record (context "sync") { started = true }, 0) in
    run_lifecycle syncing 0 (60 ∷ 120 ∷ []) 0 ≡ (returned tt, (record ctx { stopped = true }, w))
run_lifecycle_lem_example = run_lifecycle_lem syncing 0 (60 ∷ 120 ∷ []) 0 refl refl refl

-- The function is called at both ticks.
called_twice : (run_lifecycle syncing 0 (60 ∷ 120 ∷ []) 0).1.1 ≡ 2
unfolding run_lifecycle ticks tick_once stop
called_twice = refl
