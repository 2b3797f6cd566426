-- ===== src/Tasks.antt =====
-- packages/evoid-tasks/evoid_tasks/scheduler.py: the class `TaskScheduler`.
-- `W` is the world that tasks act on. A task that the event loop runs in the background is a handle, a
-- number: `live` lists those that `task` started, and `one_shots` those that `run` started, as far as
-- they have not ended. Times are clock readings in ticks.
pub mod Run
pub mod Handles
pub mod Lifecycle
use evoid_plugins.Prelude.{
  ℕ, suc, ◌+◌, ◌-◌, ◌≡◌, ◌↔◌, HasEq, ==_iff, arith, String, Bool, true, false, not, ◌&&◌, Option,
  none, some, List, [], ◌∷◌, ◌++◌, string_eq, nat_eq, ◌==◌, if◌then◌else◌, length, contains,
  keep_if, map,
}
use evoid_plugins.Py.Dict.{Dict, get, get_or, has_key, put, remove, values}
use evoid_plugins.Py.Value.{Atom}
use evoid_plugins.Py.Exec.{Error, Result, ok, err, Exec, pure, ◌>>=◌, ◌>>◌}

-- What a coroutine comes to: `asyncio.CancelledError` is not among the exceptions below `Exception`.
pub data Ran (R : Type 0) : Type 0 where
  returned : R → Ran R
  raised : Error → Ran R
  cancelled : Ran R

pub record TaskContext : Type 0 where
  pub task_name : String
  pub started : Bool
  pub tick : Bool
  pub stopped : Bool
  pub delta : ℕ
  pub event_data : Dict String Atom
  pub state : Dict String Atom

-- a call with the context, which it may change
abbrev pub Call : Type 0 → Type 0
Call W = TaskContext × W → Ran (Unit {0}) × (TaskContext × W)

-- A Python function with the hooks that it may have; `ident` is its `id`.
pub record Func (W : Type 0) : Type 0 where
  pub ident : ℕ
  pub name : String
  pub run : Call W
  pub on_start : Option (Call W)
  pub on_error : Option (Error → Call W)
  pub on_stop : Option (Call W)

pub record TaskDef (W : Type 0) : Type 0 where
  pub name : String
  pub func : Func W
  pub interval : Option ℕ
  pub event : Option String
  pub created_at : ℕ

-- `f"{name}_{id(func)}"`: the text determines both, and is held as the pair.
pub record TaskId : Type 0 where
  pub name : String
  pub ident : ℕ

unfoldable pub task_id_beq : TaskId → TaskId → Bool
task_id_beq a b = a.name == b.name && a.ident == b.ident

pub task_id_beq_iff : (a b : TaskId) → (task_id_beq a b ≡ true) ↔ (a ≡ b)
unfolding task_id_beq
task_id_beq_iff a b = ground (arith, ==_iff a.name b.name, ==_iff a.ident b.ident)

instance abbrev pub task_id_eq : HasEq TaskId
task_id_eq = record { test = task_id_beq; test_iff = task_id_beq_iff }

pub record TaskScheduler (W : Type 0) : Type 0 where
  pub max_concurrent : ℕ
  pub tasks : List (TaskDef W)
  pub running : Dict TaskId ℕ
  pub event_handlers : Dict String (List (Func W))
  pub live : List ℕ
  pub one_shots : List ℕ
  pub next_handle : ℕ

unfoldable pub init : {W : Type 0} → ℕ → TaskScheduler W
init max_concurrent = record {
  max_concurrent = max_concurrent;
  tasks = [];
  running = [];
  event_handlers = [];
  live = [];
  one_shots = [];
  next_handle = 0;
}

-- `data or {}`
abbrev data_or : Option (Dict String Atom) → Dict String Atom
data_or none = []
data_or (some fields) = fields

abbrev pub same_event : Option String → Option String → Bool
same_event none none = true
same_event (some a) (some b) = a == b
same_event _ _ = false

abbrev pub same_interval : Option ℕ → Option ℕ → Bool
same_interval none none = true
same_interval (some a) (some b) = a == b
same_interval _ _ = false

module _ {W : Type 0} where
  abbrev pub task_id : TaskDef W → TaskId
  task_id t = record { name = t.name; ident = t.func.ident }

  -- `asyncio.create_task(…)`: the handle is the number that is free
  abbrev pub spawn : TaskScheduler W → TaskScheduler W
  spawn s = record s { live = s.next_handle ∷ s.live; next_handle = suc s.next_handle }

  abbrev pub spawn_once : TaskScheduler W → TaskScheduler W
  spawn_once s = record s {
    one_shots = s.next_handle ∷ s.one_shots;
    next_handle = suc s.next_handle;
  }

  -- `handle.cancel()`
  unfoldable pub cancel_handle : TaskScheduler W → ℕ → TaskScheduler W
  cancel_handle s handle = record s { live = keep_if (λ h. not (h == handle)) s.live }

  abbrev pub task_def : Func W → Option ℕ → ℕ → TaskDef W
  task_def fn interval now = record {
    name = fn.name;
    func = fn;
    interval = interval;
    event = none;
    created_at = now;
  }

  abbrev pub list_task : TaskScheduler W → TaskDef W → TaskScheduler W
  list_task s t = record s { tasks = s.tasks ++ t ∷ [] }

  -- `self._running[task_id] = asyncio.create_task(…)`
  abbrev pub schedule : TaskScheduler W → TaskDef W → TaskScheduler W
  schedule s t = record (spawn s) { running = put s.running (task_id t) s.next_handle }

  -- the decorator `task`: no interval, or the interval 0, starts nothing
  unfoldable pub task : TaskScheduler W → Func W → Option ℕ → ℕ → TaskScheduler W
  task s fn none now = list_task s (task_def fn none now)
  task s fn (some seconds) now =
      let t = task_def fn (some seconds) now in
      if seconds == 0 then list_task s t else schedule (list_task s t) t

  -- `==` of task definitions compares all of their fields
  abbrev pub same_task : TaskDef W → TaskDef W → Bool
  same_task a b =
      a.name == b.name
      && (a.func.ident == b.func.ident
          && (same_interval a.interval b.interval
              && (same_event a.event b.event && a.created_at == b.created_at)))

  -- `run`: the task is listed, and runs once in the background
  unfoldable pub run : TaskScheduler W → Func W → ℕ → TaskDef W × TaskScheduler W
  run s fn now = let t = task_def fn none now in (t, spawn_once (list_task s t))

  -- `self._tasks.remove(task)`: the first one that is equal goes
  unfoldable pub remove_task : TaskDef W → List (TaskDef W) → List (TaskDef W)
  remove_task t [] = []
  remove_task t (u ∷ rest) = if same_task u t then rest else u ∷ remove_task t rest

  unfoldable pub cleanup_task : TaskScheduler W → TaskDef W → TaskScheduler W
  cleanup_task s t = record s { tasks = remove_task t s.tasks }

  -- the decorator `on`
  unfoldable pub on : TaskScheduler W → String → Func W → TaskScheduler W
  on s event fn = record s {
    event_handlers = put s.event_handlers event (get_or s.event_handlers event [] ++ fn ∷ []);
  }

  -- the calls of `_exec_event` that `emit` starts, in this order
  unfoldable pub emit :
      TaskScheduler W → String → Option (Dict String Atom) → List (Func W × Dict String Atom)
  emit s event fields =
      map (λ handler. (handler, data_or fields)) (get_or s.event_handlers event [])

  unfoldable pub cancel : TaskScheduler W → TaskDef W → TaskScheduler W
  cancel s t = elim (get s.running (task_id t)) [
    | none ↦ s
    | some handle ↦ record (cancel_handle s handle) { running = remove s.running (task_id t) }
  ]

  unfoldable pub cancel_all : TaskScheduler W → List ℕ → TaskScheduler W
  cancel_all s [] = s
  cancel_all s (handle ∷ rest) = cancel_all (cancel_handle s handle) rest

  unfoldable pub shutdown : TaskScheduler W → TaskScheduler W
  shutdown s = record (cancel_all s (values s.running)) { running = [] }

  abbrev pub active : TaskScheduler W → ℕ
  active s = length s.running
