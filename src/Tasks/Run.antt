-- ===== src/Tasks/Run.antt =====
-- packages/evoid-tasks/evoid_tasks/scheduler.py: the execution of tasks.
use evoid_plugins.Prelude.{
  ℕ, ◌-◌, String, Bool, true, false, ◌&&◌, Option, none, some, List, [], ◌∷◌, string_eq, nat_eq,
  ◌==◌, if◌then◌else◌,
}
use evoid_plugins.Py.Dict.{Dict}
use evoid_plugins.Py.Value.{Atom}
use evoid_plugins.Py.Exec.{Error}
use evoid_plugins.Tasks.{TaskContext, Call, Func, TaskDef, Ran, returned, raised, cancelled}

-- The events that a one-shot task ends with.
pub data TaskEvent : Type 0 where
  task_completed : (name : String) → TaskEvent
  task_failed : (name : String) → Error → TaskEvent

abbrev pub report : String → Ran (Unit {0}) → Option TaskEvent
report name (returned u) = some (task_completed name)
report name (raised e) = some (task_failed name e)
report name cancelled = none

abbrev pub context : String → TaskContext
context name = record {
  task_name = name;
  started = false;
  tick = false;
  stopped = false;
  delta = 0;
  event_data = [];
  state = [];
}

-- what follows in a coroutine
abbrev pub and_then : {S R : Type 0} → Ran (Unit {0}) × S → (S → Ran R × S) → Ran R × S
and_then (returned u, s) rest = rest s
and_then (raised e, s) rest = (raised e, s)
and_then (cancelled, s) rest = (cancelled, s)

-- `_exec_once`, on the function with its arguments: the event that it emits; what the function raises
-- goes no further, and a cancellation emits nothing
unfoldable pub exec_once :
    {W : Type 0} → TaskDef W → (W → Ran (Unit {0}) × W) → W → Option TaskEvent × W
exec_once t call w = let (answer, w') = call w in (report t.name answer, w')

module _ {W : Type 0} where
  -- `_exec_event`: an error is logged only
  unfoldable pub exec_event : Func W → Dict String Atom → W → W
  exec_event handler fields w =
      (handler.run (record (context handler.name) { event_data = fields }, w)).1.1

  abbrev pub call_hook : Option (Call W) → Call W
  call_hook none s = (returned tt, s)
  call_hook (some hook) s = hook s

  -- the `except` clause of a tick
  abbrev pub on_tick_error :
      Option (Error → Call W)
      → Ran (Unit {0}) × (TaskContext × W)
      → Ran (Unit {0}) × (TaskContext × W)
  on_tick_error hook (returned u, s) = (returned u, s)
  on_tick_error hook (cancelled, s) = (cancelled, s)
  on_tick_error none (raised e, s) = (returned tt, s)
  on_tick_error (some hook) (raised e, s) = hook e s

  -- `ctx.tick = False`
  abbrev pub tick_done : Call W
  tick_done (ctx, w) = (returned tt, (record ctx { tick = false }, w))

  -- one round of the loop of `_run_lifecycle`, up to its `sleep`
  unfoldable pub tick_once : Func W → ℕ → Call W
  tick_once f delta (ctx, w) =
      and_then (on_tick_error f.on_error (f.run (record ctx { delta = delta; tick = true }, w)))
        tick_done

  -- the rounds at these times, cancelled in the `sleep` after them
  unfoldable pub ticks : Func W → ℕ → List ℕ → Call W
  ticks f last_tick [] s = (cancelled, s)
  ticks f last_tick (now ∷ rest) s = and_then (tick_once f (now - last_tick) s) (ticks f now rest)

  -- the `except asyncio.CancelledError` clause
  unfoldable pub stop :
      Func W → Ran (Unit {0}) × (TaskContext × W) → Ran (Unit {0}) × (TaskContext × W)
  stop f (returned u, s) = (returned u, s)
  stop f (raised e, s) = (raised e, s)
  stop f (cancelled, (ctx, w)) = call_hook f.on_stop (record ctx { stopped = true }, w)

  -- `_run_lifecycle`, cancelled in a `sleep` after the rounds at these times, or before in a call
  unfoldable pub run_lifecycle : TaskDef W → ℕ → List ℕ → W → Ran (Unit {0}) × (TaskContext × W)
  run_lifecycle t started times w = stop t.func (
      and_then (call_hook t.func.on_start (record (context t.name) { started = true }, w))
        (ticks t.func started times))

-- What the processor made by `as_processor` answers.
pub data TaskReport (R : Type 0) : Type 0 where
  completed : R → TaskReport R
  failed : Error → TaskReport R

abbrev pub to_report : {R : Type 0} → Ran R → Ran (TaskReport R)
to_report (returned r) = returned (completed r)
to_report (raised e) = returned (failed e)
to_report cancelled = cancelled

-- The processor runs the function on a context where it is a coroutine function with a parameter of
-- that name, and with no argument otherwise.
unfoldable pub run_processor :
    {W R : Type 0}
    → String
    → (is_coroutine wants_ctx : Bool) → (Option TaskContext → W → Ran R × W)
    → W
    → Ran (TaskReport R) × W
run_processor name is_coroutine wants_ctx fn w =
    let argument : Option TaskContext =
      if is_coroutine && wants_ctx then some (record (context name) { started = true }) else none in
    let (answer, w') = fn argument w in (to_report answer, w')

-- The processor made by `as_intent` calls the function with no argument.
unfoldable pub run_intent : {W R : Type 0} → (W → Ran R × W) → W → Ran (TaskReport R) × W
run_intent fn w = let (answer, w') = fn w in (to_report answer, w')

-- Where `inject` puts a processor: before or after another one, or before all of the standard level.
pub data Injection : Type 0 where
  before after : (processor_name target : String) → Injection
  before_all : (processor_name : String) → Injection

-- `getattr(task_fn, "processor_name", getattr(task_fn, "intent_name", task_fn.__name__))`
abbrev pub injected_name : Option String → Option String → String → String
injected_name (some processor_name) intent_name name = processor_name
injected_name none (some intent_name) name = intent_name
injected_name none none name = name

-- `if target:`
abbrev pub given : Option String → Option String
given none = none
given (some s) = if s == "" then none else some s

unfoldable pub inject : String → Option String → Option String → Injection
inject processor_name before' after' = elim (given before') [
  | some target ↦ before processor_name target
  | none ↦ elim (given after') [
    | some target ↦ after processor_name target
    | none ↦ before_all processor_name
  ]
]
