-- ===== src/Tasks/Lifecycle.antt =====
-- What a task does from its start to its end.
use evoid_plugins.Prelude.{ℕ, ◌-◌, ◌≡◌, refl, ap, ◌∙◌, true, false, none, List, [], ◌∷◌}
use evoid_plugins.Tasks.{TaskContext, Call, Func, TaskDef, Ran, returned, raised, cancelled}
use evoid_plugins.Tasks.Run.{
  and_then, on_tick_error, tick_done, tick_once, ticks, stop, call_hook, run_lifecycle, context,
}

module _ {W : Type 0} where
  -- what a call leaves, with the rounds after it unless it was cancelled
  abbrev unless_cancelled :
      Ran (Unit {0}) × (TaskContext × W) → (TaskContext × W → TaskContext × W) → TaskContext × W
  unless_cancelled (returned u, (ctx, w)) later = later (record ctx { tick = false }, w)
  unless_cancelled (raised e, (ctx, w)) later = later (record ctx { tick = false }, w)
  unless_cancelled (cancelled, s) later = s

  -- the context and the world after the function has been called at these times, whatever it raised,
  -- up to a call that was cancelled
  unfoldable pub called : Func W → ℕ → List ℕ → TaskContext × W → TaskContext × W
  called f last_tick [] s = s
  called f last_tick (now ∷ rest) (ctx, w) =
      unless_cancelled (f.run (record ctx { delta = now - last_tick; tick = true }, w))
        (called f now rest)

  one_round :
      (p : Ran (Unit {0}) × (TaskContext × W)) (rest : Call W)
      (later : TaskContext × W → TaskContext × W)
      → ((s : TaskContext × W) → rest s ≡ (cancelled, later s))
      → and_then (and_then (on_tick_error none p) tick_done) rest
        ≡ (cancelled, unless_cancelled p later)
  one_round (returned u, (ctx, w)) rest later h = h (record ctx { tick = false }, w)
  one_round (raised e, (ctx, w)) rest later h = h (record ctx { tick = false }, w)
  one_round (cancelled, s) rest later h = refl

  ticks-called :
      (f : Func W) (last_tick : ℕ) (times : List ℕ) (s : TaskContext × W)
      → f.on_error ≡ none
      → ticks f last_tick times s ≡ (cancelled, called f last_tick times s)
  unfolding ticks called tick_once
  ticks-called f last_tick [] s plain = refl
  ticks-called f last_tick (now ∷ rest) (ctx, w) plain =
      let p = f.run (record ctx { delta = now - last_tick; tick = true }, w) in
      ap (λ hook. and_then (and_then (on_tick_error hook p) tick_done) (ticks f now rest)) plain
      ∙ one_round p (ticks f now rest) (called f now rest) (λ s. ticks-called f now rest s plain)

  -- A task without hooks is called at every tick, whatever exception its function raises, until it is
  -- cancelled, in a sleep or in a call. Then it ends without an error, its context marked as stopped.
  pub run_lifecycle_lem :
      (t : TaskDef W) (started : ℕ) (times : List ℕ) (w : W)
      → t.func.on_start ≡ none
      → t.func.on_error ≡ none
      → t.func.on_stop ≡ none
      → let (ctx, w') =
          called t.func started times (record (context t.name) { started = true }, w) in
        run_lifecycle t started times w ≡ (returned tt, (record ctx { stopped = true }, w'))
  unfolding run_lifecycle stop
  run_lifecycle_lem t started times w quiet plain final =
      let s : TaskContext × W = (record (context t.name) { started = true }, w) in
      let end = called t.func started times s in
      ap (λ hook. stop t.func (and_then (call_hook hook s) (ticks t.func started times))) quiet
      ∙ ap (stop t.func) (ticks-called t.func started times s plain)
      ∙ ap (λ hook. call_hook hook (record end.0 { stopped = true }, end.1)) final
