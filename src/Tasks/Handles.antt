-- ===== src/Tasks/Handles.antt =====
-- The background tasks that the scheduler can cancel.
mod Values
use evoid_plugins.Prelude.{
  ℕ, suc, ◌<◌, ◌≡◌, refl, ap, ◌∙◌, String, true, false, not, ◌&&◌, ◌||◌, Option, none, some, List,
  [], ◌∷◌, ◌++◌, arith, nat_eq, ◌==◌, ==_iff, contains, distinct, distinct-snoc, contains-keep_if,
  contains-append, contains-singleton, keep_if, Option-cases, Bool-cases, inl, inr,
}
use evoid_plugins.Py.Dict.{Dict, get, has_key, put, remove, values, unique_keys}
use evoid_plugins.Py.Dict.Laws.{put_new, put-unique_keys, remove-unique_keys}
use evoid_plugins.Tasks.{
  Func, TaskDef, TaskId, task_id_eq, TaskScheduler, init, task_id, task_def, list_task, schedule,
  cancel_handle, task, on, cancel, cancel_all, shutdown, run, cleanup_task,
}
use Values.{
  values-snoc, contains-values_absent, contains-values-get, contains-values-remove,
  distinct-values-remove, contains-values-put,
}

module _ {W : Type 0} where
  -- The tasks that run at an interval are among those that the scheduler can cancel, each under one id.
  pub record IsKept (s : TaskScheduler W) : Type 0 where
    pub known : (h : ℕ) → contains s.live h ≡ true → contains (values s.running) h ≡ true
    pub once : distinct (values s.running) ≡ true
    pub one_each : unique_keys s.running ≡ true
    pub used : (h : ℕ) → contains (values s.running) h ≡ true → h < s.next_handle

  contains-cancel_all :
      (s : TaskScheduler W) (handles : List ℕ) (h : ℕ)
      → contains (cancel_all s handles).live h ≡ (contains s.live h && not (contains handles h))
  unfolding cancel_all cancel_handle contains
  contains-cancel_all s [] h = ground arith
  contains-cancel_all s (k ∷ rest) h = ground (
    arith,
    contains-cancel_all (cancel_handle s k) rest h,
    contains-keep_if (λ x. not (x == k)) s.live h,
    ==_iff k h,
    ==_iff h k,
  )

  init-IsKept : (n : ℕ) → IsKept (init {W = W} n)
  unfolding init contains distinct unique_keys
  init-IsKept n = record { known = λ h l. cc; once = refl; one_each = refl; used = λ h l. cc }

  -- a background task under a new id
  scheduled-IsKept :
      (s s' : TaskScheduler W) (id : TaskId)
      → has_key s.running id ≡ false
      → s'.running ≡ put s.running id s.next_handle
      → s'.live ≡ s.next_handle ∷ s.live
      → s'.next_handle ≡ suc s.next_handle
      → IsKept s
      → IsKept s'
  unfolding contains
  scheduled-IsKept s s' id fresh running live counted kept =
      let listed : values s'.running ≡ values s.running ++ s.next_handle ∷ [] =
        ap values running
        ∙ ap values (put_new s.running id s.next_handle fresh)
        ∙ values-snoc s.running id s.next_handle in
      let unused : contains (values s.running) s.next_handle ≡ false =
        ground (arith, kept.used s.next_handle) in
      record {
        known = λ h l. ground (
          arith,
          live,
          listed,
          kept.known h,
          contains-append (values s.running) (s.next_handle ∷ []) h,
          contains-singleton s.next_handle h,
        );
        once =
            ground (arith, listed, distinct-snoc (values s.running) s.next_handle kept.once unused);
        one_each =
            ground (arith, running, put-unique_keys s.running id s.next_handle kept.one_each);
        used = λ h l. ground (
          arith,
          listed,
          counted,
          kept.used h,
          contains-append (values s.running) (s.next_handle ∷ []) h,
          contains-singleton s.next_handle h,
          ==_iff s.next_handle h,
        );
      }

  task-IsKept :
      (s : TaskScheduler W) (fn : Func W) (interval : Option ℕ) (now : ℕ)
      → has_key s.running (record { name = fn.name; ident = fn.ident }) ≡ false
      → IsKept s
      → IsKept (task s fn interval now)
  unfolding task
  task-IsKept s fn none now fresh kept = record {
    known = kept.known;
    once = kept.once;
    one_each = kept.one_each;
    used = kept.used;
  }
  task-IsKept s fn (some seconds) now fresh kept = elim (Bool-cases (seconds == 0)) [
    | inl never ↦
        rw (never, task)
          (record {
            known = kept.known;
            once = kept.once;
            one_each = kept.one_each;
            used = kept.used;
          })
    | inr often ↦
        rw (often, task)
          (scheduled-IsKept s
            (schedule (list_task s (task_def fn (some seconds) now))
              (task_def fn (some seconds) now))
            (record { name = fn.name; ident = fn.ident }) fresh refl refl refl kept)
  ]

  cancel-IsKept : (s : TaskScheduler W) (t : TaskDef W) → IsKept s → IsKept (cancel s t)
  unfolding cancel cancel_handle
  cancel-IsKept s t kept = elim (Option-cases (get s.running (task_id t))) [
    | inl absent ↦ rw (absent, cancel) kept
    | inr (handle, found) ↦
        rw (found, cancel)
          (record {
            known = λ h l. ground (
              arith,
              kept.known h,
              contains-keep_if (λ x. not (x == handle)) s.live h,
              contains-values-remove s.running (task_id t) handle h kept.one_each kept.once found,
            );
            once =
                distinct-values-remove s.running (task_id t) handle kept.one_each kept.once found;
            one_each = remove-unique_keys s.running (task_id t) kept.one_each;
            used = λ h l. ground (
              arith,
              kept.used h,
              contains-values-remove s.running (task_id t) handle h kept.one_each kept.once found,
            );
          })
  ]

  shutdown-IsKept : (s : TaskScheduler W) → IsKept s → IsKept (shutdown s)
  unfolding shutdown contains distinct unique_keys
  shutdown-IsKept s kept = record {
    known = λ h l. ground (arith, contains-cancel_all s (values s.running) h, kept.known h);
    once = refl;
    one_each = refl;
    used = λ h l. cc;
  }

  one_shots-cancel_all :
      (s : TaskScheduler W) (handles : List ℕ) → (cancel_all s handles).one_shots ≡ s.one_shots
  unfolding cancel_all cancel_handle
  one_shots-cancel_all s [] = refl
  one_shots-cancel_all s (h ∷ rest) = one_shots-cancel_all (cancel_handle s h) rest

  ended-IsKept : (s : TaskScheduler W) (handle : ℕ) → IsKept s → IsKept (cancel_handle s handle)
  unfolding cancel_handle
  ended-IsKept s handle kept = record {
    known = λ h l. ground (arith, kept.known h, contains-keep_if (λ x. not (x == handle)) s.live h);
    once = kept.once;
    one_each = kept.one_each;
    used = kept.used;
  }

  run-IsKept : (s : TaskScheduler W) (fn : Func W) (now : ℕ) → IsKept s → IsKept (run s fn now).1
  unfolding run
  run-IsKept s fn now kept = record {
    known = kept.known;
    once = kept.once;
    one_each = kept.one_each;
    used = λ h l. omega (arith, kept.used h l);
  }

  -- A change of the scheduler: a call of it, or the end of a task in the background. A function that
  -- runs at an interval is given to it under an id that it does not hold.
  pub data Change : TaskScheduler W → TaskScheduler W → Type 0 where
    add :
        (s : TaskScheduler W) (fn : Func W) (interval : Option ℕ) (now : ℕ)
        → has_key s.running (record { name = fn.name; ident = fn.ident }) ≡ false
        → Change s (task s fn interval now)
    run_once : (s : TaskScheduler W) (fn : Func W) (now : ℕ) → Change s (run s fn now).1
    listen : (s : TaskScheduler W) (event : String) (fn : Func W) → Change s (on s event fn)
    stop_one : (s : TaskScheduler W) (t : TaskDef W) → Change s (cancel s t)
    stop_all : (s : TaskScheduler W) → Change s (shutdown s)
    ended : (s : TaskScheduler W) (handle : ℕ) → Change s (cancel_handle s handle)
    ran :
        (s : TaskScheduler W) (t : TaskDef W) (handle : ℕ)
        → Change s
            (record (cleanup_task s t) { one_shots = keep_if (λ h. not (h == handle)) s.one_shots })

  pub data Reach (s : TaskScheduler W) : TaskScheduler W → Type 0 where
    here : Reach s s
    next : {t u : TaskScheduler W} → Reach s t → Change t u → Reach s u

  Change-IsKept : {s t : TaskScheduler W} → Change s t → IsKept s → IsKept t
  unfolding on cleanup_task
  Change-IsKept (add s fn interval now fresh) kept = task-IsKept s fn interval now fresh kept
  Change-IsKept (run_once s fn now) kept = run-IsKept s fn now kept
  Change-IsKept (listen s event fn) kept = record {
    known = kept.known;
    once = kept.once;
    one_each = kept.one_each;
    used = kept.used;
  }
  Change-IsKept (stop_one s t) kept = cancel-IsKept s t kept
  Change-IsKept (stop_all s) kept = shutdown-IsKept s kept
  Change-IsKept (ended s handle) kept = ended-IsKept s handle kept
  Change-IsKept (ran s t handle) kept = record {
    known = kept.known;
    once = kept.once;
    one_each = kept.one_each;
    used = kept.used;
  }

  IsKept-all : (n : ℕ) {s : TaskScheduler W} → Reach (init n) s → IsKept s
  IsKept-all n here = init-IsKept n
  IsKept-all n (next steps step) = Change-IsKept step (IsKept-all n steps)

  -- Whatever is added, run once, cancelled and shut down, and whatever ends by itself, in whatever
  -- order, as long as no function is added under an id that the scheduler holds: every task that
  -- runs at an interval is one that the scheduler knows, under one id, and `shutdown` ends all of
  -- these. Those that `run` started go on.
  pub Reach-IsKept :
      (n h : ℕ) {s : TaskScheduler W}
      → Reach (init n) s
      → IsKept s × (contains (shutdown s).live h ≡ false) × ((shutdown s).one_shots ≡ s.one_shots)
  unfolding shutdown
  Reach-IsKept n h {s = s} steps =
      let kept = IsKept-all n steps in
      (
        kept,
        ground (arith, contains-cancel_all s (values s.running) h, kept.known h),
        one_shots-cancel_all s (values s.running),
      )

  -- A function that is added again while it runs loses its first background task: no id stands for
  -- it, and `shutdown` leaves it running.
  pub shutdown-task :
      (s : TaskScheduler W) (fn : Func W) (seconds now h : ℕ)
      → IsKept s
      → get s.running (record { name = fn.name; ident = fn.ident }) ≡ some h
      → contains s.live h ≡ true
      → (seconds == 0) ≡ false
      → contains (shutdown (task s fn (some seconds) now)).live h ≡ true
  unfolding shutdown contains task cancel_all
  shutdown-task s fn seconds now h kept found alive often =
      let id : TaskId = record { name = fn.name; ident = fn.ident } in
      let again =
        schedule (list_task s (task_def fn (some seconds) now)) (task_def fn (some seconds) now) in
      let known : contains (values s.running) h ≡ true = kept.known h alive in
      rw (often, task)
        (ground (
          arith,
          contains-cancel_all again (values again.running) h,
          alive,
          kept.used h known,
          contains-values-put s.running id h s.next_handle h kept.one_each kept.once found,
          ==_iff h h,
          ==_iff h s.next_handle,
        ))
