-- ===== src/Di/Engine/Fallback/Services.antt =====
-- The services that `resolve_with_fallback` of packages/evoid-di/evoid_di/engine.py goes through, by what
-- the health checks and the factories do.
use evoid_plugins.Prelude.{
  ◌≡◌, refl, ap, sym, ◌∙◌, ◌⊎◌, inl, inr, String, Bool, true, false, Option, none, some, List, [],
  ◌∷◌, ◌++◌, string_eq, contains, Bool-cases, Option-cases, if◌then◌else◌,
}
use mathlib.Core.Path.{subst}
use mathlib.Core.List.{append-nil}
use evoid_plugins.Py.Dict.{get, get_or}
use evoid_plugins.Py.Exec.{Error, Result, ok, err, pure, handle, continue}
use evoid_plugins.Cluster.Registry
use evoid_plugins.Cluster.Registry.{Registry}
use evoid_plugins.Di.Engine.{Engine, Method, has, resolve}
use evoid_plugins.Di.Engine.Fallback.{
  mark_unhealthy, is_healthy, run_check, give_up, try_resolve, attempt, or_else, attempt_each,
  Answer, null, local_answer, node_answer, ask_cluster, or_cluster, resolve_with_fallback,
}
use evoid_plugins.Di.Engine.Fallback.Chain.{
  Same-refl, attempt_each-Settled, resolve_with_fallback-eq,
}

-- a check that says that the service is down, or raises
abbrev pub is_down : Result Bool → Bool
is_down (ok true) = false
is_down (ok false) = true
is_down (err e) = true

-- what the cluster answers for a service
abbrev pub cluster_answer : {I : Type 0} → Option Registry → String → Answer I
cluster_answer none name = null
cluster_answer (some registry) name = node_answer (Registry.resolve registry name)

cluster_asked :
    {I : Type 0} (o : Option Registry) (name : String)
    → node_answer {I = I} (elim o [ none ↦ none | some r ↦ Registry.resolve r name ])
      ≡ cluster_answer o name
cluster_asked none name = refl
cluster_asked (some r) name = refl

module _ {W I : Type 0} where
  -- The service has a factory, is not marked unhealthy, and its check, if there is one, says that it is up.
  pub record IsUp (name : String) (s : Engine W I × W) (w1 : W) : Type 0 where
    pub present : has s.0 name ≡ true
    pub unmarked : contains s.0.unhealthy name ≡ false
    pub checked :
        (get s.0.health_checks name ≡ none) × (w1 ≡ s.1)
        ⊎ ((check : W → Result Bool × W) × (get s.0.health_checks name ≡ some check)
            × (check s.1 ≡ (ok true, w1)))

  -- How a service is passed over; only one that was resolved and raised is marked unhealthy.
  pub data Passes (name : String) (user_id : Option String) (s s' : Engine W I × W) : Type 0 where
    missing : has s.0 name ≡ false → s' ≡ s → Passes name user_id s s'
    marked : contains s.0.unhealthy name ≡ true → s' ≡ s → Passes name user_id s s'
    check_failed :
        (check : W → Result Bool × W)
        → get s.0.health_checks name ≡ some check
        → is_down (check s.1).0 ≡ true
        → s' ≡ (s.0, (check s.1).1)
        → Passes name user_id s s'
    raised :
        (w1 : W) (x : Error) (after : Engine W I × W)
        → IsUp name s w1
        → resolve name user_id (s.0, w1) ≡ (err x, after)
        → s' ≡ (mark_unhealthy after.0 name, after.1)
        → Passes name user_id s s'

  -- A service that is up resolves to the value.
  pub record Serves (name : String) (user_id : Option String) (v : Option I) (s s' : Engine W I × W)
      : Type 0 where
    pub at : W
    pub up : IsUp name s at
    pub resolved : resolve name user_id (s.0, at) ≡ (ok v, s')

  -- The services are passed over one after the other.
  pub data AllPass (user_id : Option String)
      : List String → Engine W I × W → Engine W I × W → Type 0 where
    nobody : (s : Engine W I × W) → AllPass user_id [] s s
    one_more :
        (name : String) (rest : List String) (s s1 s' : Engine W I × W)
        → Passes name user_id s s1
        → AllPass user_id rest s1 s'
        → AllPass user_id (name ∷ rest) s s'

  module _ (user_id : Option String) where
    abbrev IsAttempt :
        String → Engine W I × W → Result (Option (Option I)) × (Engine W I × W) → Type 0
    IsAttempt name s (ok none, s') = Passes name user_id s s'
    IsAttempt name s (ok (some v), s') = Serves name user_id v s s'
    IsAttempt name s (err x, s') = true ≡ false

    resolved_when_up :
        (name : String) (s : Engine W I × W) (w1 : W)
        → IsUp name s w1
        → IsAttempt name s (try_resolve name user_id (s.0, w1))
    unfolding try_resolve
    resolved_when_up name s w1 up = go (resolve name user_id (s.0, w1)) refl
      where
        go :
            (p : Result (Option I) × (Engine W I × W))
            → resolve name user_id (s.0, w1) ≡ p
            → IsAttempt name s (handle (continue p (λ v. pure (some v))) (give_up name))
        go (ok v, s') ran = record { at = w1; up = up; resolved = ran }
        go (err x, after) ran = raised w1 x after up ran refl

    attempt_checked :
        (name : String) (s : Engine W I × W)
        → has s.0 name ≡ true
        → contains s.0.unhealthy name ≡ false
        → IsAttempt name s (
            continue
              (run_check (get s.0.health_checks name) s)
              (λ healthy. if healthy then try_resolve name user_id else pure none))
    attempt_checked name s present unmarked = elim (Option-cases (get s.0.health_checks name)) [
      | inl unchecked ↦ rw unchecked (
          resolved_when_up name s s.1
            (record { present = present; unmarked = unmarked; checked = inl (unchecked, refl) }))
      | inr (check, found) ↦ rw found (go check found (check s.1) refl)
    ]
      where
        go :
            (check : W → Result Bool × W)
            → get s.0.health_checks name ≡ some check
            → (p : Result Bool × W) → check s.1 ≡ p
            → IsAttempt name s (
                continue
                  (handle (p.0, (s.0, p.1)) (pure false))
                  (λ healthy. if healthy then try_resolve name user_id else pure none))
        go check found (ok true, w1) said =
            resolved_when_up name s w1 (record {
              present = present;
              unmarked = unmarked;
              checked = inr (check, found, said);
            })
        go check found (ok false, w1) said =
            check_failed check found (ap (λ p. is_down p.0) said) (ap (λ p. (s.0, p.1)) (sym said))
        go check found (err x, w1) said =
            check_failed check found (ap (λ p. is_down p.0) said) (ap (λ p. (s.0, p.1)) (sym said))

    attempt-IsAttempt :
        (name : String) (s : Engine W I × W) → IsAttempt name s (attempt name user_id s)
    unfolding attempt is_healthy
    attempt-IsAttempt name s = elim (Bool-cases (has s.0 name)) [
      | inr absent ↦ rw absent (missing absent refl)
      | inl present ↦ rw present (elim (Bool-cases (contains s.0.unhealthy name)) [
        | inl out ↦ rw out (marked out refl)
        | inr unmarked ↦ rw unmarked (attempt_checked name s present unmarked)
      ])
    ]

    -- how the loop over the services ends
    abbrev IsEnd :
        List String → Engine W I × W → Result (Option (Option I)) × (Engine W I × W) → Type 0
    IsEnd names s (ok none, s') = AllPass user_id names s s'
    IsEnd names s (ok (some v), s') =
        (passed : List String) × (name : String) × (rest : List String) × (s1 : Engine W I × W)
        × (names ≡ passed ++ name ∷ rest)
        × AllPass user_id passed s s1
        × Serves name user_id v s1 s'
    IsEnd names s (err x, s') = true ≡ false

    later :
        (name : String) (rest : List String) (s s1 : Engine W I × W)
        (p : Result (Option (Option I)) × (Engine W I × W))
        → Passes name user_id s s1
        → IsEnd rest s1 p
        → IsEnd (name ∷ rest) s p
    later name rest s s1 (ok none, s') pass all = one_more name rest s s1 s' pass all
    later name rest s s1 (ok (some v), s') pass (passed, found, others, s2, split, all, serves) = (
      name ∷ passed,
      found,
      others,
      s2,
      ap (λ l. name ∷ l) split,
      one_more name passed s s1 s2 pass all,
      serves,
    )
    later name rest s s1 (err x, s') pass never = never

    one_service :
        (name : String) (rest : List String) (s : Engine W I × W)
        (p : Result (Option (Option I)) × (Engine W I × W))
        (others : Method W I (Option (Option I)))
        → IsAttempt name s p
        → ((s1 : Engine W I × W) → IsEnd rest s1 (others s1))
        → IsEnd (name ∷ rest) s (continue p (or_else others))
    one_service name rest s (ok none, s1) others pass end =
        later name rest s s1 (others s1) pass (end s1)
    one_service name rest s (ok (some v), s') others serves end =
        ([], name, rest, s, refl, nobody s, serves)
    one_service name rest s (err x, s') others never end = never

    attempt_each-IsEnd :
        (names : List String) (s : Engine W I × W) → IsEnd names s (attempt_each names user_id s)
    unfolding attempt_each
    attempt_each-IsEnd [] s = nobody s
    attempt_each-IsEnd (name ∷ rest) s =
        one_service name rest s (attempt name user_id s) (attempt_each rest user_id)
          (attempt-IsAttempt name s) (attempt_each-IsEnd rest)

  -- The chain goes through the service and then its fallbacks in order, and never raises. Those before the
  -- answer are passed over: they have no factory, are marked unhealthy, their check does not say that
  -- they are up, or they raise, and only the latter are marked. Then the answer is the instance of the
  -- first service that is up and does not raise; where there is none, the cluster is asked.
  pub resolve_with_fallback_lem :
      (name : String) (user_id : Option String) (e : Engine W I) (w : W)
      → (passed : List String) × (untried : List String) × (s1 : Engine W I × W) × (answer : Answer
          I)
        × (s' : Engine W I × W) × (resolve_with_fallback name user_id (e, w) ≡ (ok answer, s'))
        × (name ∷ get_or e.fallbacks name [] ≡ passed ++ untried)
        × AllPass user_id passed (e, w) s1
        × ((untried ≡ []) × (s' ≡ s1) × (answer ≡ cluster_answer e.cluster_registry name)
            ⊎ ((found : String) × (rest : List String) × (v : Option I) × (untried ≡ found ∷ rest)
                × Serves found user_id v s1 s'
                × (answer ≡ local_answer v)))
  unfolding ask_cluster
  resolve_with_fallback_lem name user_id e w =
      let chain = attempt_each-Settled names user_id e e w (Same-refl e) in
      ended chain.answer (chain.after, chain.world)
        (resolve_with_fallback-eq name user_id e w
          ∙ ap (λ p. continue p (or_cluster name)) chain.returned)
        (subst (IsEnd user_id names (e, w)) chain.returned
          (attempt_each-IsEnd user_id names (e, w)))
        chain.same.cluster_registry
    where
      names : List String
      names = name ∷ get_or e.fallbacks name []

      ended :
          (a : Option (Option I)) (after : Engine W I × W)
          → resolve_with_fallback name user_id (e, w) ≡ or_cluster name a after
          → IsEnd user_id names (e, w) (ok a, after)
          → after.0.cluster_registry ≡ e.cluster_registry
          → (passed : List String) × (untried : List String) × (s1 : Engine W I × W)
            × (answer : Answer I) × (s' : Engine W I × W) × (resolve_with_fallback name user_id
                  (e, w)
                ≡ (ok answer, s'))
            × (name ∷ get_or e.fallbacks name [] ≡ passed ++ untried)
            × AllPass user_id passed (e, w) s1
            × ((untried ≡ []) × (s' ≡ s1) × (answer ≡ cluster_answer e.cluster_registry name)
                ⊎ ((found : String) × (rest : List String) × (v : Option I) × (untried
                      ≡ found ∷ rest)
                    × Serves found user_id v s1 s'
                    × (answer ≡ local_answer v)))
      ended none after ran all same = (
        names,
        [],
        after,
        node_answer (ask_cluster after.0 name),
        after,
        ran,
        sym (append-nil names),
        all,
        inl (
          refl,
          refl,
          cluster_asked after.0.cluster_registry name ∙ ap (λ o. cluster_answer o name) same,
        ),
      )
      ended (some v) after ran (passed, found, rest, s1, split, all, serves) same = (
        passed,
        found ∷ rest,
        s1,
        local_answer v,
        after,
        ran,
        split,
        all,
        inr (found, rest, v, refl, serves, refl),
      )
