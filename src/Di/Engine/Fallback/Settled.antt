-- ===== src/Di/Engine/Fallback/Settled.antt =====
-- The parts of the fallback chain that cannot raise.
use evoid_plugins.Prelude.{
  ◌≡◌, refl, ap, sym, ◌∙◌, String, Bool, true, false, Option, none, some, string_eq, if◌then◌else◌,
  contains, arith, Bool-cases, inl, inr,
}
use mathlib.Core.Path.{subst}
use evoid_plugins.Py.Dict.{get}
use evoid_plugins.Py.Exec.{Result, ok, err, pure, handle, continue}
use evoid_plugins.Di.Engine.{Engine, Method, resolve}
use evoid_plugins.Di.Engine.Scopes.{CachesOnly, resolve-CachesOnly}
use evoid_plugins.Di.Engine.Fallback.{mark_unhealthy, is_healthy, run_check, give_up, try_resolve}

module _ {W I : Type 0} where
  -- What a part of the chain leaves as it is.
  pub record Same (e e' : Engine W I) : Type 0 where
    pub fallbacks : e'.fallbacks ≡ e.fallbacks
    pub cluster_registry : e'.cluster_registry ≡ e.cluster_registry
    pub factories : e'.factories ≡ e.factories

  -- An outcome that is no exception, with its parts.
  pub record Settled {A : Type 0} (e : Engine W I) (out : Result A × (Engine W I × W))
      : Type 0 where
    pub answer : A
    pub after : Engine W I
    pub world : W
    pub returned : out ≡ (ok answer, (after, world))
    pub same : Same e after

  pub handle-Settled :
      (r : Result Bool) (otherwise : Bool) (e : Engine W I) (w : W)
      → Settled e (handle (r, (e, w)) (pure otherwise))
  handle-Settled (ok b) otherwise e w = record {
    answer = b;
    after = e;
    world = w;
    returned = refl;
    same = ground arith;
  }
  handle-Settled (err x) otherwise e w = record {
    answer = otherwise;
    after = e;
    world = w;
    returned = refl;
    same = ground arith;
  }

  pub run_check-Settled :
      (check : Option (W → Result Bool × W)) (e : Engine W I) (w : W)
      → Settled e (run_check check (e, w))
  run_check-Settled none e w = record {
    answer = true;
    after = e;
    world = w;
    returned = refl;
    same = ground arith;
  }
  run_check-Settled (some check) e w = let (r, w') = check w in handle-Settled r false e w'

  pub is_healthy-Settled :
      (name : String) (e : Engine W I) (w : W) → Settled e (is_healthy name (e, w))
  unfolding is_healthy
  is_healthy-Settled name e w = elim (Bool-cases (contains e.unhealthy name)) [
    | inl out ↦
        rw out
          (record { answer = false; after = e; world = w; returned = refl; same = ground arith })
    | inr fit ↦ rw fit (run_check-Settled (get e.health_checks name) e w)
  ]

  pub CachesOnly-Same : (e e' : Engine W I) → CachesOnly e e' → Same e e'
  CachesOnly-Same e e' h = record {
    fallbacks = ap (λ (x : Engine W I). x.fallbacks) h;
    cluster_registry = ap (λ (x : Engine W I). x.cluster_registry) h;
    factories = ap (λ (x : Engine W I). x.factories) h;
  }

  pub mark_unhealthy-Same :
      (e e' : Engine W I) (name : String) → Same e e' → Same e (mark_unhealthy e' name)
  unfolding mark_unhealthy
  mark_unhealthy-Same e e' name h = ground arith

  pub Same-trans : (a b c : Engine W I) → Same a b → Same b c → Same a c
  Same-trans a b c h k = record {
    fallbacks = k.fallbacks ∙ h.fallbacks;
    cluster_registry = k.cluster_registry ∙ h.cluster_registry;
    factories = k.factories ∙ h.factories;
  }

  pub Settled-weaken :
      {A : Type 0} (a b : Engine W I) (out : Result A × (Engine W I × W))
      → Same a b
      → Settled b out
      → Settled a out
  Settled-weaken a b out h s = record {
    answer = s.answer;
    after = s.after;
    world = s.world;
    returned = s.returned;
    same = Same-trans a b s.after h s.same;
  }

  -- a `try` block that resolved a service, by what the block did
  pub caught-Settled :
      (name : String) (r : Result (Option I)) (e e' : Engine W I) (w : W)
      → Same e e'
      → Settled e (handle (continue (r, (e', w)) (λ v. pure (some v))) (give_up name))
  caught-Settled name (ok v) e e' w h = record {
    answer = some v;
    after = e';
    world = w;
    returned = refl;
    same = h;
  }
  caught-Settled name (err x) e e' w h = record {
    answer = none;
    after = mark_unhealthy e' name;
    world = w;
    returned = refl;
    same = mark_unhealthy-Same e e' name h;
  }

  pub try_resolve-Settled :
      (name : String) (user_id : Option String) (e e0 : Engine W I) (w : W)
      → Same e0 e
      → Settled e0 (try_resolve name user_id (e, w))
  unfolding try_resolve
  try_resolve-Settled name user_id e e0 w h =
      let (r, (e', w')) = resolve name user_id (e, w) in
      let same = CachesOnly-Same e e' (resolve-CachesOnly name user_id e w) in
      caught-Settled name r e0 e' w' (Same-trans e0 e e' h same)

  pub continue-Settled :
      {A B : Type 0} (e : Engine W I) (p : Result A × (Engine W I × W)) (f : A → Method W I B)
      → Settled e p
      → ((a : A) (e' : Engine W I) (w : W) → Same e e' → Settled e (f a (e', w)))
      → Settled e (continue p f)
  continue-Settled {A} {B} e p f h k =
      subst (λ q. Settled e (continue q f)) (sym h.returned) (k h.answer h.after h.world h.same)

  pub if-Settled :
      (healthy : Bool) (name : String) (user_id : Option String) (e0 e : Engine W I) (w : W)
      → Same e0 e
      → Settled e0 ((if healthy then try_resolve name user_id else pure none) (e, w))
  if-Settled true name user_id e0 e w h = try_resolve-Settled name user_id e e0 w h
  if-Settled false name user_id e0 e w h = record {
    answer = none;
    after = e;
    world = w;
    returned = refl;
    same = h;
  }
