-- ===== src/Di/Engine/Fallback/Chain.antt =====
-- The fallback chain never raises, goes through the services in order, and leaves out those that are
-- marked unhealthy.
use evoid_plugins.Prelude.{
  ◌≡◌, refl, ap, sym, String, true, Option, none, some, List, [], ◌∷◌, string_eq, Bool-cases, inl,
  inr,
}
use mathlib.Core.Path.{subst}
use evoid_plugins.Py.Dict.{Dict, get_or}
use evoid_plugins.Py.Exec.{is_ok, ◌>>=◌, continue}
use evoid_plugins.Di.Engine.{Engine, Method, has}
use evoid_plugins.Di.Engine.Fallback.{
  is_healthy, attempt, or_else, or_cluster, or_next, attempt_fallbacks, attempt_each, Answer, null,
  instance_of, remote, local_answer, node_answer, ask_cluster, resolve_with_fallback, resolve_any,
}
use evoid_plugins.Di.Engine.Fallback.Settled.{
  Same, Settled, is_healthy-Settled, Settled-weaken, continue-Settled, if-Settled,
}

module _ {W I : Type 0} where
  attempt-Settled :
      (name : String) (user_id : Option String) (e0 e : Engine W I) (w : W)
      → Same e0 e
      → Settled e0 (attempt name user_id (e, w))
  unfolding attempt
  attempt-Settled name user_id e0 e w h = elim (Bool-cases (has e name)) [
    | inr missing ↦
        rw missing (record { answer = none; after = e; world = w; returned = refl; same = h })
    | inl present ↦ rw present (
        continue-Settled e0 (is_healthy name (e, w)) _
          (Settled-weaken e0 e _ h (is_healthy-Settled name e w))
          (λ healthy e' w' h'. if-Settled healthy name user_id e0 e' w' h'))
  ]

  or_else-Settled :
      (others : Method W I (Option (Option I))) (found : Option (Option I)) (e0 e : Engine W I)
      (w : W)
      → Same e0 e
      → Settled e0 (others (e, w))
      → Settled e0 (or_else others found (e, w))
  or_else-Settled others (some v) e0 e w h rest = record {
    answer = some v;
    after = e;
    world = w;
    returned = refl;
    same = h;
  }
  or_else-Settled others none e0 e w h rest = rest

  pub attempt_each-Settled :
      (names : List String) (user_id : Option String) (e0 e : Engine W I) (w : W)
      → Same e0 e
      → Settled e0 (attempt_each names user_id (e, w))
  unfolding attempt_each
  attempt_each-Settled [] user_id e0 e w h = record {
    answer = none;
    after = e;
    world = w;
    returned = refl;
    same = h;
  }
  attempt_each-Settled (name ∷ rest) user_id e0 e w h =
      continue-Settled e0 (attempt name user_id (e, w)) _ (attempt-Settled name user_id e0 e w h)
        (λ found e' w' h'.
          or_else-Settled (attempt_each rest user_id) found e0 e' w' h'
            (attempt_each-Settled rest user_id e0 e' w' h'))

  or_cluster-Settled :
      (name : String) (found : Option (Option I)) (e0 e : Engine W I) (w : W)
      → Same e0 e
      → Settled e0 (or_cluster name found (e, w))
  or_cluster-Settled name (some v) e0 e w h = record {
    answer = local_answer v;
    after = e;
    world = w;
    returned = refl;
    same = h;
  }
  or_cluster-Settled name none e0 e w h = record {
    answer = node_answer (ask_cluster e name);
    after = e;
    world = w;
    returned = refl;
    same = h;
  }

  chain_step :
      (name : String) (user_id : Option String) (found : Option (Option I)) (e e' : Engine W I)
      (w : W)
      → Same e e'
      → (or_else (attempt_fallbacks name user_id) found >>= or_cluster name) (e', w)
        ≡ (or_else (attempt_each (get_or e.fallbacks name []) user_id) found >>= or_cluster name)
            (e', w)
  chain_step name user_id (some v) e e' w h = refl
  chain_step name user_id none e e' w h =
      ap
        (λ (f : Dict String (List String)).
          continue (attempt_each (get_or f name []) user_id (e', w)) (or_cluster name))
        h.fallbacks

  pub Same-refl : (e : Engine W I) → Same e e
  Same-refl e = record { fallbacks = refl; cluster_registry = refl; factories = refl }

  -- The chain is the attempt of each service in turn, the primary first and then the fallbacks that
  -- are registered for it, and after these the cluster.
  pub resolve_with_fallback-eq :
      (name : String) (user_id : Option String) (e : Engine W I) (w : W)
      → resolve_with_fallback name user_id (e, w)
        ≡ (attempt_each (name ∷ get_or e.fallbacks name []) user_id >>= or_cluster name) (e, w)
  unfolding resolve_with_fallback attempt_each
  resolve_with_fallback-eq name user_id e w =
      let first = attempt-Settled name user_id e e w (Same-refl e) in
      subst
        (λ p.
          continue p
            (λ primary. or_else (attempt_fallbacks name user_id) primary >>= or_cluster name)
          ≡ continue (continue p (or_else (attempt_each (get_or e.fallbacks name []) user_id)))
              (or_cluster name))
        (sym first.returned)
        (chain_step name user_id first.answer e first.after first.world first.same)

  resolve_with_fallback-Settled :
      (name : String) (user_id : Option String) (e0 e : Engine W I) (w : W)
      → Same e0 e
      → Settled e0 (resolve_with_fallback name user_id (e, w))
  resolve_with_fallback-Settled name user_id e0 e w h =
      subst (Settled e0) (sym (resolve_with_fallback-eq name user_id e w)) (
        continue-Settled e0 _ _
          (attempt_each-Settled (name ∷ get_or e.fallbacks name []) user_id e0 e w h)
          (λ found e' w' h'. or_cluster-Settled name found e0 e' w' h'))

  or_next-Settled :
      (others : Method W I (Answer I)) (found : Answer I) (e0 e : Engine W I) (w : W)
      → Same e0 e
      → Settled e0 (others (e, w))
      → Settled e0 (or_next others found (e, w))
  or_next-Settled others null e0 e w h rest = rest
  or_next-Settled others (instance_of i) e0 e w h rest = record {
    answer = instance_of i;
    after = e;
    world = w;
    returned = refl;
    same = h;
  }
  or_next-Settled others (remote node) e0 e w h rest = record {
    answer = remote node;
    after = e;
    world = w;
    returned = refl;
    same = h;
  }

  resolve_any-Settled :
      (names : List String) (user_id : Option String) (e0 e : Engine W I) (w : W)
      → Same e0 e
      → Settled e0 (resolve_any names user_id (e, w))
  unfolding resolve_any
  resolve_any-Settled [] user_id e0 e w h = record {
    answer = null;
    after = e;
    world = w;
    returned = refl;
    same = h;
  }
  resolve_any-Settled (name ∷ rest) user_id e0 e w h =
      continue-Settled e0 (resolve_with_fallback name user_id (e, w)) _
        (resolve_with_fallback-Settled name user_id e0 e w h)
        (λ found e' w' h'.
          or_next-Settled (resolve_any rest user_id) found e0 e' w' h'
            (resolve_any-Settled rest user_id e0 e' w' h'))

  -- Neither call raises, whatever the factories and the health checks do.
  pub fallback_never_raises :
      (name : String) (names : List String) (user_id : Option String) (e : Engine W I) (w : W)
      → (is_ok (resolve_with_fallback name user_id (e, w)).0 ≡ true)
        × (is_ok (resolve_any names user_id (e, w)).0 ≡ true)
  fallback_never_raises name names user_id e w =
      let one = resolve_with_fallback-Settled name user_id e e w (Same-refl e) in
      let any = resolve_any-Settled names user_id e e w (Same-refl e) in
      (ap (λ p. is_ok p.0) one.returned, ap (λ p. is_ok p.0) any.returned)
