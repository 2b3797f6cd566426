-- ===== src/Di/Engine/Fallback/Health.antt =====
-- Unhealthy services, and the nodes that the chain falls back on.
use mathlib.Core.Path.{subst}
use evoid_plugins.Prelude.{
  ◌≡◌, ap, sym, ◌∙◌, String, true, not, ◌&&◌, ◌||◌, Option, none, some, [], ◌∷◌, string_eq, ◌==◌,
  ==_iff, ==_sym, ==_refl, contains, contains-keep_if, arith,
}
use evoid_plugins.Py.Dict.{get_or}
use evoid_plugins.Py.Exec.{ok, err, Error, continue}
use evoid_plugins.Cluster.Node.{ClusterNode, is_online}
use evoid_plugins.Cluster.Registry.{Registry}
use evoid_plugins.Cluster.Registry.Consistency.{IsConsistent}
use evoid_plugins.Cluster.Registry.Resolve.{Offers, resolve_sound}
use evoid_plugins.Di.Engine.{Engine, has, resolve}
use evoid_plugins.Di.Engine.Fallback.{
  mark_unhealthy, mark_healthy, is_healthy, try_resolve, attempt, attempt_each, remote, ask_cluster,
  or_cluster, resolve_with_fallback,
}
use evoid_plugins.Di.Engine.Fallback.Settled.{Same}
use evoid_plugins.Di.Engine.Fallback.Chain.{
  Same-refl, attempt_each-Settled, resolve_with_fallback-eq,
}

module _ {W I : Type 0} where
  contains-mark_unhealthy :
      (e : Engine W I) (n m : String)
      → contains (mark_unhealthy e n).unhealthy m ≡ (n == m || contains e.unhealthy m)
  unfolding mark_unhealthy contains
  contains-mark_unhealthy e n m = ground (arith, ==_iff n m)

  -- Marking a service healthy again undoes that it was marked unhealthy, and touches no other.
  pub contains-mark_healthy :
      (e : Engine W I) (n m : String)
      → contains (mark_healthy (mark_unhealthy e n) n).unhealthy m
        ≡ (not (n == m) && contains e.unhealthy m)
  unfolding mark_healthy
  contains-mark_healthy e n m = ground (
    arith,
    contains-keep_if (λ x. not (x == n)) (mark_unhealthy e n).unhealthy m,
    contains-mark_unhealthy e n m,
    ==_sym m n,
  )

  -- A service that is marked unhealthy is passed over: no check, no factory, no change.
  pub attempt_unhealthy :
      (name : String) (user_id : Option String) (e : Engine W I) (w : W)
      → contains e.unhealthy name ≡ true
      → attempt name user_id (e, w) ≡ (ok none, (e, w))
  unfolding attempt is_healthy
  attempt_unhealthy name user_id e w out = ground arith

  attempt_raised :
      (name : String) (user_id : Option String) (e e1 : Engine W I) (w w1 : W) (x : Error)
      → has e name ≡ true
      → is_healthy name (e, w) ≡ (ok true, (e1, w1))
      → (resolve name user_id (e1, w1)).0 ≡ err x
      → attempt name user_id (e, w) ≡ (
        ok none,
        (
          mark_unhealthy (resolve name user_id (e1, w1)).1.0 name,
          (resolve name user_id (e1, w1)).1.1,
        ),
      )
  unfolding attempt try_resolve
  attempt_raised name user_id e e1 w w1 x present healthy failed = ground arith

  -- A service that raised is taken out of the chain: the next attempt passes it over and changes
  -- nothing.
  pub attempt_again :
      (name : String) (user_id again : Option String) (e e1 : Engine W I) (w w1 : W) (x : Error)
      → has e name ≡ true
      → is_healthy name (e, w) ≡ (ok true, (e1, w1))
      → (resolve name user_id (e1, w1)).0 ≡ err x
      → attempt name again (attempt name user_id (e, w)).1
        ≡ (ok none, (attempt name user_id (e, w)).1)
  attempt_again name user_id again e e1 w w1 x present healthy failed =
      let after = (resolve name user_id (e1, w1)).1 in
      let marked =
        contains-mark_unhealthy after.0 name name
        ∙ ap (λ b. b || contains after.0.unhealthy name) (==_refl name) in
      subst (λ p. attempt name again p.1 ≡ (ok none, p.1))
        (sym (attempt_raised name user_id e e1 w w1 x present healthy failed))
        (attempt_unhealthy name again (mark_unhealthy after.0 name) after.1 marked)

  or_cluster-remote :
      (name : String) (found : Option (Option I)) (e e' : Engine W I) (w : W) (node : ClusterNode)
      (s : Engine W I × W)
      → Same e e'
      → or_cluster name found (e', w) ≡ (ok (remote node), s)
      → ask_cluster e name ≡ some node
  unfolding ask_cluster
  or_cluster-remote name (some none) e e' w node s same h = cc
  or_cluster-remote name (some (some i)) e e' w node s same h = cc
  or_cluster-remote name none e e' w node s same h = ground (arith, same)

  -- A node that the chain falls back on is online in the cluster's registry, and offers the service.
  pub resolve_with_fallback-remote :
      (name : String) (user_id : Option String) (e : Engine W I) (w : W) (r : Registry)
      (node : ClusterNode) (s : Engine W I × W)
      → e.cluster_registry ≡ some r
      → IsConsistent r
      → resolve_with_fallback name user_id (e, w) ≡ (ok (remote node), s)
      → (is_online node.status ≡ true) × Offers r name node.node_id
  unfolding ask_cluster
  resolve_with_fallback-remote name user_id e w r node s linked c h =
      let chain =
        attempt_each-Settled (name ∷ get_or e.fallbacks name []) user_id e e w (Same-refl e) in
      let ended : continue (attempt_each (name ∷ get_or e.fallbacks name []) user_id (e, w))
            (or_cluster name)
          ≡ (ok (remote node), s) =
        sym (resolve_with_fallback-eq name user_id e w) ∙ h in
      let asked =
        or_cluster-remote name chain.answer e chain.after chain.world node s chain.same (
          subst (λ p. continue p (or_cluster name) ≡ (ok (remote node), s)) chain.returned ended) in
      let (up, registered, offers) = resolve_sound r name node c (ground (arith, asked)) in
      (up, offers)
