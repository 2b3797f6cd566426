-- ===== src/Cluster/Registry/Consistency.antt =====
-- The registry's two views, the nodes' own services and the map from services to ids, agree.
use evoid_plugins.Prelude.{
  ◌≡◌, refl, Bool, false, ◌&&◌, ◌||◌, none, some, List, String, arith, string_eq, ◌==◌, ==_iff,
  contains, contains-keep_if, not, Option-cases, inl, inr,
}
use evoid_plugins.Py.Dict.{get}
use evoid_plugins.Py.Dict.Laws.{get-put, get-remove}
use evoid_plugins.Cluster.Node.{ClusterNode, NodeStatus}
use evoid_plugins.Cluster.Registry.{
  Registry, empty, register_node, unregister_node, update_services, set_status, mark_node_offline,
  mark_node_online, minus, drop_services,
}
use evoid_plugins.Cluster.Registry.ServiceMap.{lists, lists-add_services, lists-drop_services}

-- The node registered under the id offers the service.
abbrev pub serves : Registry → String → String → Bool
serves r svc nid = elim (get r.nodes nid) [ none ↦ false | some node ↦ contains node.services svc ]

-- The map lists exactly the nodes that offer a service, and a node stands under its own id.
pub record IsConsistent (r : Registry) : Type 0 where
  pub exact : (svc nid : String) → lists r.service_map svc nid ≡ serves r svc nid
  pub keyed : (nid : String) (node : ClusterNode) → get r.nodes nid ≡ some node → node.node_id ≡ nid

-- After `register_node` the map lists what the nodes offer, and in addition, under the id of the
-- node, all that a node registered before under that id had offered.
pub lists-register_node :
    (r : Registry) (node : ClusterNode) (svc nid : String)
    → IsConsistent r
    → lists (register_node r node).service_map svc nid
      ≡ (serves (register_node r node) svc nid || (node.node_id == nid && serves r svc nid))
unfolding register_node
lists-register_node r node svc nid c = ground (
  arith,
  lists-add_services node.node_id node.services r.service_map svc nid,
  get-put r.nodes node.node_id nid node,
  c.exact svc nid,
)

pub register_node-IsConsistent :
    (r : Registry) (node : ClusterNode)
    → get r.nodes node.node_id ≡ none
    → IsConsistent r
    → IsConsistent (register_node r node)
register_node-IsConsistent r node fresh c = record {
  exact = λ svc nid. ground (
    arith,
    lists-register_node r node svc nid c,
    get-put r.nodes node.node_id nid node,
    ==_iff node.node_id nid,
  );
  keyed =
      unfold register_node in
      λ nid n h.
        ground
          (arith, get-put r.nodes node.node_id nid node, ==_iff node.node_id nid, c.keyed nid n);
}

pub unregister_node-IsConsistent :
    (r : Registry) (k : String) → IsConsistent r → IsConsistent (unregister_node r k)
unfolding unregister_node
unregister_node-IsConsistent r k c = record {
  exact = λ svc nid. elim (Option-cases (get r.nodes k)) [
    | inl absent ↦ ground (arith, c.exact svc nid)
    | inr (node, found) ↦ ground (
      arith,
      lists-drop_services k node.services r.service_map svc nid,
      get-remove r.nodes k nid,
      ==_iff k nid,
      c.exact svc nid,
    )
  ];
  keyed = λ nid n h. ground (arith, get-remove r.nodes k nid, c.keyed nid n);
}

pub update_services-IsConsistent :
    (r : Registry) (k : String) (services : List String)
    → IsConsistent r
    → IsConsistent (update_services r k services)
unfolding update_services minus
update_services-IsConsistent r k services c = record {
  exact = λ svc nid. elim (Option-cases (get r.nodes k)) [
    | inl absent ↦ ground (arith, c.exact svc nid)
    | inr (node, found) ↦
        let gone = minus node.services services in
        let dropped = drop_services k gone r.service_map in
        ground (
          arith,
          lists-add_services k (minus services node.services) dropped svc nid,
          lists-drop_services k gone r.service_map svc nid,
          contains-keep_if (λ s. not (contains services s)) node.services svc,
          contains-keep_if (λ s. not (contains node.services s)) services svc,
          get-put r.nodes k nid (record node { services = services }),
          ==_iff k nid,
          c.exact svc nid,
        )
  ];
  keyed = λ nid n h. elim (Option-cases (get r.nodes k)) [
    | inl absent ↦ ground (arith, c.keyed nid n)
    | inr (node, found) ↦ ground (
      arith,
      get-put r.nodes k nid (record node { services = services }),
      ==_iff k nid,
      c.keyed nid n,
      c.keyed k node,
    )
  ];
}

pub set_status-IsConsistent :
    (r : Registry) (k : String) (status : NodeStatus)
    → IsConsistent r
    → IsConsistent (set_status r k status)
unfolding set_status
set_status-IsConsistent r k status c = record {
  exact = λ svc nid. elim (Option-cases (get r.nodes k)) [
    | inl absent ↦ ground (arith, c.exact svc nid)
    | inr (node, found) ↦ ground (
      arith,
      get-put r.nodes k nid (record node { status = status }),
      ==_iff k nid,
      c.exact svc nid,
    )
  ];
  keyed = λ nid n h. elim (Option-cases (get r.nodes k)) [
    | inl absent ↦ ground (arith, c.keyed nid n)
    | inr (node, found) ↦ ground (
      arith,
      get-put r.nodes k nid (record node { status = status }),
      ==_iff k nid,
      c.keyed nid n,
      c.keyed k node,
    )
  ];
}

-- The operations that change which nodes there are, what they offer and whether they are healthy.
-- A node joins under an id that is not taken.
pub data Change : Registry → Registry → Type 0 where
  join :
      (r : Registry) (node : ClusterNode)
      → get r.nodes node.node_id ≡ none
      → Change r (register_node r node)
  leave : (r : Registry) (k : String) → Change r (unregister_node r k)
  announce :
      (r : Registry) (k : String) (services : List String) → Change r (update_services r k services)
  fail : (r : Registry) (k : String) → Change r (mark_node_offline r k)
  recover : (r : Registry) (k : String) → Change r (mark_node_online r k)

pub data Reach (r : Registry) : Registry → Type 0 where
  here : Reach r r
  next : {s t : Registry} → Reach r s → Change s t → Reach r t

Change-IsConsistent : {r s : Registry} → Change r s → IsConsistent r → IsConsistent s
unfolding mark_node_offline mark_node_online
Change-IsConsistent (join r node fresh) c = register_node-IsConsistent r node fresh c
Change-IsConsistent (leave r k) c = unregister_node-IsConsistent r k c
Change-IsConsistent (announce r k services) c = update_services-IsConsistent r k services c
Change-IsConsistent (fail r k) c = set_status-IsConsistent r k NodeStatus.offline c
Change-IsConsistent (recover r k) c = set_status-IsConsistent r k NodeStatus.online c

-- Whatever sequence of joins (under free ids), leaves, announcements, failures and recoveries has
-- run from a consistent registry, the registry is consistent.
pub Reach-IsConsistent : {r s : Registry} → IsConsistent r → Reach r s → IsConsistent s
Reach-IsConsistent c here = c
Reach-IsConsistent c (next steps step) = Change-IsConsistent step (Reach-IsConsistent c steps)

pub empty-IsConsistent : IsConsistent empty
unfolding get contains
empty-IsConsistent = record { exact = λ svc nid. refl; keyed = λ nid node h. cc }
