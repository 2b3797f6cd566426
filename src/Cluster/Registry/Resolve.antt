-- ===== src/Cluster/Registry/Resolve.antt =====
-- What `resolve`, `resolve_all` and `is_local` answer, over a consistent registry.
use evoid_plugins.Prelude.{
  ◌≡◌, ◌≢◌, ◌⊎◌, true, false, none, some, List, [], ◌∷◌, String, arith, string_eq, ==_iff, contains,
  Option-cases, Bool-cases, inl, inr,
}
use evoid_plugins.Py.Dict.{get}
use evoid_plugins.Py.Dict.Laws.{get-put}
use evoid_plugins.Cluster.Node.{ClusterNode, NodeStatus, is_online}
use evoid_plugins.Cluster.Registry.{
  Registry, is_healthy, find_healthy, ids_of, resolve, wildcard, set_status, mark_node_offline,
}
use evoid_plugins.Cluster.Registry.Consistency.{IsConsistent, serves, set_status-IsConsistent}

-- A node found in a list of ids: it is registered under one of them and online.
record IsFound (r : Registry) (ids : List String) (node : ClusterNode) : Type 0 where
  nid : String
  listed : contains ids nid ≡ true
  registered : get r.nodes nid ≡ some node
  online : is_online node.status ≡ true

find_healthy-IsFound :
    (r : Registry) (ids : List String) (node : ClusterNode)
    → find_healthy r ids ≡ some node
    → IsFound r ids node
unfolding find_healthy is_healthy contains
find_healthy-IsFound r [] node h = record { nid = ""; listed = cc; registered = cc; online = cc }
find_healthy-IsFound r (i ∷ is) node h = elim (Bool-cases (is_healthy r i)) [
  | inl up ↦ record {
    nid = i;
    listed = ground (arith, ==_iff i i);
    registered = ground arith;
    online = ground arith;
  }
  | inr down ↦
      let rest = find_healthy-IsFound r is node (ground arith) in
      record {
        nid = rest.nid;
        listed = ground (arith, rest.listed);
        registered = rest.registered;
        online = rest.online;
      }
]

find_healthy-eq-none :
    (r : Registry) (ids : List String) (nid : String)
    → find_healthy r ids ≡ none
    → contains ids nid ≡ true
    → is_healthy r nid ≡ false
unfolding find_healthy is_healthy contains
find_healthy-eq-none r [] nid h m = cc
find_healthy-eq-none r (i ∷ is) nid h m =
    ground (arith, find_healthy-eq-none r is nid, ==_iff i nid)

-- The node offers the service, or its whole family `prefix:*`.
abbrev pub Offers : Registry → String → String → Type 0
Offers r intent_name nid =
    (serves r intent_name nid ≡ true) ⊎ (serves r (wildcard intent_name) nid ≡ true)

resolve-cases :
    (r : Registry) (name : String) (node : ClusterNode)
    → resolve r name ≡ some node
    → IsFound r (ids_of r name) node ⊎ IsFound r (ids_of r (wildcard name)) node
unfolding resolve
resolve-cases r name node h = elim (Option-cases (find_healthy r (ids_of r name))) [
  | inl nobody ↦ inr (find_healthy-IsFound r _ node (ground arith))
  | inr (found, e) ↦ inl (find_healthy-IsFound r _ node (ground arith))
]

-- Where the two views of the registry agree, a resolved node is online, registered under its own id,
-- and offers the service.
pub resolve_sound :
    (r : Registry) (name : String) (node : ClusterNode)
    → IsConsistent r
    → resolve r name ≡ some node
    → (is_online node.status ≡ true)
      × (get r.nodes node.node_id ≡ some node)
      × Offers r name node.node_id
resolve_sound r name node c h = elim (resolve-cases r name node h) [
  | inl f ↦
      let own = c.keyed f.nid node f.registered in
      (f.online, cc (own, f.registered), inl (ground (arith, own, c.exact name f.nid, f.listed)))
  | inr f ↦
      let own = c.keyed f.nid node f.registered in
      (
        f.online,
        cc (own, f.registered),
        inr (ground (arith, own, c.exact (wildcard name) f.nid, f.listed)),
      )
]

-- Where the two views of the registry agree, `resolve` finds nothing only if no node that offers the
-- service is online.
pub resolve_complete :
    (r : Registry) (name nid : String)
    → IsConsistent r
    → resolve r name ≡ none
    → Offers r name nid
    → is_healthy r nid ≡ false
unfolding resolve
resolve_complete r name nid c h (inl own) =
    ground (arith, find_healthy-eq-none r (ids_of r name) nid, c.exact name nid)
resolve_complete r name nid c h (inr family) =
    ground
      (arith, find_healthy-eq-none r (ids_of r (wildcard name)) nid, c.exact (wildcard name) nid)

-- Failover: a node that was marked offline is not resolved again.
pub resolve-mark_node_offline :
    (r : Registry) (k name : String) (node : ClusterNode)
    → IsConsistent r
    → resolve (mark_node_offline r k) name ≡ some node
    → node.node_id ≢ k
unfolding mark_node_offline set_status
resolve-mark_node_offline r k name node c h same =
    let (up, registered, offers) =
      resolve_sound (set_status r k NodeStatus.offline) name node
        (set_status-IsConsistent r k NodeStatus.offline c) h in
    elim (Option-cases (get r.nodes k)) [
      | inl absent ↦ ground arith
      | inr (old, found) ↦ ground (
        arith,
        get-put r.nodes k node.node_id (record old { status = NodeStatus.offline }),
        ==_iff k node.node_id,
      )
    ]
