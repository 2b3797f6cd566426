-- ===== src/Cluster/Registry.antt =====
-- packages/evoid-cluster/evoid_cluster/registry.py: the class `ServiceRegistry`.
-- A node is held by value, under its id; a Python set is the list of its elements.
pub mod ServiceMap
pub mod Consistency
pub mod Resolve
pub mod Balance
use Prim.Native.Char.{code}
use Prim.Native.String.{◌++◌ as concat}
use evoid_plugins.Prelude.{
  ℕ, suc, ◌+◌, ◌%◌, String, Bool, true, false, not, ◌&&◌, Option, none, some, List, [], ◌∷◌, ◌++◌,
  map, string_eq, ◌==◌, if◌then◌else◌, nat_beq, length, get_elem?, keep_if, contains,
}
use evoid_plugins.Py.Dict.{Dict, get, get_or, has_key, put, remove, values}
use evoid_plugins.Cluster.Node.{ClusterNode, NodeStatus, is_online}

abbrev pub ServiceMap : Type 0
ServiceMap = Dict String (List String)

pub record Registry : Type 0 where
  pub nodes : Dict String ClusterNode
  pub service_map : ServiceMap
  pub rr_index : Dict String ℕ

abbrev pub empty : Registry
empty = record { nodes = []; service_map = []; rr_index = [] }

-- `if svc not in m: m[svc] = []`
unfoldable pub open_service : ServiceMap → String → ServiceMap
open_service m svc = if has_key m svc then m else put m svc []

-- `open_service`, then `if node_id not in m[svc]: m[svc].append(node_id)`
unfoldable pub add_service : String → ServiceMap → String → ServiceMap
add_service node_id m svc =
    let opened = open_service m svc in
    let ids = get_or opened svc [] in
    if contains ids node_id then opened else put opened svc (ids ++ node_id ∷ [])

-- `m[svc] = ids`, then `if not m[svc]: del m[svc]`
pub store_ids : ServiceMap → String → List String → ServiceMap
store_ids m svc [] = remove m svc
store_ids m svc (i ∷ is) = put m svc (i ∷ is)

-- the body of the loops that take a node out of a service
pub drop_service : String → ServiceMap → String → ServiceMap
drop_service node_id m svc =
    if has_key m svc
    then store_ids m svc (keep_if (λ nid. not (nid == node_id)) (get_or m svc []))
    else m

-- the `for` loops over services
unfoldable pub add_services : String → List String → ServiceMap → ServiceMap
add_services node_id [] m = m
add_services node_id (svc ∷ rest) m = add_services node_id rest (add_service node_id m svc)

pub drop_services : String → List String → ServiceMap → ServiceMap
drop_services node_id [] m = m
drop_services node_id (svc ∷ rest) m = drop_services node_id rest (drop_service node_id m svc)

unfoldable pub register_node : Registry → ClusterNode → Registry
register_node r node = record r {
  nodes = put r.nodes node.node_id node;
  service_map = add_services node.node_id node.services r.service_map;
}

unfoldable pub unregister_node : Registry → String → Registry
unregister_node r node_id = elim (get r.nodes node_id) [
  | none ↦ r
  | some node ↦ record r {
    nodes = remove r.nodes node_id;
    service_map = drop_services node_id node.services r.service_map;
  }
]

-- `a - b` of the sets made of two lists
pub minus : List String → List String → List String
minus a b = keep_if (λ s. not (contains b s)) a

unfoldable pub update_services : Registry → String → List String → Registry
update_services r node_id services = elim (get r.nodes node_id) [
  | none ↦ r
  | some node ↦
      let dropped = drop_services node_id (minus node.services services) r.service_map in
      record r {
        nodes = put r.nodes node_id (record node { services = services });
        service_map = add_services node_id (minus services node.services) dropped;
      }
]

unfoldable pub is_healthy : Registry → String → Bool
is_healthy r node_id = elim (get r.nodes node_id) [
  | none ↦ false
  | some node ↦ is_online node.status
]

-- the first healthy node of a list of ids
unfoldable pub find_healthy : Registry → List String → Option ClusterNode
find_healthy r [] = none
find_healthy r (nid ∷ rest) = if is_healthy r nid then get r.nodes nid else find_healthy r rest

-- `name.split(":")[0]`
unfoldable pub before_colon : String → String
before_colon String.[] = ""
before_colon (String.◌∷◌ c s) = if nat_beq (code c) b':' then "" else String.◌∷◌ c (before_colon s)

unfoldable pub wildcard : String → String
unfolding before_colon
wildcard intent_name = concat (before_colon intent_name) ":*"

abbrev pub ids_of : Registry → String → List String
ids_of r pattern = get_or r.service_map pattern []

unfoldable pub resolve : Registry → String → Option ClusterNode
resolve r intent_name = elim (find_healthy r (ids_of r intent_name)) [
  | some node ↦ some node
  | none ↦ find_healthy r (ids_of r (wildcard intent_name))
]

-- the ids under the name, or, where there is none, under the wildcard
unfoldable pub candidates : Registry → String → List String
candidates r intent_name = elim (ids_of r intent_name) [
  | [] ↦ ids_of r (wildcard intent_name)
  | i ∷ is ↦ i ∷ is
]

abbrev pub healthy_ids : Registry → String → List String
healthy_ids r intent_name = keep_if (is_healthy r) (candidates r intent_name)

-- `healthy[idx]`, whose index is in range
unfoldable pub pick : Registry → List String → ℕ → Option ClusterNode
pick r healthy idx = elim (get_elem? healthy idx) [ none ↦ none | some nid ↦ get r.nodes nid ]

unfoldable pub resolve_load_balanced : Registry → String → Option ClusterNode × Registry
unfolding pick
resolve_load_balanced r intent_name = elim (healthy_ids r intent_name) [
  | [] ↦ (none, r)
  | i ∷ is ↦
      let healthy = i ∷ is in
      let idx = get_or r.rr_index intent_name 0 % length healthy in
      (pick r healthy idx, record r { rr_index = put r.rr_index intent_name (idx + 1) })
]

-- `[nodes[nid] for nid in node_ids if is_healthy(nid)]`: a healthy id has a node.
unfoldable pub healthy_nodes : Registry → List String → List ClusterNode
healthy_nodes r [] = []
healthy_nodes r (nid ∷ rest) = elim (get r.nodes nid) [
  | none ↦ healthy_nodes r rest
  | some node ↦ if is_online node.status then node ∷ healthy_nodes r rest else healthy_nodes r rest
]

unfoldable pub resolve_all : Registry → String → List ClusterNode
unfolding healthy_nodes
resolve_all r intent_name = healthy_nodes r (candidates r intent_name)

-- `node.status = status` on the registered node, if there is one
unfoldable pub set_status : Registry → String → NodeStatus → Registry
set_status r node_id status = elim (get r.nodes node_id) [
  | none ↦ r
  | some node ↦ record r { nodes = put r.nodes node_id (record node { status = status }) }
]

unfoldable pub mark_node_offline : Registry → String → Registry
unfolding set_status
mark_node_offline r node_id = set_status r node_id NodeStatus.offline

unfoldable pub mark_node_online : Registry → String → Registry
unfolding set_status
mark_node_online r node_id = set_status r node_id NodeStatus.online

abbrev pub get_node : Registry → String → Option ClusterNode
get_node r node_id = get r.nodes node_id

abbrev pub get_all_nodes : Registry → List ClusterNode
get_all_nodes r = values r.nodes

abbrev pub get_all_services : Registry → ServiceMap
get_all_services r = r.service_map

unfoldable pub get_nodes_by_role : Registry → String → List ClusterNode
get_nodes_by_role r role = keep_if (λ node. contains node.roles role) (values r.nodes)

unfoldable pub is_local : Registry → String → String → Bool
is_local r intent_name local_node_id = elim (resolve r intent_name) [
  | none ↦ false
  | some node ↦ node.node_id == local_node_id
]
