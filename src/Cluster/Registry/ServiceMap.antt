-- ===== src/Cluster/Registry/ServiceMap.antt =====
-- What the loops of registry.py do to the map from services to node ids.
use evoid_plugins.Prelude.{
  ◌≡◌, Bool, not, ◌&&◌, ◌||◌, List, [], ◌∷◌, ◌++◌, String, arith, string_eq, ◌==◌, ==_iff, ==_sym,
  if◌then◌else◌, contains, contains-append, contains-singleton, contains-keep_if, keep_if,
}
use evoid_plugins.Py.Dict.{get_or}
use evoid_plugins.Py.Dict.Laws.{get-put, get-remove, has_key-eq}
use evoid_plugins.Cluster.Registry.{
  ServiceMap, open_service, add_service, store_ids, drop_service, add_services, drop_services,
}

-- The map lists the node under the service.
abbrev pub lists : ServiceMap → String → String → Bool
lists m svc nid = contains (get_or m svc []) nid

get_or-open_service :
    (m : ServiceMap) (svc s : String) → get_or (open_service m svc) s [] ≡ get_or m s []
unfolding open_service
get_or-open_service m svc s = ground (arith, get-put m svc s [], ==_iff svc s, has_key-eq m svc)

pub lists-add_service :
    (n : String) (m : ServiceMap) (svc s nid : String)
    → lists (add_service n m svc) s nid ≡ (lists m s nid || (svc == s && n == nid))
unfolding add_service
lists-add_service n m svc s nid =
    let ids = get_or (open_service m svc) svc [] in
    ground (
      arith,
      get-put (open_service m svc) svc s (ids ++ n ∷ []),
      ==_iff svc s,
      ==_iff n nid,
      get_or-open_service m svc s,
      get_or-open_service m svc svc,
      contains-append ids (n ∷ []) nid,
      contains-singleton n nid,
    )

get_or-store_ids :
    (m : ServiceMap) (svc s : String) (ids : List String)
    → get_or (store_ids m svc ids) s [] ≡ (if svc == s then ids else get_or m s [])
unfolding store_ids
get_or-store_ids m svc s [] = ground (arith, get-remove m svc s)
get_or-store_ids m svc s (i ∷ is) = ground (arith, get-put m svc s (i ∷ is))

pub lists-drop_service :
    (n : String) (m : ServiceMap) (svc s nid : String)
    → lists (drop_service n m svc) s nid ≡ (lists m s nid && not (svc == s && n == nid))
unfolding drop_service contains
lists-drop_service n m svc s nid =
    let others = λ (x : String). not (x == n) in
    let ids = get_or m svc [] in
    ground (
      arith,
      get_or-store_ids m svc s (keep_if others ids),
      contains-keep_if others ids nid,
      ==_iff svc s,
      ==_iff n nid,
      ==_sym n nid,
      has_key-eq m svc,
    )

pub lists-add_services :
    (n : String) (svcs : List String) (m : ServiceMap) (s nid : String)
    → lists (add_services n svcs m) s nid ≡ (lists m s nid || (contains svcs s && n == nid))
unfolding add_services contains
lists-add_services n [] m s nid = ground arith
lists-add_services n (svc ∷ rest) m s nid =
    ground (
      arith,
      lists-add_services n rest (add_service n m svc) s nid,
      lists-add_service n m svc s nid,
    )

pub lists-drop_services :
    (n : String) (svcs : List String) (m : ServiceMap) (s nid : String)
    → lists (drop_services n svcs m) s nid ≡ (lists m s nid && not (contains svcs s && n == nid))
unfolding drop_services contains
lists-drop_services n [] m s nid = ground arith
lists-drop_services n (svc ∷ rest) m s nid = ground (
  arith,
  lists-drop_services n rest (drop_service n m svc) s nid,
  lists-drop_service n m svc s nid,
)
