-- ===== src/Routing/Tests.antt =====
-- Concrete runs of the service of src/service/routingService.cpp.
use hc_tcp_im_server.Common.{◌≡◌, refl, true, none, some, [], ◌∷◌, String}
use hc_tcp_im_server.Common.Dict.{Dict, find, put, erase, text_key}
use hc_tcp_im_server.Routing.{
  RouteStore, RoutingService, make_route_key, live_client, bind_user_route, lookup_user_route,
  lookup_user_route-cached,
}

-- A client whose state is its keys, and which is always connected.
abbrev pub keys : RouteStore (Dict String String)
keys = record {
  is_connected = λ r. true;
  set_ex = λ r k v ttl. (put k v r, true);
  del = λ r k. (erase k r, true);
  get = λ r k. elim (find k r) [ none ↦ "" | some v ↦ v ];
}

abbrev node_a : RoutingService (Dict String String)
node_a = record {
  redis_client = some (("route:ann", "node-b") ∷ []);
  route_ttl_seconds = 30;
  local_routes = [];
}

ann_on_b : (lookup_user_route keys node_a "ann").1 ≡ some "node-b"
unfolding lookup_user_route live_client make_route_key find
ann_on_b = refl

-- Ann has moved to node-c, and this node still sends to node-b.
lookup_user_route-cached_example :
    ((lookup_user_route keys
        (record (bind_user_route keys node_a "ann" "node-b").0 {
          redis_client = some (("route:ann", "node-c") ∷ []);
        })
        "ann").1
      ≡ some "node-b")
    × ((lookup_user_route keys node_a "ann").1 ≡ some "node-b"
        → (lookup_user_route keys
            (record (lookup_user_route keys node_a "ann").0 {
              redis_client = some (("route:ann", "node-c") ∷ []);
            })
            "ann").1
          ≡ some "node-b")
lookup_user_route-cached_example =
    lookup_user_route-cached keys node_a "ann" "node-b" (some (("route:ann", "node-c") ∷ []))
