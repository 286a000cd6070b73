-- ===== src/Routing.antt =====
-- src/service/routingService.cpp: on which node a user is. The Redis client that a build with
-- USE_REDIS has is the parameter, and a build without it has none.
pub mod Tests
use Prim.Native.String.{◌++◌ as str_append}
use hc_tcp_im_server.Common.{
  ℕ, ◌≡◌, refl, inl, inr, Bool, true, false, Option, none, some, List, [], ◌∷◌, String, arith,
  str_eq, if◌then◌else◌, Option-cases, Bool-cases,
}
use hc_tcp_im_server.Common.Dict.{
  Key, Dict, find, put, erase, text_key, find-put_self, find-erase, same_refl,
}

-- The operations of the client that the service calls; a missing key reads as the empty text.
pub record RouteStore (R : Type 0) : Type 0 where
  pub is_connected : R → Bool
  pub set_ex : R → String → String → ℕ → R × Bool
  pub del : R → String → R × Bool
  pub get : R → String → String

pub record RoutingService (R : Type 0) : Type 0 where
  pub redis_client : Option R
  pub route_ttl_seconds : ℕ
  pub local_routes : Dict String String

unfoldable pub make_route_key : String → String
make_route_key user = str_append "route:" user

unfoldable pub set_redis_client : {R : Type 0} → RoutingService R → Option R → RoutingService R
set_redis_client s client = record s { redis_client = client }

unfoldable pub set_route_ttl_seconds : {R : Type 0} → RoutingService R → ℕ → RoutingService R
set_route_ttl_seconds s ttl = record s { route_ttl_seconds = ttl }

module _ {R : Type 0} (redis : RouteStore R) where
  -- The client, if it is connected.
  unfoldable pub live_client : RoutingService R → Option R
  live_client s = elim s.redis_client [
    | none ↦ none
    | some r ↦ if redis.is_connected r then some r else none
  ]

  unfoldable pub bind_user_route : RoutingService R → String → String → RoutingService R × Bool
  bind_user_route s user node =
      let t : RoutingService R = record s { local_routes = put user node s.local_routes } in
      elim (live_client s) [
        | none ↦ (t, true)
        | some r ↦
            let q = redis.set_ex r (make_route_key user) node s.route_ttl_seconds in
            (record t { redis_client = some q.0 }, q.1)
      ]

  unfoldable pub unbind_user_route : RoutingService R → String → RoutingService R × Bool
  unbind_user_route s user =
      let t : RoutingService R = record s { local_routes = erase user s.local_routes } in
      elim (live_client s) [
        | none ↦ (t, true)
        | some r ↦
            let q = redis.del r (make_route_key user) in (record t { redis_client = some q.0 }, q.1)
      ]

  unfoldable pub lookup_user_route : RoutingService R → String → RoutingService R × Option String
  lookup_user_route s user = elim (find user s.local_routes) [
    | some node ↦ (s, some node)
    | none ↦ elim (live_client s) [
      | none ↦ (s, none)
      | some r ↦
          let route = redis.get r (make_route_key user) in
          if str_eq route ""
          then (s, none)
          else (record s { local_routes = put user route s.local_routes }, some route)
    ]
  ]

  lookup-local :
      (s : RoutingService R) (user node : String)
      → find user s.local_routes ≡ some node
      → (lookup_user_route s user).1 ≡ some node
  unfolding lookup_user_route
  lookup-local s user node e = rw (lookup_user_route, e) refl

  lookup-kept :
      (s : RoutingService R) (user node : String)
      → (lookup_user_route s user).1 ≡ some node
      → find user (lookup_user_route s user).0.local_routes ≡ some node
  unfolding lookup_user_route
  lookup-kept s user node e = elim (Option-cases (live_client s)) [
    | inl n ↦ ground (arith, n, e)
    | inr (r, n) ↦
        ground (arith, n, e, find-put_self user (redis.get r (make_route_key user)) s.local_routes)
  ]

  bind-local :
      (s : RoutingService R) (user node : String)
      → find user (bind_user_route s user node).0.local_routes ≡ some node
  unfolding bind_user_route
  bind-local s user node = ground (arith, find-put_self user node s.local_routes)

  -- Once a node has bound a user, or a lookup has found one, lookups there give the same node,
  -- whatever another node has written to Redis since, and whether or not the client is connected.
  pub lookup_user_route-cached :
      (s : RoutingService R) (user node : String) (later : Option R)
      → ((lookup_user_route
            (record (bind_user_route s user node).0 { redis_client = later })
            user).1
          ≡ some node)
        × ((lookup_user_route s user).1 ≡ some node
            → (lookup_user_route
                (record (lookup_user_route s user).0 { redis_client = later })
                user).1
              ≡ some node)
  lookup_user_route-cached s user node later = (
    lookup-local (record (bind_user_route s user node).0 { redis_client = later }) user node
        (bind-local s user node),
    λ e.
        lookup-local (record (lookup_user_route s user).0 { redis_client = later }) user node
          (lookup-kept s user node e),
  )
