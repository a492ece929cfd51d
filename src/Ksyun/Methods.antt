-- ===== src/Ksyun/Methods.antt =====
-- What the methods of package ksyun (pkg/ksyun/ksyun.go) end with, from what their calls of the service
-- clients end with.
use vpc_route_controller.Common.{
  String, true, none, some, List, ◌≡◌, refl, contains, contains-append_left, contains_middle,
  message, done, ok, err, Error,
}
use vpc_route_controller.Route.State.{Route}
use vpc_route_controller.Ksyun.Types.{Config, Services, RouteSetType}
use vpc_route_controller.Ksyun.Call.{Client, Session}
use vpc_route_controller.Ksyun.Routes.{
  listed, first_route, failed, list_vpc_routes, find_vpc_route, raise_alarm, delete_vpc_route,
  create_vpc_route,
}
use vpc_route_controller.Ksyun.Neutron.{
  new_route_client, list_routes, get_routes, create_route, delete_route,
  wait_for_all_route_entries_available,
}
use vpc_route_controller.Ksyun.Sending.{with_client-ends}
use vpc_route_controller.Ksyun.Serving.{host_args}

pub failed_quotes :
    (what : String) (e : Error) (t : String)
    → contains (message e) t ≡ true
    → contains (message (failed what e)) t ≡ true
unfolding message
failed_quotes what e t has =
    contains-append_left "Error " _ t
      (contains-append_left what _ t (contains_middle ": " (message e) " . \n" t has))

-- What a method of package ksyun ends with, from what its calls on its own client end with.
module _ {W : Type 0} (env : Services W) (conf : Config) (w v : W) (c : Client) (s : Session W)
    (client : new_route_client env conf w ≡ (done (ok c), v)) where
  pub list_vpc_routes_from :
      (rs : List RouteSetType)
      → list_routes env conf (host_args conf "" "") (record { client = c; world = v })
        ≡ (done (ok rs), s)
      → list_vpc_routes env conf w ≡ (done (ok (listed rs)), s.world)
  unfolding list_vpc_routes
  list_vpc_routes_from rs answered =
      rw (client, list_vpc_routes)
        (rw
          (
            with_client-ends c (list_routes env conf (host_args conf "" "")) v s (ok rs) answered,
            answered,
          )
          refl)

  pub find_vpc_route_from :
      (cidr : String) (rs : List RouteSetType)
      → get_routes env conf (host_args conf "" cidr) (record { client = c; world = v })
        ≡ (done (ok rs), s)
      → find_vpc_route env conf cidr w ≡ (done (ok (first_route rs)), s.world)
  unfolding find_vpc_route
  find_vpc_route_from cidr rs answered =
      rw (client, find_vpc_route)
        (rw
          (
            with_client-ends c (get_routes env conf (host_args conf "" cidr)) v s (ok rs) answered,
            answered,
          )
          refl)

  pub delete_nothing_from :
      (cidr : String) (u : W)
      → find_vpc_route env conf cidr v ≡ (done (ok none), u)
      → delete_vpc_route env conf cidr w ≡ (done none, u)
  unfolding delete_vpc_route
  delete_nothing_from cidr u found = rw (client, delete_vpc_route) (rw found refl)

  pub delete_vpc_route_from :
      (cidr : String) (route : Route) (u : W)
      → find_vpc_route env conf cidr v ≡ (done (ok (some route)), u)
      → delete_route env conf route.route_id (record { client = c; world = u }) ≡ (done none, s)
      → delete_vpc_route env conf cidr w ≡ (done none, s.world)
  unfolding delete_vpc_route
  delete_vpc_route_from cidr route u found deleted =
      rw (client, delete_vpc_route)
        (rw found (
          rw (with_client-ends c (delete_route env conf route.route_id) u s none deleted, deleted)
            refl))

  pub create_vpc_route_from :
      (id cidr made : String) (s' : Session W)
      → create_route env conf (host_args conf id cidr) (record { client = c; world = v })
        ≡ (done (ok made), s')
      → wait_for_all_route_entries_available env conf made 60 s' ≡ (done none, s)
      → create_vpc_route env conf id cidr w ≡ (done none, s.world)
  unfolding create_vpc_route
  create_vpc_route_from id cidr made s' created waited =
      rw (client, create_vpc_route) (rw created (rw waited refl))

  pub create_refused_from :
      (id cidr : String) (e : Error) (u : W)
      → create_route env conf (host_args conf id cidr) (record { client = c; world = v })
        ≡ (done (err e), s)
      → raise_alarm env conf "CreateRoute" e s.world ≡ (done tt, u)
      → create_vpc_route env conf id cidr w ≡ (done (some (failed "createRoute" e)), u)
  unfolding create_vpc_route
  create_refused_from id cidr e u refused raised =
      rw (client, create_vpc_route) (rw refused (rw raised refl))
