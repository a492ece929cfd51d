-- ===== src/Ksyun/Cloud.antt =====
-- Package ksyun (pkg/ksyun/ksyun.go) as the cloud of the controller: over a service that keeps a list
-- of entries it keeps a table of routes.
use mathlib.Core.List.{map-append}
use vpc_route_controller.Common.{
  String, Bool, true, none, some, List, [], ◌∷◌, ◌++◌, ◌≡◌, refl, sym, ap, ◌∙◌, ◌==◌, contains,
  message, done, ok, Error,
}
use vpc_route_controller.Route.State.{Route}
use vpc_route_controller.Route.Calls.{cached_route, same_route}
use vpc_route_controller.Route.Table.{KeepsTable, specific, without_first}
use vpc_route_controller.Ksyun.Types.{Config, Services, RouteSetType}
use vpc_route_controller.Ksyun.Call.{Client, Session}
use vpc_route_controller.Ksyun.Routes.{
  to_route, first_route, first_gateway, failed, list_vpc_routes, find_vpc_route, delete_vpc_route,
  create_vpc_route, ksyun_cloud,
}
use vpc_route_controller.Ksyun.Neutron.{new_route_client}
use vpc_route_controller.Ksyun.Vpc.{CanSend, KeepsEntries, entries_of}
use vpc_route_controller.Ksyun.Alarms.{raise_alarm_lem}
use vpc_route_controller.Ksyun.Serving.{
  new_route_client-Tagged, list_routes-Reads, get_routes-Reads,
  wait_for_all_route_entries_available-Reads, create_route-Creates, create_route_refused,
  delete_route-Deletes,
}
use vpc_route_controller.Ksyun.Entries.{
  routes_of, listed-specific, first_route-entries_of, find_entry-append, first_entry,
  entries_of-none, entries_of-some, without_first-none,
}
use vpc_route_controller.Ksyun.Methods.{
  failed_quotes, list_vpc_routes_from, find_vpc_route_from, delete_nothing_from,
  delete_vpc_route_from, create_vpc_route_from, create_refused_from,
}

module _ {W : Type 0} (env : Services W) (conf : Config) (trusted : Bool)
    (entries : W → List RouteSetType) (can : CanSend env conf entries)
    (keeps : KeepsEntries env conf trusted entries) where
  -- The table of the entries.
  abbrev pub table : W → List Route
  table w = routes_of (entries w)

  list_vpc_routes_lem :
      (w : W)
      → (v : W) × (list_vpc_routes env conf w ≡ (done (ok (specific (table w))), v))
        × (table v ≡ table w)
  list_vpc_routes_lem w =
      let (c, v, client, tagged, t) =
        new_route_client-Tagged env conf trusted entries can keeps w in
      let (s, answered, tag, t') =
        list_routes-Reads env conf trusted entries can keeps (record { client = c; world = v }) in
      (
        s.world,
        rw (← listed-specific (entries w), ← t)
            (list_vpc_routes_from env conf w v c s client (entries v) answered),
        ap routes_of (t' ∙ t),
      )

  find_entries :
      (cidr : String) (w : W)
      → (v : W) × (find_vpc_route env conf cidr w ≡ (done (ok (cached_route cidr (table w))), v))
        × (entries v ≡ entries w)
  find_entries cidr w =
      let (c, v, client, tagged, t) =
        new_route_client-Tagged env conf trusted entries can keeps w in
      let (s, answered, tag, t') =
        get_routes-Reads env conf trusted entries can keeps cidr
          (record { client = c; world = v }) in
      (
        s.world,
        rw (← first_route-entries_of cidr (entries w), ← t)
            (find_vpc_route_from env conf w v c s client cidr (entries_of cidr (entries v))
              answered),
        t' ∙ t,
      )

  deletes :
      (cidr : String) (w : W)
      → (v : W) × (delete_vpc_route env conf cidr w ≡ (done none, v))
        × (table v ≡ without_first cidr (table w))
  deletes cidr w =
      let (c, v, client, tagged, t) =
        new_route_client-Tagged env conf trusted entries can keeps w in
      let (u, found, t') = find_entries cidr v in
      by_entries c v client tagged t u t' found (entries_of cidr (entries w)) refl
    where
      by_entries :
          (c : Client) (v : W)
          → new_route_client env conf w ≡ (done (ok c), v)
          → c.product_tag == "trust" ≡ trusted
          → entries v ≡ entries w
          → (u : W) → entries u ≡ entries v
          → find_vpc_route env conf cidr v ≡ (done (ok (cached_route cidr (table v))), u)
          → (es : List RouteSetType) → entries_of cidr (entries w) ≡ es
          → (v : W) × (delete_vpc_route env conf cidr w ≡ (done none, v))
            × (table v ≡ without_first cidr (table w))
      by_entries c v client tagged t u t' found [] e =
          let missing : cached_route cidr (table w) ≡ none =
            sym (first_route-entries_of cidr (entries w)) ∙ ap first_route e in
          (
            u,
            delete_nothing_from env conf w v c (record { client = c; world = v }) client cidr u
                (found ∙ rw (t, missing) refl),
            ap routes_of (t' ∙ t) ∙ sym (without_first-none cidr (table w) missing),
          )
      by_entries c v client tagged t u t' found (entry ∷ others) e =
          let here : cached_route cidr (table w) ≡ some (to_route entry) =
            sym (first_route-entries_of cidr (entries w)) ∙ ap first_route e in
          let (is_there, removed, same) =
            first_entry cidr (entries w) entry others (keeps.identified w) e in
          let (s, deleted, left) =
            delete_route-Deletes env conf trusted entries can keeps entry.route_id
              (record { client = c; world = u }) entry tagged (rw (t', t) is_there) in
          (
            s.world,
            delete_vpc_route_from env conf w v c s client cidr (to_route entry) u
                (found ∙ rw (t, here) refl) deleted,
            ap routes_of left ∙ (rw (t', t) removed),
          )

  adds :
      (id cidr : String) (w : W)
      → cached_route cidr (table w) ≡ none
      → (v : W) × (route : Route) × (create_vpc_route env conf id cidr w ≡ (done none, v))
        × (table v ≡ table w ++ route ∷ [])
        × (route.destination_cidr ≡ cidr)
        × (route.instance_id ≡ id)
  adds id cidr w e =
      let (c, v, client, tagged, t) =
        new_route_client-Tagged env conf trusted entries can keeps w in
      let s : Session W = record { client = c; world = v } in
      let (entry, s1, created, tagged', named, new, to, via, added) =
        create_route-Creates env conf trusted entries can keeps id cidr s tagged
          (rw t (entries_of-none cidr (entries w) e)) in
      let (s2, waited, tag, t') =
        wait_for_all_route_entries_available-Reads env conf trusted entries can keeps entry.route_id
          s1 entry (rw added (find_entry-append (entries v) entry new)) named in
      (
        s2.world,
        to_route entry,
        create_vpc_route_from env conf w v c s2 client id cidr entry.route_id s1 created waited,
        ap routes_of (t' ∙ (added ∙ ap (λ es. es ++ entry ∷ []) t))
            ∙ map-append to_route (entries w) (entry ∷ []),
        to,
        ap first_gateway via,
      )

  refuses :
      (id cidr : String) (w : W) (route : Route)
      → cached_route cidr (table w) ≡ some route
      → (v : W) × (e : Error) × (create_vpc_route env conf id cidr w ≡ (done (some e), v))
        × (contains (message e) same_route ≡ true)
        × (table v ≡ table w)
  refuses id cidr w route e =
      let (c, v, client, tagged, t) =
        new_route_client-Tagged env conf trusted entries can keeps w in
      let (entry, others, first) = entries_of-some cidr (entries w) route e in
      let (x, s, refused, same, t') =
        create_route_refused env conf trusted entries can keeps id cidr
          (record { client = c; world = v }) entry others tagged (rw t first) in
      let (u, raised, t'') =
        raise_alarm_lem env conf trusted entries can keeps "CreateRoute" x s.world in
      (
        u,
        failed "createRoute" x,
        create_refused_from env conf w v c s client id cidr x u refused raised,
        failed_quotes "createRoute" x same_route same,
        ap routes_of (t'' ∙ (t' ∙ t)),
      )

  -- When the keys are there, requests can be made and signed, retry.Do ends with the first success
  -- or refusal, and the service of the VPC keeps a list of entries and takes alarms, the four
  -- operations of package ksyun keep a table of routes, which is what the controller relies on:
  -- they list the routes to one network, find the first route of a network, add one at the end or
  -- refuse it where there is one, and delete the first of a network.
  pub ksyun_cloud-KeepsTable : KeepsTable (ksyun_cloud env conf) table
  ksyun_cloud-KeepsTable = record {
    lists = list_vpc_routes_lem;
    finds = λ cidr w. let (v, found, t) = find_entries cidr w in (v, found, ap routes_of t);
    adds = adds;
    refuses = refuses;
    deletes = deletes;
  }
