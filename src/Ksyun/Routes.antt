-- ===== src/Ksyun/Routes.antt =====
-- Package ksyun (pkg/ksyun/ksyun.go): the routes of the VPC, one fresh client for each call. Logs are
-- left out.
use vpc_route_controller.Common.{
  String, Option, none, some, List, [], ◌∷◌, ◌==◌, if◌then◌else◌, concat, Action, Result, ok, err,
  Error, plain, message, pure, when, ◌>>=◌, ◌>>◌,
}
use vpc_route_controller.Route.State.{Route, Cloud}
use vpc_route_controller.Ksyun.Types.{
  Config, Services, RouteSetType, RouteArgs, InstanceArgs, AlarmArgs,
}
use vpc_route_controller.Ksyun.Call.{Session, with_client}
use vpc_route_controller.Ksyun.Neutron.{
  new_route_client, create_route, delete_route, list_routes, get_routes,
  wait_for_all_route_entries_available,
}
use vpc_route_controller.Ksyun.Nova.{new_client, describe_instances, create_alarm}

abbrev pub default_route_type : String
default_route_type = "Host"

abbrev pub default_destination : String
default_destination = "0.0.0.0/0"

abbrev pub first_gateway : List String → String
first_gateway [] = ""
first_gateway (gateway ∷ gateways) = gateway

-- The `model.Route` of an entry.
abbrev pub to_route : RouteSetType → Route
to_route r = record {
  name = concat (r.route_id ∷ "-" ∷ r.destination_cidr ∷ []);
  destination_cidr = r.destination_cidr;
  instance_id = first_gateway r.next_hopset;
  route_id = r.route_id;
}

-- The loop of `ListRoutes`.
unfoldable pub listed : List RouteSetType → List Route
listed [] = []
listed (r ∷ rs) =
    let rest = listed rs in
    if r.destination_cidr == default_destination then rest else to_route r ∷ rest

abbrev pub first_route : List RouteSetType → Option Route
first_route [] = none
first_route (r ∷ rs) = some (to_route r)

-- `fmt.Errorf("Error what: %s . \n", getErrorString(err))`
abbrev pub failed : String → Error → Error
failed what e = plain (concat ("Error " ∷ what ∷ ": " ∷ message e ∷ " . \n" ∷ []))

module _ {W : Type 0} (env : Services W) (cfg : Config) where
  abbrev pub alarm_args : String → Error → AlarmArgs
  alarm_args name e = record {
    name = name;
    product = "CONTAINER_NETWORK";
    priority = "2";
    content = concat (
        "region: "
        ∷ cfg.region
        ∷ ", cluster: "
        ∷ cfg.cluster_uuid
        ∷ ", plugin: vpc-route-controller,  error: "
        ∷ message e
        ∷ []);
    no_deal = "1";
  }

  -- The alarm about a failed operation, whose own error is dropped.
  abbrev pub raise_alarm : String → Error → Action W (Unit {0})
  raise_alarm name e = when cfg.alarm_enabled (do
    with_client (new_client env.kop_endpoint) (create_alarm env cfg (alarm_args name e))
    pure tt)

  abbrev route_args : String → String → RouteArgs
  route_args instance_id cidr = record {
    domain_id = cfg.vpc_id;
    instance_id = instance_id;
    instance_type = default_route_type;
    cidr_block = cidr;
  }

  abbrev instance_args : String → InstanceArgs
  instance_args private_ip = record {
    domain_id = cfg.vpc_id;
    instance_id = "";
    instance_type = default_route_type;
    instance_private_ip = private_ip;
  }

  -- `GetInstanceIdFromIP`
  unfoldable pub get_instance_id_from_ip : String → Action W (Result String)
  get_instance_id_from_ip private_ip = do
    got ←
        with_client (new_client env.kop_endpoint)
          (describe_instances env cfg (instance_args private_ip))
    elim got [
      | err e ↦ do raise_alarm "GetInstanceIdFromIP" e; pure (err e)
      | ok found ↦ pure (ok found.id)
    ]

  -- `ListRoutes`
  unfoldable pub list_vpc_routes : Action W (Result (List Route))
  unfolding listed
  list_vpc_routes = do
    client ← new_route_client env cfg
    elim client [
      | err e ↦ pure (err e)
      | ok c ↦ do
        got ← with_client c (list_routes env cfg (route_args "" ""))
        elim got [
          | err e ↦ do raise_alarm "ListRoutes" e; pure (err e)
          | ok routes ↦ pure (ok (listed routes))
        ]
    ]

  -- `FindRoute`
  unfoldable pub find_vpc_route : String → Action W (Result (Option Route))
  find_vpc_route cidr = do
    client ← new_route_client env cfg
    elim client [
      | err e ↦ pure (err e)
      | ok c ↦ do
        got ← with_client c (get_routes env cfg (route_args "" cidr))
        elim got [
          | err e ↦ do raise_alarm "FindRoute" e; pure (err e)
          | ok routes ↦ pure (ok (first_route routes))
        ]
    ]

  -- `DeleteRoute`
  unfoldable pub delete_vpc_route : String → Action W (Option Error)
  delete_vpc_route cidr = do
    client ← new_route_client env cfg
    elim client [
      | err e ↦ pure (some e)
      | ok c ↦ do
        found ← find_vpc_route cidr
        elim found [
          | err e ↦ pure (some e)
          | ok none ↦ pure none
          | ok (some route) ↦ do
            failure ← with_client c (delete_route env cfg route.route_id)
            elim failure [
              | none ↦ pure none
              | some e ↦ do raise_alarm "DeleteRoute" e; pure (some (failed "deleteRoute" e))
            ]
        ]
    ]

  -- What `CreateRoute` does once its client has made the route, on that client.
  abbrev await_route : String → Action (Session W) (Option Error)
  await_route id = do
    failure ← wait_for_all_route_entries_available env cfg id 60
    elim failure [ none ↦ pure none | some e ↦ pure (some (failed "not found Route" e)) ]

  abbrev on_session : Action W (Unit {0}) → Action (Session W) (Unit {0})
  on_session m s = let (a, w) = m s.world in (a, record s { world = w })

  -- `CreateRoute`
  unfoldable pub create_vpc_route : String → String → Action W (Option Error)
  create_vpc_route instance_id cidr = do
    client ← new_route_client env cfg
    elim client [
      | err e ↦ pure (some e)
      | ok c ↦ with_client c (do
        made ← create_route env cfg (route_args instance_id cidr)
        elim made [
          | err e ↦ do
            on_session (raise_alarm "CreateRoute" e)
            pure (some (failed "createRoute" e))
          | ok id ↦ await_route id
        ])
    ]

  -- What the controller is handed.
  abbrev pub ksyun_cloud : Cloud W
  ksyun_cloud = record {
    list_routes = list_vpc_routes;
    find_route = find_vpc_route;
    create_route = create_vpc_route;
    delete_route = delete_vpc_route;
  }
