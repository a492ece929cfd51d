-- ===== src/Ksyun/Neutron.antt =====
-- `RouteClient` (pkg/ksyun/openstack_client/neutron/route.go).
use vpc_route_controller.Common.{
  ℕ, zero, suc, ◌-◌, String, Bool, false, not, Option, none, some, List, [], ◌∷◌, ◌==◌, leb, nat_eq,
  if◌then◌else◌, concat, Dict, insert, Action, done, Result, ok, err, Error, plain, message, pure,
  panic, ◌>>=◌,
}
use vpc_route_controller.Http.Kop.{new_kop_client, get, post, delete}
use vpc_route_controller.Ksyun.Types.{Config, Services, Vpc, RouteSetType, RouteArgs}
use vpc_route_controller.Ksyun.Call.{Client, Session, Request, call, with_client}

abbrev default_version : String
default_version = "2016-03-04"

abbrev default_server_name : String
default_server_name = "vpc"

abbrev pub default_timeout : ℕ
default_timeout = 60

abbrev pub default_wait_for_interval : ℕ
default_wait_for_interval = 5

abbrev no_change : Dict String → Dict String
no_change h = h

abbrev is_trust : Client → Bool
is_trust c = c.product_tag == "trust"

abbrev trust_source : Client → Dict String → Dict String
trust_source c h = if is_trust c then insert "X-ProductTag-Source" "trust" h else h

-- `json unmarshal %s err: %v`
abbrev unmarshal_error : String → Error → Error
unmarshal_error bytes e = plain (concat ("json unmarshal " ∷ bytes ∷ " err: " ∷ message e ∷ []))

-- The clients as `NewRouteClient` makes them, before the tag is known.
abbrev pub fresh_client : String → Client
fresh_client endpoint = record {
  headers =
      ("User-Agent", "vpc-route-controller")
      ∷ ("Content-Type", "application/json")
      ∷ ("Accept", "application/json")
      ∷ ("X-ProductTag-Source", "all")
      ∷ [];
  kop = new_kop_client endpoint;
  product_tag = "";
}

abbrev first_vpc : String → List Vpc → Result Vpc
first_vpc id [] = err (plain (concat ("can not found vpc " ∷ id ∷ [])))
first_vpc id (vpc ∷ vpcs) = ok vpc

module _ {W : Type 0} (env : Services W) (conf : Config) where
  abbrev pub vpc_request : Request
  vpc_request = record {
    service = default_server_name;
    headers = no_change;
    body = none;
    method = get;
    query =
        ("Action", "DescribeVpcs") ∷ ("Version", default_version) ∷ ("VpcId.1", conf.vpc_id) ∷ [];
    what = concat ("describe vpc " ∷ conf.vpc_id ∷ []);
  }

  -- `DescribeVpcs`
  unfoldable pub describe_vpcs : Action (Session W) (Result Vpc)
  describe_vpcs = do
    answer ← call env conf vpc_request
    elim answer [
      | err e ↦ pure (err e)
      | ok bytes ↦ elim (env.codec.read_vpcs bytes) [
        | err e ↦ pure (err e)
        | ok vpcs ↦ pure (first_vpc conf.vpc_id vpcs)
      ]
    ]

  abbrev tagged : Session W → Vpc → Client
  tagged s vpc = record s.client { product_tag = vpc.product_tag }

  -- `NewRouteClient`
  unfoldable pub new_route_client : Action W (Result Client)
  new_route_client = with_client (fresh_client env.kop_endpoint) (do
    described ← describe_vpcs
    elim described [ err e ↦ pure (err e) | ok vpc ↦ λ s. (done (ok (tagged s vpc)), s) ])

  abbrev pub create_request : RouteArgs → Client → Request
  create_request args c = record {
    service = default_server_name;
    headers = trust_source c;
    body = some (env.codec.route_args_json args);
    method = post;
    query =
        ("Action", if is_trust c then "CreateTrustRoute" else "CreateRoute")
        ∷ ("Version", default_version)
        ∷ ("VpcId", args.domain_id)
        ∷ ("RouteType", args.instance_type)
        ∷ ("InstanceId", args.instance_id)
        ∷ ("DestinationCidrBlock", args.cidr_block)
        ∷ [];
    what = concat ("create route " ∷ env.codec.show_route_args args ∷ []);
  }

  -- `CreateRoute`
  unfoldable pub create_route : RouteArgs → Action (Session W) (Result String)
  create_route args s =
      (do
        answer ← call env conf (create_request args s.client)
        elim answer [ err e ↦ pure (err e) | ok bytes ↦ pure (env.codec.read_route_id bytes) ])
        s

  abbrev pub delete_request : String → Client → Request
  delete_request id c = record {
    service = default_server_name;
    headers = trust_source c;
    body = none;
    method = delete;
    query =
        ("Action", if is_trust c then "DeleteTrustRoute" else "DeleteRoute")
        ∷ ("Version", default_version)
        ∷ ("RouteId", id)
        ∷ [];
    what = concat ("delete route " ∷ id ∷ []);
  }

  -- `DeleteRoute`
  unfoldable pub delete_route : String → Action (Session W) (Option Error)
  delete_route id s =
      (do
        answer ← call env conf (delete_request id s.client)
        elim answer [ err e ↦ pure (some e) | ok bytes ↦ pure none ])
        s

  abbrev pub routes_request : String → Dict String → Request
  routes_request what filters = record {
    service = default_server_name;
    headers = no_change;
    body = none;
    method = get;
    query = ("Action", "DescribeRoutes") ∷ ("Version", default_version) ∷ filters;
    what = what;
  }

  -- `DescribeRoutes` with the filters, as `ListRoutes`, `GetRoutes` and `GetRoute` send it.
  unfoldable pub describe_routes :
      String → Dict String → Action (Session W) (Result (List RouteSetType))
  describe_routes what filters = do
    answer ← call env conf (routes_request what filters)
    elim answer [
      | err e ↦ pure (err e)
      | ok bytes ↦ elim (env.codec.read_route_set bytes) [
        | err e ↦ pure (err (unmarshal_error bytes e))
        | ok routes ↦ pure (ok routes)
      ]
    ]

  -- `ListRoutes`
  unfoldable pub list_routes : RouteArgs → Action (Session W) (Result (List RouteSetType))
  list_routes args =
      describe_routes (concat ("list routes " ∷ env.codec.show_route_args args ∷ [])) (
        ("Filter.1.Name", "vpc-id")
        ∷ ("Filter.1.Value.1", args.domain_id)
        ∷ ("Filter.2.Name", "route-type")
        ∷ ("Filter.2.Value.1", args.instance_type)
        ∷ [])

  -- `GetRoutes`
  unfoldable pub get_routes : RouteArgs → Action (Session W) (Result (List RouteSetType))
  get_routes args = describe_routes (concat ("get routes " ∷ env.codec.show_route_args args ∷ [])) (
      ("Filter.1.Name", "vpc-id")
      ∷ ("Filter.1.Value.1", args.domain_id)
      ∷ ("Filter.2.Name", "route-type")
      ∷ ("Filter.2.Value.1", args.instance_type)
      ∷ ("Filter.3.Name", "destination-cidr-block")
      ∷ ("Filter.3.Value.1", args.cidr_block)
      ∷ [])

  -- `GetRoute`: the first of the answer, and a panic at an empty one.
  unfoldable pub get_route : String → Action (Session W) (Result RouteSetType)
  get_route id = do
    answer ← describe_routes (concat ("get route " ∷ id ∷ [])) (("RouteId.1", id) ∷ [])
    elim answer [ err e ↦ pure (err e) | ok [] ↦ panic | ok (route ∷ routes) ↦ pure (ok route) ]

-- `utils.GetClientErrorFromString("Timeout", "")`
abbrev pub timeout : Error
timeout =
    plain
      "Ksyun API Error: RequestId:  Status Code: -1 Type: vpcRouteControllerFailure Message: Timeout Detail: "

-- `!(err != nil || len(route.RouteId) == 0)`
abbrev pub is_available : Result RouteSetType → Bool
is_available (err e) = false
is_available (ok route) = not (route.route_id == "")

module _ {W : Type 0} (env : Services W) (conf : Config) where
  -- A round of `WaitForAllRouteEntriesAvailable` after its lookup, with what the later rounds do.
  abbrev pub after_lookup :
      ℕ
      → (ℕ → Action (Session W) (Option Error))
      → Result RouteSetType
      → Action (Session W) (Option Error)
  after_lookup left rest got s =
      if is_available got
      then (done none, s)
      else if leb left default_wait_for_interval
      then (done (some timeout), s)
      else rest (left - default_wait_for_interval) (record s { world = env.sleep s.world })

  -- The loop, for so many rounds; to run out of them is a panic.
  unfoldable pub wait_rounds : ℕ → String → ℕ → Action (Session W) (Option Error)
  wait_rounds zero id left = panic
  wait_rounds (suc n) id left = do
    got ← get_route env conf id
    after_lookup left (wait_rounds n id) got

  unfoldable pub seconds : ℕ → ℕ
  seconds given = if nat_eq given 0 then default_timeout else given

  -- `WaitForAllRouteEntriesAvailable`. A timeout below zero counts as zero does.
  unfoldable pub wait_for_all_route_entries_available :
      String → ℕ → Action (Session W) (Option Error)
  unfolding wait_rounds seconds
  wait_for_all_route_entries_available id given = wait_rounds (seconds given) id (seconds given)
