-- ===== src/Ksyun/Vpc.antt =====
-- What package ksyun relies on in the service of the VPC that answers its requests
-- (pkg/ksyun/openstack_client/neutron), and in the libraries below its client: the service keeps a
-- list of entries.
use vpc_route_controller.Common.{
  ℕ, String, Bool, true, false, Option, none, some, List, [], ◌∷◌, ◌++◌, ◌≡◌, ◌==◌, if◌then◌else◌,
  concat, contains, message, Dict, done, ok, kop,
}
use vpc_route_controller.Http.Kop.{Keys, HttpRequest, HttpResponse, get, post, delete}
use vpc_route_controller.Http.Send.{is_success}
use vpc_route_controller.Http.Retry.{EndsAtOnce}
use vpc_route_controller.Route.Calls.{same_route}
use vpc_route_controller.Ksyun.Types.{Config, Services, Vpc, RouteSetType, Aksk}
use vpc_route_controller.Ksyun.Call.{endpoint_of, token_expired}

-- The entry with an id.
unfoldable pub find_entry : String → List RouteSetType → Option RouteSetType
find_entry id [] = none
find_entry id (entry ∷ entries) = if entry.route_id == id then some entry else find_entry id entries

-- The entries of a network.
unfoldable pub entries_of : String → List RouteSetType → List RouteSetType
entries_of cidr [] = []
entries_of cidr (entry ∷ entries) =
    let rest = entries_of cidr entries in
    if entry.destination_cidr == cidr then entry ∷ rest else rest

-- Removes the entry with an id.
unfoldable pub without_entry : String → List RouteSetType → List RouteSetType
without_entry id [] = []
without_entry id (entry ∷ entries) =
    if entry.route_id == id then entries else entry ∷ without_entry id entries

-- Entries of one id are of one network.
unfoldable pub Identified : List RouteSetType → Type 0
Identified [] = Unit
Identified (entry ∷ entries) =
    ((other : RouteSetType)
      → find_entry entry.route_id entries ≡ some other
      → other.destination_cidr ≡ entry.destination_cidr)
    × Identified entries

abbrev version : String × String
version = ("Version", "2016-03-04")

-- The query strings of the service: its VPC, the routes to hosts, those of a network, a route by its
-- id, and how one is made and taken away, in a VPC of tag `trust` and in others.
abbrev pub vpc_query : String → Dict String
vpc_query vpc = ("Action", "DescribeVpcs") ∷ version ∷ ("VpcId.1", vpc) ∷ []

abbrev pub hosts_query : String → Dict String → Dict String
hosts_query vpc more =
    ("Action", "DescribeRoutes")
    ∷ version
    ∷ ("Filter.1.Name", "vpc-id")
    ∷ ("Filter.1.Value.1", vpc)
    ∷ ("Filter.2.Name", "route-type")
    ∷ ("Filter.2.Value.1", "Host")
    ∷ more

abbrev pub network_filter : String → Dict String
network_filter cidr = ("Filter.3.Name", "destination-cidr-block") ∷ ("Filter.3.Value.1", cidr) ∷ []

abbrev pub route_query : String → Dict String
route_query id = ("Action", "DescribeRoutes") ∷ version ∷ ("RouteId.1", id) ∷ []

abbrev pub create_query : Bool → String → String → String → Dict String
create_query trusted vpc id cidr =
    ("Action", if trusted then "CreateTrustRoute" else "CreateRoute")
    ∷ version
    ∷ ("VpcId", vpc)
    ∷ ("RouteType", "Host")
    ∷ ("InstanceId", id)
    ∷ ("DestinationCidrBlock", cidr)
    ∷ []

abbrev pub delete_query : Bool → String → Dict String
delete_query trusted id =
    ("Action", if trusted then "DeleteTrustRoute" else "DeleteRoute")
    ∷ version
    ∷ ("RouteId", id)
    ∷ []

abbrev pub alarm_query : Dict String
alarm_query = ("Action", "AlarmReceptor") ∷ ("Version", "2019-01-30") ∷ []

module _ {W : Type 0} (env : Services W) (conf : Config) where
  abbrev pub url_of : Dict String → String
  url_of query = concat (endpoint_of conf ∷ "?" ∷ env.transport.encode query ∷ [])

  -- The server answers a request of that method and query, and what is told of its response and of the
  -- world after it holds.
  abbrev pub Responds : String → Dict String → W → (HttpResponse → W → Type 0) → Type 0
  Responds method query w P =
      (insecure : Bool) (request : HttpRequest)
      → request.method ≡ method
      → request.url ≡ url_of query
      → (response : HttpResponse) × (v : W) × (env.transport.send_request insecure request w
          ≡ (done (ok response), v))
        × P response v

  -- The response is a success, with a body of which that holds, as of the world after it.
  abbrev pub Succeeds : (String → W → Type 0) → HttpResponse → W → Type 0
  Succeeds P response v =
      (bytes : String) × (is_success env.transport response.status_code ≡ true)
      × (response.body ≡ ok bytes)
      × P bytes v

  -- The response has another status, and is not about an expired token.
  abbrev pub Refuses : (ℕ → String → W → Type 0) → HttpResponse → W → Type 0
  Refuses P response v =
      (bytes : String) × (is_success env.transport response.status_code ≡ false)
      × (response.body ≡ ok bytes)
      × (contains (message (kop response.status_code bytes)) token_expired ≡ false)
      × P response.status_code bytes v

  -- The keys are there, requests can be made and signed, and `retry.Do` ends at once where it may.
  pub record CanSend (entries : W → List RouteSetType) : Type 0 where
    pub keys :
        (w : W)
        → (aksk : Aksk) × (v : W) × (env.get_aksk w ≡ (done (ok aksk), v)) × (entries v ≡ entries w)
    pub letters :
        (w : W)
        → (drawn : String) × (v : W) × (env.transport.random_string w ≡ (done drawn, v))
          × (entries v ≡ entries w)
    pub makes : (method url : String) → env.transport.request_error method url ≡ none
    pub signs :
        (keys : Keys) (service region : String) (request : HttpRequest) (w : W)
        → (signed : HttpRequest) × (v : W) × (env.transport.sign keys service region request w
            ≡ (done (ok signed), v))
          × (signed.method ≡ request.method)
          × (signed.url ≡ request.url)
          × (entries v ≡ entries w)
    pub ends : EndsAtOnce env.transport

  module _ (trusted : Bool) (entries : W → List RouteSetType) where
    -- What the bodies of the answers are read as, for the entries before and the world after.
    abbrev pub TellsTag : List RouteSetType → String → W → Type 0
    TellsTag before bytes v =
        (vpc : Vpc) × (vpcs : List Vpc) × (env.codec.read_vpcs bytes ≡ ok (vpc ∷ vpcs))
        × (vpc.product_tag == "trust" ≡ trusted)
        × (entries v ≡ before)

    abbrev pub Tells : List RouteSetType → List RouteSetType → String → W → Type 0
    Tells found before bytes v = (env.codec.read_route_set bytes ≡ ok found) × (entries v ≡ before)

    -- An entry of a new id for the instance, at the end.
    abbrev pub Creates : String → String → List RouteSetType → String → W → Type 0
    Creates id cidr before bytes v =
        (entry : RouteSetType) × (env.codec.read_route_id bytes ≡ ok entry.route_id)
        × (entry.route_id == "" ≡ false)
        × (find_entry entry.route_id before ≡ none)
        × (entry.destination_cidr ≡ cidr)
        × (entry.next_hopset ≡ id ∷ [])
        × (entries v ≡ before ++ entry ∷ [])

    abbrev pub IsSame : List RouteSetType → ℕ → String → W → Type 0
    IsSame before code bytes v = (contains bytes same_route ≡ true) × (entries v ≡ before)

    abbrev pub Deletes : String → List RouteSetType → String → W → Type 0
    Deletes id before bytes v = entries v ≡ without_entry id before

    -- The service of the VPC over a list of entries, and that of alarms beside it.
    pub record KeepsEntries : Type 0 where
      pub identified : (w : W) → Identified (entries w)
      pub vpc : (w : W) → Responds get (vpc_query conf.vpc_id) w (Succeeds (TellsTag (entries w)))
      pub lists :
          (w : W)
          → Responds get (hosts_query conf.vpc_id []) w (Succeeds (Tells (entries w) (entries w)))
      pub filters :
          (cidr : String) (w : W)
          → Responds get
              (hosts_query conf.vpc_id (network_filter cidr))
              w
              (Succeeds (Tells (entries_of cidr (entries w)) (entries w)))
      pub describes :
          (id : String) (w : W) (entry : RouteSetType)
          → find_entry id (entries w) ≡ some entry
          → Responds get (route_query id) w (Succeeds (Tells (entry ∷ []) (entries w)))
      pub creates :
          (id cidr : String) (w : W)
          → entries_of cidr (entries w) ≡ []
          → Responds post
              (create_query trusted conf.vpc_id id cidr)
              w
              (Succeeds (Creates id cidr (entries w)))
      pub refuses :
          (id cidr : String) (w : W) (entry : RouteSetType) (others : List RouteSetType)
          → entries_of cidr (entries w) ≡ entry ∷ others
          → Responds post
              (create_query trusted conf.vpc_id id cidr)
              w
              (Refuses (IsSame (entries w)))
      pub alarms :
          (w : W) → Responds post alarm_query w (Succeeds (λ bytes v. entries v ≡ entries w))
      pub deletes :
          (id : String) (w : W) (entry : RouteSetType)
          → find_entry id (entries w) ≡ some entry
          → Responds delete (delete_query trusted id) w (Succeeds (Deletes id (entries w)))
