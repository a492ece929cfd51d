-- ===== src/Ksyun/Tests/Service.antt =====
-- A service that keeps entries, for the tests: it reads the query off the URL of a request and acts on
-- it, and answers with texts that the codec reads back.
use vpc_route_controller.Common.{
  ℕ, String, true, none, some, List, [], ◌∷◌, ◌++◌, ◌≡◌, refl, ap, ◌∙◌, ◌==◌, if◌then◌else◌, Dict,
  map, get_elem?, ok, done,
}
use vpc_route_controller.Http.Kop.{HttpResponse, Transport}
use vpc_route_controller.Route.Calls.{same_route}
use vpc_route_controller.Ksyun.Types.{Config, Services, RouteSetType}
use vpc_route_controller.Ksyun.Tests.Texts.{before, read, read-write_all, texts_of, encode, after}

-- The routes of the service: a network and the gateway of each. The id of one is its network.
abbrev pub entry : String × String → RouteSetType
entry (cidr, gateway) = record {
  route_id = before "r" cidr;
  vpc_id = "vpc-1";
  route_type = "Host";
  destination_cidr = cidr;
  next_hopset = gateway ∷ [];
}

abbrev pub entries : Dict String → List RouteSetType
entries w = map entry w

abbrev read_entries : List String → List RouteSetType
read_entries (cidr ∷ gateway ∷ texts) = entry (cidr, gateway) ∷ read_entries texts
read_entries _ = []

pub read_entries-texts_of : (w : Dict String) → read_entries (read (encode w)) ≡ entries w
read_entries-texts_of w = ap read_entries (read-write_all (texts_of w)) ∙ from_texts w
  where
    from_texts : (w : Dict String) → read_entries (texts_of w) ≡ entries w
    from_texts [] = refl
    from_texts ((cidr, gateway) ∷ w) = ap (λ es. entry (cidr, gateway) ∷ es) (from_texts w)

unfoldable pub of_network : String → Dict String → Dict String
of_network cidr [] = []
of_network cidr ((own, gateway) ∷ w) =
    let rest = of_network cidr w in if own == cidr then (own, gateway) ∷ rest else rest

unfoldable pub with_id : String → Dict String → Dict String
with_id id [] = []
with_id id ((own, gateway) ∷ w) = if before "r" own == id then (own, gateway) ∷ [] else with_id id w

unfoldable pub without_id : String → Dict String → Dict String
without_id id [] = []
without_id id ((own, gateway) ∷ w) =
    if before "r" own == id then w else (own, gateway) ∷ without_id id w

abbrev nth : ℕ → List String → String
nth i texts = elim (get_elem? texts i) [ none ↦ "" | some s ↦ s ]

abbrev pub answer : String → Dict String → HttpResponse × Dict String
answer bytes w = (record { status_code = 200; body = ok bytes }, w)

abbrev pub create : String → String → Dict String → Dict String → HttpResponse × Dict String
create id cidr [] w = answer (before "r" cidr) (w ++ (cidr, id) ∷ [])
create id cidr (other ∷ others) w = (record { status_code = 409; body = ok same_route }, w)

-- The texts of a query: the action, the version and the arguments.
unfoldable pub serve : List String → Dict String → HttpResponse × Dict String
unfolding of_network with_id without_id
serve (a ∷ action ∷ v ∷ version ∷ args) w =
    if action == "DescribeVpcs"
    then answer "" w
    else if action == "CreateRoute"
    then create (nth 5 args) (nth 7 args) (of_network (nth 7 args) w) w
    else if action == "DeleteRoute"
    then answer "" (without_id (nth 1 args) w)
    else if action == "AlarmReceptor"
    then answer "" w
    else if nth 0 args == "RouteId.1"
    then answer (encode (with_id (nth 1 args) w)) w
    else if nth 8 args == "Filter.3.Name"
    then answer (encode (of_network (nth 11 args) w)) w
    else answer (encode w) w
serve _ w = answer "" w

abbrev pub endpoint : String
endpoint = "http://api"

abbrev pub query_texts : String → List String
query_texts url = read (after "?" (after endpoint url))

abbrev service_transport : Transport (Dict String)
service_transport = record {
  parse_scheme = λ s. ok "http";
  request_error = λ method url. none;
  canonical_key = λ key. key;
  encode = encode;
  sign = λ keys service region request w. (done (ok request), w);
  send_request = λ insecure request w.
      let (response, v) = serve (query_texts request.url) w in (done (ok response), v);
  random_string = λ w. (done "abc", w);
  retry_do = λ b p m w. m w;
}

abbrev pub service : Services (Dict String)
service = record {
  get_aksk = λ w. (done (ok (record { ak = "a"; sk = "s"; security_token = "" })), w);
  reload_aksk = λ w. (done (ok (record { ak = "a"; sk = "s"; security_token = "" })), w);
  sleep = λ w. w;
  codec = record {
    read_vpcs = λ s.
        ok (record { vpc_id = "vpc-1"; vpc_name = "v"; cidr_block = ""; product_tag = "" } ∷ []);
    read_route_id = λ s. ok s;
    read_route_set = λ s. ok (read_entries (read s));
    read_instances = λ s. ok [];
    route_args_json = λ a. "{}";
    alarm_args_json = λ a. "{}";
    show_route_args = λ a. "args";
    show_instance_args = λ a. "args";
    show_alarm_args = λ a. "args";
  };
  transport = service_transport;
  kop_endpoint = endpoint;
  alarm_ak = "a";
  alarm_sk = "s";
}

abbrev pub conf : Config
conf = record {
  network_endpoint = endpoint;
  cluster_uuid = "c-1";
  vpc_id = "vpc-1";
  region = "cn-1";
  alarm_enabled = true;
}
