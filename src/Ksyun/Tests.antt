-- ===== src/Ksyun/Tests.antt =====
-- The clients of the cloud before a server that gives every request the same answer.
pub mod Texts
pub mod Service
pub mod Kept
use vpc_route_controller.Common.{
  panicked, insert, lookup, Option, some, Error, done, ◌⊎◌, ℕ, suc, ◌≡◌, refl, String, false, none,
  List, [], ◌∷◌, ok, Returns, arith, nat_eq, if◌then◌else◌,
}
use vpc_route_controller.Http.Kop.{insert_all, set_signer, set_header, Transport}
use vpc_route_controller.Http.Send.{set_values, base_request, go, send}
use vpc_route_controller.Ksyun.Types.{Config, Services, Codec, Aksk, RouteSetType}
use vpc_route_controller.Ksyun.Call.{
  Session, Request, call, reload, put_token, set_up, go_client, go_renewing,
}
use vpc_route_controller.Ksyun.Neutron.{
  describe_routes, timeout, get_route, wait_rounds, wait_for_all_route_entries_available,
}
use vpc_route_controller.Ksyun.Nova.{new_client}
use vpc_route_controller.Ksyun.Routes.{default_destination}
use vpc_route_controller.Ksyun.Waiting.{
  wait_for_all_route_entries_available-Ends, wait_for_all_route_entries_available-Waited, found,
  slept, wait_panics_on_empty,
}
use vpc_route_controller.Ksyun.Tokens.{reload_sends_old_headers}

abbrev transport : Transport ℕ
transport = record {
  parse_scheme = λ s. ok "http";
  request_error = λ method url. none;
  canonical_key = λ key. key;
  encode = λ query. "q";
  sign = λ keys service region request w. (done (ok request), w);
  send_request =
      λ insecure request w. (done (ok (record { status_code = 200; body = ok "{}" })), suc w);
  random_string = λ w. (done "abc", w);
  retry_do = λ b p m w. m w;
}

abbrev entry : String → RouteSetType
entry cidr = record {
  route_id = "r-1";
  vpc_id = "vpc-1";
  route_type = "Host";
  destination_cidr = cidr;
  next_hopset = "i-1" ∷ [];
}

abbrev codec : Codec
codec = record {
  read_vpcs = λ s. ok [];
  read_route_id = λ s. ok "r-1";
  read_route_set = λ s. ok (entry "10.0.1.0/24" ∷ []);
  read_instances = λ s. ok [];
  route_args_json = λ a. "{}";
  alarm_args_json = λ a. "{}";
  show_route_args = λ a. "args";
  show_instance_args = λ a. "args";
  show_alarm_args = λ a. "args";
}

abbrev old_keys : Aksk
old_keys = record { ak = "a"; sk = "s"; security_token = "old" }

abbrev new_keys : Aksk
new_keys = record { ak = "b"; sk = "t"; security_token = "new" }

abbrev env : Services ℕ
env = record {
  get_aksk = λ w. (done (ok old_keys), w);
  reload_aksk = λ w. (done (ok new_keys), suc w);
  sleep = suc;
  codec = codec;
  transport = transport;
  kop_endpoint = "http://api";
  alarm_ak = "a";
  alarm_sk = "s";
}

abbrev conf : Config
conf = record {
  network_endpoint = "";
  cluster_uuid = "c-1";
  vpc_id = "vpc-1";
  region = "cn-1";
  alarm_enabled = false;
}

abbrev request : Request
request = record {
  service = "vpc";
  headers = λ h. h;
  body = none;
  method = "GET";
  query = [];
  what = "get route r-1";
}

-- A client that was set up for the request with the old keys.
abbrev session : Session ℕ
session = record { client = set_up env conf request old_keys (new_client "http://api"); world = 0 }

lookups_return : Returns (get_route env conf "r-1")
unfolding get_route describe_routes call set_up go_renewing go_client go send
lookups_return s = (_, _, refl)

wait_for_all_route_entries_available-Ends_example :
    (a : Option Error) × (s : Session ℕ) × (wait_for_all_route_entries_available env conf "r-1" 0
        session
      ≡ (done a, s))
    × ((a ≡ none) ⊎ (a ≡ some timeout))
wait_for_all_route_entries_available-Ends_example =
    wait_for_all_route_entries_available-Ends env conf "r-1" lookups_return 0 session

-- A server that has no id for the route at the first lookup.
abbrev slow_env : Services ℕ
slow_env = record env {
  codec = record codec {
    read_route_set = λ s. ok (record (entry "10.0.1.0/24") { route_id = s } ∷ []);
  };
  transport = record transport {
    send_request = λ insecure request w. (
      done (ok (record { status_code = 200; body = ok (if nat_eq w 0 then "" else "r-1") })),
      suc w,
    );
  };
}

first_lookup :
    (v : Session ℕ) × (get_route slow_env conf "r-1" session
      ≡ (done (ok (record (entry "10.0.1.0/24") { route_id = "" })), v))
unfolding get_route describe_routes call set_up go_renewing go_client go send
first_lookup = (_, refl)

abbrev rested : Session ℕ
rested = record first_lookup.0 { world = suc first_lookup.0.world }

second_lookup :
    (v : Session ℕ) × (get_route slow_env conf "r-1" rested ≡ (done (ok (entry "10.0.1.0/24")), v))
unfolding get_route describe_routes call set_up go_renewing go_client go send first_lookup
second_lookup = (_, refl)

wait_for_all_route_entries_available-Waited_example :
    wait_for_all_route_entries_available slow_env conf "r-1" 0 session
    ≡ (done none, second_lookup.0)
wait_for_all_route_entries_available-Waited_example =
    wait_for_all_route_entries_available-Waited slow_env conf "r-1" 0 session second_lookup.0 none (
      slept first_lookup.1 refl (omega arith) (
        found {left = 55} {s = rested} {s' = second_lookup.0} (entry "10.0.1.0/24") second_lookup.1
          refl))

reload_sends_old_headers_example :
    let (_, s') = reload env conf request session in
    let second = set_signer "vpc" "cn-1" "b" "t" session.client.kop in
    (s'.world ≡ (go transport second 1).1)
    × (second.headers ≡ session.client.kop.headers)
    × (s'.client.kop.headers ≡ session.client.kop.headers)
    × (s'.client.headers ≡ put_token new_keys session.client.headers)
reload_sends_old_headers_example = reload_sends_old_headers env conf request session 1 new_keys refl

abbrev entries : List RouteSetType
entries = entry default_destination ∷ entry "10.0.1.0/24" ∷ []

-- The same server, where it answers with an empty list.
abbrev empty_env : Services ℕ
empty_env = record env { codec = record codec { read_route_set = λ s. ok [] } }

wait_panics_on_empty_example :
    wait_for_all_route_entries_available empty_env conf "r-1" 60 session ≡ (
      panicked,
      (describe_routes empty_env conf "get route r-1" (("RouteId.1", "r-1") ∷ []) session).1,
    )
unfolding describe_routes call set_up go_renewing go_client go send insert insert_all lookup
    set_values set_header base_request
wait_panics_on_empty_example =
    wait_panics_on_empty empty_env conf "r-1" 60 session
      (describe_routes empty_env conf "get route r-1" (("RouteId.1", "r-1") ∷ []) session).1 refl
