-- ===== src/Ksyun/Types.antt =====
-- The data of pkg/ksyun/openstack_client/types and config, and the code that its clients are handed.
use vpc_route_controller.Common.{String, Bool, List, Action, Result}
use vpc_route_controller.Http.Kop.{Transport}

-- `config.Config`, as far as it is read here.
pub record Config : Type 0 where
  pub network_endpoint : String
  pub cluster_uuid : String
  pub vpc_id : String
  pub region : String
  pub alarm_enabled : Bool

abbrev pub default_network_endpoint : String
default_network_endpoint = "http://internal.api.ksyun.com"

-- `types.Vpc`
pub record Vpc : Type 0 where
  pub vpc_id : String
  pub vpc_name : String
  pub cidr_block : String
  pub product_tag : String

-- `types.RouteSetType`; of a `NextHop` the gateway.
pub record RouteSetType : Type 0 where
  pub route_id : String
  pub vpc_id : String
  pub route_type : String
  pub destination_cidr : String
  pub next_hopset : List String

-- `types.RouteArgs`
pub record RouteArgs : Type 0 where
  pub domain_id : String
  pub instance_id : String
  pub instance_type : String
  pub cidr_block : String

-- `types.InstanceArgs`
pub record InstanceArgs : Type 0 where
  pub domain_id : String
  pub instance_id : String
  pub instance_type : String
  pub instance_private_ip : String

-- `types.Instance`
pub record Instance : Type 0 where
  pub id : String
  pub name : String

-- `types.AlarmArgs`
pub record AlarmArgs : Type 0 where
  pub name : String
  pub product : String
  pub priority : String
  pub content : String
  pub no_deal : String

-- The keys of an `AKSKProvider`.
pub record Aksk : Type 0 where
  pub ak : String
  pub sk : String
  pub security_token : String

-- What `json.Unmarshal` reads from the answers, `json.Marshal` makes of the bodies, and `%v` prints
-- of the arguments.
pub record Codec : Type 0 where
  pub read_vpcs : String → Result (List Vpc)
  pub read_route_id : String → Result String
  pub read_route_set : String → Result (List RouteSetType)
  pub read_instances : String → Result (List Instance)
  pub route_args_json : RouteArgs → String
  pub alarm_args_json : AlarmArgs → String
  pub show_route_args : RouteArgs → String
  pub show_instance_args : InstanceArgs → String
  pub show_alarm_args : AlarmArgs → String

-- The `AKSKProvider` of the configuration, the clock, the codec, the transport, the endpoint of
-- package http, and the keys that are linked in for alarms.
pub record Services (W : Type 0) : Type 0 where
  pub get_aksk : Action W (Result Aksk)
  pub reload_aksk : Action W (Result Aksk)
  pub sleep : W → W
  pub codec : Codec
  pub transport : Transport W
  pub kop_endpoint : String
  pub alarm_ak : String
  pub alarm_sk : String
