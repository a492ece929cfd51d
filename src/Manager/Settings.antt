-- ===== src/Manager/Settings.antt =====
-- The flags of the controller (pkg/config/controller_config.go, pkg/config/runtime_config.go). Durations
-- are nanoseconds; `QPS` is in tenths. Package pflag, which reads the arguments, is a parameter.
use vpc_route_controller.Common.{ℕ, ◌*◌, String, Bool, true, List, [], ◌∷◌, ltb, if◌then◌else◌}

-- `time.Duration`
pub data ℤ : Type 0 where
  pos : ℕ → ℤ
  negsuc : ℕ → ℤ

abbrev pub second : ℕ
second = 1000000000

abbrev pub minute : ℕ
minute = 60 * second

-- `d < n`
abbrev pub below : ℤ → ℕ → Bool
below (pos d) n = ltb d n
below (negsuc d) n = true

-- `RuntimeConfig`
pub record RuntimeConfig : Type 0 where
  pub metrics_bind_address : String
  pub health_probe_bind_address : String
  pub leader_elect : Bool
  pub leader_elect_lease_duration : ℤ
  pub leader_elect_renew_deadline : ℤ
  pub leader_elect_retry_period : ℤ
  pub leader_elect_resource_lock : String
  pub leader_elect_resource_name : String
  pub leader_elect_resource_namespace : String
  pub sync_period : ℤ
  pub qps : ℕ
  pub burst : ℕ

-- What `RuntimeConfig.BindFlags` stores as the values of flags that are not given.
abbrev runtime_defaults : RuntimeConfig
runtime_defaults = record {
  metrics_bind_address = ":8080";
  health_probe_bind_address = ":10258";
  leader_elect = true;
  leader_elect_lease_duration = pos (15 * second);
  leader_elect_renew_deadline = pos (10 * second);
  leader_elect_retry_period = pos (2 * second);
  leader_elect_resource_lock = "leases";
  leader_elect_resource_name = "route-controller";
  leader_elect_resource_namespace = "kube-system";
  sync_period = pos (60 * minute);
  qps = 200;
  burst = 30;
}

-- `ControllerConfig`, as far as it is set from flags.
pub record ControllerConfig : Type 0 where
  pub controllers : List String
  pub route_reconciliation_period : ℤ
  pub runtime_config : RuntimeConfig

-- What `ControllerConfig.BindFlags` stores.
abbrev pub defaults : ControllerConfig
defaults = record {
  controllers = "route" ∷ [];
  route_reconciliation_period = pos (5 * minute);
  runtime_config = runtime_defaults;
}

-- `Validate`: the configuration after it, and no error.
unfoldable pub validate : ControllerConfig → ControllerConfig
validate cfg =
    if below cfg.route_reconciliation_period minute
    then record cfg { route_reconciliation_period = pos minute }
    else cfg

-- How `FlagSet.Parse` ends under `ExitOnError`: it has set the flags, or it ends the program.
pub data Parsed : Type 0 where
  parsed : ControllerConfig → Parsed
  parse_exits : ℕ → Parsed

-- `LoadControllerConfig`, over what pflag makes of the arguments and the bound variables.
unfoldable pub load_controller_config :
    (List String → ControllerConfig → Parsed) → List String → Parsed
unfolding validate
load_controller_config parse args = elim (parse args defaults) [
  | parsed cfg ↦ parsed (validate cfg)
  | parse_exits code ↦ parse_exits code
]

-- `manager.Options`, as far as it is set.
pub record ManagerOptions : Type 0 where
  pub metrics_bind_address : String
  pub health_probe_bind_address : String
  pub leader_election : Bool
  pub leader_election_id : String
  pub leader_election_resource_lock : String
  pub leader_election_namespace : String
  pub lease_duration : ℤ
  pub renew_deadline : ℤ
  pub retry_period : ℤ
  pub sync_period : ℤ

-- `BuildRuntimeOptions`, which leaves the address of the health probes empty.
abbrev pub build_runtime_options : RuntimeConfig → ManagerOptions
build_runtime_options c = record {
  metrics_bind_address = c.metrics_bind_address;
  health_probe_bind_address = "";
  leader_election = c.leader_elect;
  leader_election_id = c.leader_elect_resource_name;
  leader_election_resource_lock = c.leader_elect_resource_lock;
  leader_election_namespace = c.leader_elect_resource_namespace;
  lease_duration = c.leader_elect_lease_duration;
  renew_deadline = c.leader_elect_renew_deadline;
  retry_period = c.leader_elect_retry_period;
  sync_period = c.sync_period;
}
