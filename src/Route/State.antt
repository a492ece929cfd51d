-- ===== src/Route/State.antt =====
-- `model.Route`, the fields of `ReconcileRoute` that change, and the interfaces that the controller
-- is written against: the cloud of package ksyun, and third-party helpers.
use vpc_route_controller.Common.{
  ℕ, zero, suc, String, Bool, true, false, Option, none, some, List, [], ◌∷◌, ◌++◌, ◌≡◌, Dict,
  Action, Outcome, done, panicked, Result, ok, err, Error, message,
}
use vpc_route_controller.Kube.{KubeClient}

-- `model.Route`
pub record Route : Type 0 where
  pub name : String
  pub destination_cidr : String
  pub instance_id : String
  pub route_id : String

-- One call of `record.Event`, on the node of that name and UID.
pub record Event : Type 0 where
  pub node_name : String
  pub uid : String
  pub severity : String
  pub reason : String
  pub text : String

-- `ReconcileRoute`: the node cache, the events recorded so far, and the world outside.
pub record ReconcileRoute (W : Type 0) : Type 0 where
  pub config_routes : Bool
  pub node_cache : Dict Route
  pub events : List Event
  pub world : W

-- Package ksyun, as the controller calls it.
pub record Cloud (W : Type 0) : Type 0 where
  pub list_routes : Action W (Result (List Route))
  pub find_route : String → Action W (Result (Option Route))
  pub create_route : String → String → Action W (Option Error)
  pub delete_route : String → Action W (Option Error)

-- `net.IPNet`: the bytes of the address and of the mask.
pub record IpNet : Type 0 where
  pub ip : List ℕ
  pub mask : List ℕ

-- `net.ParseCIDR`, `IPNet.String`, `utilerrors.NewAggregate`, and the submatches that package regexp
-- finds of `.*(Message:.*)`.
pub record Libs : Type 0 where
  pub parse_cidr : String → Result IpNet
  pub ip_net_string : IpNet → String
  pub new_aggregate : List (Option Error) → Option Error
  pub message_submatch : String → List String

-- An aggregate is nil exactly when it holds no error.
pub record AggregateLaws (libs : Libs) : Type 0 where
  pub nothing : libs.new_aggregate [] ≡ none
  pub nil_only : libs.new_aggregate (none ∷ []) ≡ none
  pub one : (e : Error) → (e' : Error) × (libs.new_aggregate (some e ∷ []) ≡ some e')

abbrev pub warning : String
warning = "Warning"

abbrev pub normal : String
normal = "Normal"

module _ {W A : Type 0} where
  -- A call that leaves the controller's own fields alone.
  abbrev pub in_world : Action W A → Action (ReconcileRoute W) A
  in_world m r = let (a, w) = m r.world in (a, record r { world = w })

module _ {W : Type 0} where
  -- `r.record.Event`
  abbrev pub record_event : Event → Action (ReconcileRoute W) (Unit {0})
  record_event e r = (done tt, record r { events = r.events ++ e ∷ [] })

abbrev second_or : String → List String → String
second_or d (whole ∷ part ∷ rest) = part
second_or d _ = d

-- `helper.GetLogMessage` (pkg/controller/helper/event.go), at an error that is not nil.
unfoldable pub get_log_message : Libs → Error → String
get_log_message libs e = second_or (message e) (libs.message_submatch (message e))

-- What the closure of `createRouteForInstance` reads and writes: the world, and the captured route.
pub record CreateLoop (W : Type 0) : Type 0 where
  pub world : W
  pub route : Option Route

-- `wait.ExponentialBackoff` at that many steps, on a condition over the state of that closure.
abbrev pub Backoff : Type 0 → Type 0
Backoff W = ℕ → Action (CreateLoop W) (Result Bool) → Action (CreateLoop W) (Option Error)

-- All that the controller calls.
pub record Deps (W : Type 0) : Type 0 where
  pub kube : KubeClient W
  pub cloud : Cloud W
  pub libs : Libs
  pub backoff : Backoff W

module _ {W : Type 0} (timed_out : Error) (pause : W → W) where
  -- How `ExponentialBackoff` goes on after the condition was tried, with so many steps left: `true`
  -- and an error end it, and after a `false` it sleeps and tries again, unless that was the last step.
  abbrev pub next_step :
      (CreateLoop W → Outcome (Option Error) × CreateLoop W)
      → ℕ
      → Outcome (Result Bool) × CreateLoop W
      → Outcome (Option Error) × CreateLoop W
  next_step again n (panicked, s) = (panicked, s)
  next_step again n (done (err e), s) = (done (some e), s)
  next_step again n (done (ok true), s) = (done none, s)
  next_step again zero (done (ok false), s) = (done (some timed_out), s)
  next_step again (suc n) (done (ok false), s) = again (record s { world = pause s.world })

-- The documented behaviour of `ExponentialBackoff`. What others do to the world while it sleeps is
-- `pause`.
pub record IsBackoff {W : Type 0} (backoff : Backoff W) : Type 0 where
  pub timed_out : Error
  pub pause : W → W
  pub attempt :
      (n : ℕ) (cond : Action (CreateLoop W) (Result Bool)) (s : CreateLoop W)
      → backoff (suc n) cond s ≡ next_step timed_out pause (backoff n cond) n (cond s)
