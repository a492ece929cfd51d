-- ===== src/Manager/Start.antt =====
-- How the controller is started: `main` of cmd/manager/main.go, `AddToManager` of
-- pkg/controller/controller.go, and `Add`, `newReconciler` and `Start` of
-- pkg/controller/route/route_controller.go, over controller-runtime, which is a parameter. Logs are left
-- out.
use vpc_route_controller.Common.{
  ℕ, ◌*◌, String, Bool, true, Option, none, some, List, [], ◌∷◌, ◌==◌, if◌then◌else◌, concat,
  Action, Result, ok, err, Error, plain, pure, when, ◌>>=◌, ◌>>◌,
}
use vpc_route_controller.Route.State.{ReconcileRoute}
use vpc_route_controller.Manager.Settings.{
  minute, ControllerConfig, Parsed, parsed, parse_exits, load_controller_config, ManagerOptions,
  build_runtime_options,
}

-- `controller.Options`, as far as it is set.
pub record ControllerOptions : Type 0 where
  pub max_concurrent_reconciles : ℕ
  pub recover_panic : Bool

-- `newReconciler`, and the period that it sets, in nanoseconds.
abbrev new_reconciler : {W : Type 0} → W → ReconcileRoute W
new_reconciler w = record { config_routes = true; node_cache = []; events = []; world = w }

abbrev reconcile_period : ℕ
reconcile_period = 5 * minute

-- Package pflag, the configuration of the API server, which ends the program where there is none, and
-- controller-runtime with managers `M` and controllers `C`. `spawn_periodic` starts the goroutine of
-- `periodicalSync` at a period.
pub record Platform (W M C : Type 0) : Type 0 where
  pub args : List String
  pub parse : List String → ControllerConfig → Parsed
  pub has_config : Action W Bool
  pub new_manager : ℕ → ℕ → ManagerOptions → Action W (Result M)
  pub new_controller : M → String → ControllerOptions → Action W (Result C)
  pub watch_nodes : C → Action W (Option Error)
  pub add_runnable : M → C → Action W (Option Error)
  pub start_manager : M → Action W (Option Error)
  pub start_controller : C → Action W (Option Error)
  pub spawn_periodic : ℕ → Action W (Unit {0})

-- How a program ends: `main` returns, or `os.Exit` is called.
pub data Ending : Type 0 where
  returned : Ending
  exited : ℕ → Ending

module _ {W M C : Type 0} (p : Platform W M C) where
  -- `add`
  unfoldable pub add : M → Action W (Option Error)
  add m = do
    made ←
        p.new_controller m "route-controller"
          (record { max_concurrent_reconciles = 1; recover_panic = true })
    elim made [
      | err e ↦ pure (some e)
      | ok c ↦ do
        failure ← p.watch_nodes c
        elim failure [ some e ↦ pure (some e) | none ↦ p.add_runnable m c ]
    ]

  -- `routeController.Start`, which the manager calls once it leads.
  unfoldable start_route_controller : ReconcileRoute W → C → Action W (Option Error)
  start_route_controller recon c = do
    when recon.config_routes (p.spawn_periodic reconcile_period)
    p.start_controller c

  -- `controllerMap`
  abbrev controller_named : String → Option (M → Action W (Option Error))
  controller_named name = if name == "route" then some add else none

  -- `AddToManager`
  unfoldable pub add_to_manager : M → List String → Action W (Option Error)
  unfolding add
  add_to_manager m [] = pure none
  add_to_manager m (name ∷ names) = do
    let rest = add_to_manager m names
    elim (controller_named name) [
      | none ↦ pure (some (plain (concat ("cannot find controller " ∷ name ∷ []))))
      | some f ↦ do failure ← f m; elim failure [ some e ↦ pure (some e) | none ↦ rest ]
    ]

  -- `main`, from the manager on.
  unfoldable pub run_manager : M → List String → Action W Ending
  unfolding add_to_manager
  run_manager m names = do
    failure ← add_to_manager m names
    elim failure [
      | some e ↦ pure (exited 1)
      | none ↦ do
        stopped ← p.start_manager m
        elim stopped [ some e ↦ pure (exited 1) | none ↦ pure returned ]
    ]

  -- `main`, with the configuration of the API server.
  unfoldable pub run_configured : ControllerConfig → Action W Ending
  unfolding run_manager
  run_configured cfg = do
    made ←
        p.new_manager cfg.runtime_config.qps cfg.runtime_config.burst
          (build_runtime_options cfg.runtime_config)
    elim made [ err e ↦ pure (exited 1) | ok m ↦ run_manager m cfg.controllers ]

  unfoldable pub run_parsed : Parsed → Action W Ending
  unfolding run_configured
  run_parsed (parse_exits code) = pure (exited code)
  run_parsed (parsed cfg) = do
    found ← p.has_config
    if found then run_configured cfg else pure (exited 1)

  -- `main`
  unfoldable pub run_program : Action W Ending
  unfolding load_controller_config run_parsed
  run_program = run_parsed (load_controller_config p.parse p.args)
