-- ===== src/Manager/Tests.antt =====
-- The program over a platform on which everything goes well, and that counts the calls.
use vpc_route_controller.Common.{ℕ, suc, true, none, [], ◌∷◌, ◌≡◌, ◌↔◌, refl, All, done, ok}
use vpc_route_controller.Manager.Settings.{
  pos, minute, defaults, ControllerConfig, parsed, load_controller_config,
}
use vpc_route_controller.Manager.Start.{Platform, add}
use vpc_route_controller.Manager.Adding.{Known, add_to_manager_iff, Adds}

-- A user who asks for a period of a second.
abbrev hasty : ControllerConfig
hasty = record defaults { route_reconciliation_period = pos 1000 }

abbrev platform : Platform ℕ ℕ ℕ
platform = record {
  args = "manager" ∷ [];
  parse = λ args bound. parsed hasty;
  has_config = λ w. (done true, w);
  new_manager = λ qps burst options w. (done (ok 1), suc w);
  new_controller = λ m name options w. (done (ok 2), suc w);
  watch_nodes = λ c w. (done none, suc w);
  add_runnable = λ m c w. (done none, suc w);
  start_manager = λ m w. (done none, suc w);
  start_controller = λ c w. (done none, suc w);
  spawn_periodic = λ period w. (done tt, suc w);
}

adds : (w : ℕ) → (v : ℕ) × (add platform 1 w ≡ (done none, v))
unfolding add
adds w = (suc (suc (suc w)), refl)

-- The period of a hasty user is raised to a minute.
raised :
    load_controller_config platform.parse platform.args
    ≡ parsed (record hasty { route_reconciliation_period = pos minute })
unfolding load_controller_config
raised = refl

add_to_manager_iff_example :
    Adds platform 1 ("route" ∷ "service" ∷ []) 0 ↔ All Known ("route" ∷ "service" ∷ [])
add_to_manager_iff_example = add_to_manager_iff platform 1 adds ("route" ∷ "service" ∷ []) 0
