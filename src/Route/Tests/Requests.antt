-- ===== src/Route/Tests/Requests.antt =====
-- Theorems about `Reconcile`, and the calls of the cloud below it, at the cluster of the parent module.
use mathlib.Core.Bool.{false≢true}
use vpc_route_controller.Common.{
  ℕ, zero, suc, String, Option, none, some, [], ◌≡◌, refl, ◌==◌, if◌then◌else◌, lookup, done,
  Result, ok, plain, inl, Returns, eq_iff, contains, message, ltb,
}
use vpc_route_controller.Route.State.{Route, Deps}
use vpc_route_controller.Route.Calls.{find_or_nil, create_route_for_instance, create_steps}
use vpc_route_controller.Route.Reconcile.{reconcile}
use vpc_route_controller.Route.Creation.{
  Creates, again, made, create_route_for_instance-Creates, create_route_for_instance-total,
}
use vpc_route_controller.Route.Deletion.{until_done, gone_deletes_later, over, failing}
use vpc_route_controller.Route.Cache.{reconcile-keeps}
use vpc_route_controller.Route.Tests.{
  network_text, own_route, foreign_route, laws, missing, tired, is_backoff, deps, state, gone_cache,
}

create_route_for_instance-Creates_example :
    create_route_for_instance deps "i-1" network_text 0 ≡ (done (ok (some own_route)), 2)
unfolding find_or_nil is_backoff contains message
create_route_for_instance-Creates_example =
    create_route_for_instance-Creates deps is_backoff "i-1" network_text
      (again {e = plain "busy"} {r = ok (some own_route)} refl refl (made refl refl))

creates : Returns (deps.cloud.create_route "i-1" network_text)
creates zero = (_, _, refl)
creates (suc w) = (_, _, refl)

create_route_for_instance-total_example :
    (r : Result (Option Route)) × (v : ℕ) × Creates deps is_backoff "i-1" network_text create_steps
      1 r v
    × (create_route_for_instance deps "i-1" network_text 1 ≡ (done r, v))
create_route_for_instance-total_example =
    create_route_for_instance-total deps is_backoff "i-1" network_text creates (λ w. (_, _, refl)) 1

-- A cloud that refuses the first two deletions.
abbrev flaky : Deps ℕ
flaky = record deps {
  cloud = record deps.cloud {
    delete_route = λ cidr w. (done (if ltb w 2 then some tired else none), suc w);
  };
}

gone_deletes_later_example :
    let (answer, after) = until_done flaky "node-2" 2 (state gone_cache) in
    (answer ≡ done none)
    × (after.world ≡ 3)
    × (after.events ≡ [])
    × ((other : String)
        → lookup other after.node_cache
          ≡ (if "node-2" == other then none else lookup other gone_cache))
unfolding lookup
gone_deletes_later_example =
    gone_deletes_later flaky "node-2" laws 2 3 own_route (state gone_cache) refl refl (
      failing {e = missing} {x = tired} {w1 = 0} {w2 = 1} refl refl refl (
        failing {e = missing} {x = tired} {w1 = 1} {w2 = 2} refl refl refl
          (over {e = missing} {w1 = 2} refl refl refl)))

reconcile-keeps_example :
    lookup "node-3" (reconcile deps "node-2" (state gone_cache)).1.node_cache ≡ some foreign_route
unfolding lookup
reconcile-keeps_example =
    reconcile-keeps "node-3" foreign_route deps "node-2" (state gone_cache) refl
      (inl (λ e. false≢true ((eq_iff "node-2" "node-3").1 e)))
