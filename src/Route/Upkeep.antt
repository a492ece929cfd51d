-- ===== src/Route/Upkeep.antt =====
-- `updateNetworkingCondition` before an API server that answers: it returns, and leaves the cloud's
-- table of routes alone.
use vpc_route_controller.Common.{
  ℕ, zero, suc, String, Bool, true, false, Option, none, some, List, ◌==◌, ◌||◌, if◌then◌else◌,
  Action, Result, ok, err, Error, is_conflict, pure, ◌>>=◌,
}
use vpc_route_controller.Kube.{Node, KubeClient}
use vpc_route_controller.Kube.Patch.{
  patch_bytes, patch_all, patch_spec, patch_status, send_status, send_patch, patch_object, patch_m,
  wrap,
}
use vpc_route_controller.Route.State.{Route}
use vpc_route_controller.Route.Condition.{
  diff, after_patch, update_retry, update_networking_condition, max_retries, already_set,
}
use vpc_route_controller.Route.Table.{LeavesTable, Leaves, Leaves-pure, Leaves-bind}

module _ {W : Type 0} (kube : KubeClient W) (table : W → List Route)
    (leaves : LeavesTable kube table) where
  Leaves-if :
      {A : Type 0} (b : Bool) (m k : Action W A)
      → Leaves table m
      → Leaves table k
      → Leaves table (if b then m else k)
  Leaves-if true m k lm lk = lm
  Leaves-if false m k lm lk = lk

  send_status-Leaves :
      (wanted : Node) (bytes resource : String)
      → Leaves table (send_status kube wanted bytes resource)
  unfolding send_status
  send_status-Leaves wanted bytes resource =
      Leaves-if (resource == patch_status || resource == patch_all) _ _
        (leaves.status_patch wanted bytes) (Leaves-pure table none)

  send_patch-Leaves :
      (wanted : Node) (bytes resource : String)
      → Leaves table (send_patch kube wanted bytes resource)
  unfolding send_patch
  send_patch-Leaves wanted bytes resource =
      Leaves-if (resource == patch_spec || resource == patch_all) _ _
        (Leaves-bind table (kube.patch wanted bytes) _ (leaves.patch wanted bytes) (λ failure.
          elim failure
            as (λ f. Leaves table (elim f as (λ _. Action W (Option Error)) [
              | some e ↦ pure (some (wrap "patch spec" e))
              | none ↦ send_status kube wanted bytes resource
            ])) [
              | some e ↦ Leaves-pure table (some (wrap "patch spec" e))
              | none ↦ send_status-Leaves wanted bytes resource
            ]))
        (send_status-Leaves wanted bytes resource)

  patch_object-Leaves :
      (target wanted : Node) (resource : String)
      → Leaves table (patch_object kube target wanted resource)
  unfolding patch_object
  patch_object-Leaves target wanted resource = by_bytes (patch_bytes kube target wanted)
    where
      by_bytes :
          (r : Result String)
          → Leaves table (elim r as (λ _. Action W (Option Error)) [
            | err e ↦ pure (some e)
            | ok bytes ↦ if bytes == "{}" then pure none else send_patch kube wanted bytes resource
          ])
      by_bytes (err e) = Leaves-pure table (some e)
      by_bytes (ok bytes) =
          Leaves-if (bytes == "{}") _ _ (Leaves-pure table none)
            (send_patch-Leaves wanted bytes resource)

  diff-Leaves : (created : Bool) (node : Node) → Leaves table (diff kube created node)
  unfolding diff
  diff-Leaves created node =
      Leaves-bind table kube.now _ leaves.now
        (λ t. Leaves-bind table kube.now _ leaves.now (λ h. Leaves-pure table _))

  patch_m-Leaves :
      (created : Bool) (node : Node) (resource : String)
      → Leaves table (patch_m kube node (diff kube created) resource)
  unfolding patch_m
  patch_m-Leaves created node resource =
      Leaves-bind table (kube.get_node node.name) _ (leaves.get_node node.name) (λ got. read got)
    where
      wanted_next :
          (fresh : Node) (diff : Result Node)
          → Leaves table (elim diff as (λ _. Action W (Node × Option Error)) [
            | err e ↦ pure (fresh, some (wrap "get object diff patch" e))
            | ok wanted ↦ do
              failure ← patch_object kube fresh wanted resource
              pure (fresh, failure)
          ])
      wanted_next fresh (err e) = Leaves-pure table (fresh, some (wrap "get object diff patch" e))
      wanted_next fresh (ok wanted) =
          Leaves-bind table (patch_object kube fresh wanted resource) _
            (patch_object-Leaves fresh wanted resource)
            (λ failure. Leaves-pure table (fresh, failure))

      read :
          (got : Result Node)
          → Leaves table (elim got as (λ _. Action W (Node × Option Error)) [
            | err e ↦ pure (node, some (wrap "get origin object" e))
            | ok fresh ↦ do
              diff ← diff kube created fresh
              elim diff [
                | err e ↦ pure (fresh, some (wrap "get object diff patch" e))
                | ok wanted ↦ do
                  failure ← patch_object kube fresh wanted resource
                  pure (fresh, failure)
              ]
          ])
      read (err e) = Leaves-pure table (node, some (wrap "get origin object" e))
      read (ok fresh) =
          Leaves-bind table (diff kube created fresh) _ (diff-Leaves created fresh)
            (wanted_next fresh)

  after_patch-Leaves :
      (again : Node → Option Error → Action W (Option Error)) (patched : Node × Option Error)
      → ((fresh : Node) (e : Option Error) → Leaves table (again fresh e))
      → Leaves table (after_patch kube again patched)
  unfolding after_patch
  after_patch-Leaves again (fresh, none) next = Leaves-pure table none
  after_patch-Leaves again (fresh, some e) next = by_kind (is_conflict e)
    where
      by_kind :
          (conflict : Bool)
          → Leaves table (elim conflict as (λ _. Action W (Option Error)) [
            | true ↦ again fresh (some e)
            | false ↦ pure (some e)
          ])
      by_kind true = next fresh (some e)
      by_kind false = Leaves-pure table (some e)

  update_retry-Leaves :
      (rounds : ℕ) (node : Node) (created : Bool) (last : Option Error)
      → Leaves table (update_retry kube rounds node created last)
  unfolding update_retry
  update_retry-Leaves zero node created last = Leaves-pure table last
  update_retry-Leaves (suc rounds) node created last =
      Leaves-bind table (patch_m kube node (diff kube created) patch_status) _
        (patch_m-Leaves created node patch_status)
        (λ patched.
          after_patch-Leaves (λ fresh. update_retry kube rounds fresh created) patched
            (λ fresh e. update_retry-Leaves rounds fresh created e))

  -- `updateNetworkingCondition` returns, and leaves the table of routes alone.
  pub update_networking_condition-Leaves :
      (node : Node) (created : Bool) → Leaves table (update_networking_condition kube node created)
  unfolding update_networking_condition
  update_networking_condition-Leaves node created =
      Leaves-if (already_set node created) _ _ (Leaves-pure table none)
        (update_retry-Leaves max_retries node created none)
