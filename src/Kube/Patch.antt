-- ===== src/Kube/Patch.antt =====
-- `PatchM` of pkg/controller/helper/node_utils.go: read the object, make the wanted one from it, and
-- send the difference.
use vpc_route_controller.Common.{
  String, Option, none, some, [], ◌∷◌, ◌==◌, ◌||◌, if◌then◌else◌, concat, Action, Result, ok, err,
  Error, plain, message, pure, ◌>>=◌,
}
use vpc_route_controller.Kube.{Node, KubeClient}

abbrev pub patch_all : String
patch_all = "all"

abbrev pub patch_spec : String
patch_spec = "spec"

abbrev pub patch_status : String
patch_status = "status"

-- `fmt.Errorf("what: %s", err.Error())`
abbrev pub wrap : String → Error → Error
wrap what e = plain (concat (what ∷ ": " ∷ message e ∷ []))

module _ {W : Type 0} (client : KubeClient W) where
  -- `json.Marshal` of both objects and `strategicpatch.CreateTwoWayMergePatch`.
  unfoldable pub patch_bytes : Node → Node → Result String
  patch_bytes target wanted = elim (client.marshal target) [
    | err e ↦ err (wrap "ensure marshal" e)
    | ok old_bytes ↦ elim (client.marshal wanted) [
      | err e ↦ err (wrap "ensure marshal" e)
      | ok new_bytes ↦ elim (client.two_way_merge_patch old_bytes new_bytes) [
        | err e ↦ err (wrap "create merge patch" e)
        | ok bytes ↦ ok bytes
      ]
    ]
  ]

  unfoldable pub send_status : Node → String → String → Action W (Option Error)
  send_status wanted bytes resource =
      if resource == patch_status || resource == patch_all
      then client.status_patch wanted bytes
      else pure none

  unfoldable pub send_patch : Node → String → String → Action W (Option Error)
  unfolding send_status
  send_patch wanted bytes resource =
      if resource == patch_spec || resource == patch_all
      then (do
        failure ← client.patch wanted bytes
        elim failure [
          | some e ↦ pure (some (wrap "patch spec" e))
          | none ↦ send_status wanted bytes resource
        ])
      else send_status wanted bytes resource

  unfoldable pub patch_object : Node → Node → String → Action W (Option Error)
  unfolding patch_bytes send_patch
  patch_object target wanted resource = elim (patch_bytes target wanted) [
    | err e ↦ pure (some e)
    | ok bytes ↦ if bytes == "{}" then pure none else send_patch wanted bytes resource
  ]

  -- `PatchM`. The read refreshes the caller's object, which comes back with the error.
  unfoldable pub patch_m :
      Node → (Node → Action W (Result Node)) → String → Action W (Node × Option Error)
  unfolding patch_object
  patch_m target getter resource = do
    got ← client.get_node target.name
    elim got [
      | err e ↦ pure (target, some (wrap "get origin object" e))
      | ok fresh ↦ do
        diff ← getter fresh
        elim diff [
          | err e ↦ pure (fresh, some (wrap "get object diff patch" e))
          | ok wanted ↦ do failure ← patch_object fresh wanted resource; pure (fresh, failure)
        ]
    ]
