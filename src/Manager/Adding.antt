-- ===== src/Manager/Adding.antt =====
-- Which configurations and controllers the program starts with (pkg/config, pkg/controller/controller.go,
-- cmd/manager/main.go).
use Prim.Native.String.{◌++◌ as ◌++ₜ◌}
use vpc_route_controller.Common.{
  String, true, false, none, some, List, [], ◌∷◌, ◌≡◌, refl, ◌↔◌, ◌==◌, All, done, Bool-cases, inl,
  inr, arith, ◌>>=◌, plain, sym, subst, ◌∙◌,
}
use vpc_route_controller.Manager.Settings.{
  defaults, minute, below, ControllerConfig, validate, Parsed, parsed, parse_exits,
  load_controller_config,
}
use vpc_route_controller.Manager.Start.{Platform, add, add_to_manager}

validate-minute :
    (cfg : ControllerConfig) → below (validate cfg).route_reconciliation_period minute ≡ false
unfolding validate
validate-minute cfg = elim (Bool-cases (below cfg.route_reconciliation_period minute)) [
  | inl short ↦ rw short refl
  | inr long ↦ rw long long
]

loaded :
    (end : Parsed) (cfg : ControllerConfig)
    → elim end as (λ _. Parsed) [
      | parsed c ↦ parsed (validate c)
      | parse_exits code ↦ parse_exits code
    ]
      ≡ parsed cfg
    → (c : ControllerConfig) × (validate c ≡ cfg)
loaded (parsed c) cfg e = (c, ground (arith, e))
loaded (parse_exits code) cfg e = absurd (ground (arith, e))

-- The period that is loaded is never below a minute, whatever the arguments say.
load_controller_config-minute :
    (parse : List String → ControllerConfig → Parsed) (args : List String) (cfg : ControllerConfig)
    → load_controller_config parse args ≡ parsed cfg
    → below cfg.route_reconciliation_period minute ≡ false
unfolding load_controller_config
load_controller_config-minute parse args cfg e =
    let (c, same) = loaded (parse args defaults) cfg e in
    subst (λ (x : ControllerConfig). below x.route_reconciliation_period minute ≡ false) same
      (validate-minute c)

-- The controllers that there are.
abbrev pub Known : String → Type 0
Known name = name == "route" ≡ true

module _ {W M C : Type 0} (p : Platform W M C) (m : M) where
  first_step :
      (name : String) (names : List String) (w v : W)
      → Known name
      → add p m w ≡ (done none, v)
      → add_to_manager p m (name ∷ names) w ≡ add_to_manager p m names v
  unfolding add_to_manager
  first_step name names w v known added = rw (known, add_to_manager) (rw added refl)

  stops_at :
      (name : String) (names : List String) (w : W)
      → name == "route" ≡ false
      → add_to_manager p m (name ∷ names) w
        ≡ (done (some (plain ("cannot find controller " ++ₜ name ++ₜ ""))), w)
  unfolding add_to_manager
  stops_at name names w unknown = rw (unknown, add_to_manager) refl

  -- AddToManager ends with no error.
  abbrev pub Adds : List String → W → Type 0
  Adds names w = (v : W) × (add_to_manager p m names w ≡ (done none, v))

  -- Where the route controller can be added in every world, AddToManager ends with no error
  -- exactly when every name is a known controller's.
  pub add_to_manager_iff :
      ((w : W) → (v : W) × (add p m w ≡ (done none, v)))
      → (names : List String) (w : W) → Adds names w ↔ All Known names
  unfolding add_to_manager
  add_to_manager_iff adds [] w = ((λ h. tt), (λ h. (w, refl)))
  add_to_manager_iff adds (name ∷ names) w = elim (Bool-cases (name == "route")) [
    | inl known ↦
        let (v, added) = adds w in
        let (only, all) = add_to_manager_iff adds names v in
        let step = first_step name names w v known added in
        (
          (λ h. let (u, e) = h in (known, only (u, sym step ∙ e))),
          (λ h. let (k, ks) = h in let (u, e) = all ks in (u, step ∙ e)),
        )
    | inr unknown ↦ (
      (λ h. let (u, e) = h in absurd (ground (arith, sym (stops_at name names w unknown) ∙ e))),
      (λ h. let (k, ks) = h in absurd (ground (arith, k, unknown))),
    )
  ]

module _ {W M C : Type 0} (p : Platform W M C) where
  -- The manager of those controllers has run, and has ended well.
  abbrev Ran : ControllerConfig → W → Type 0
  Ran cfg v =
      All Known cfg.controllers × ((m : M) × (u : W) × (p.start_manager m u ≡ (done none, v)))
