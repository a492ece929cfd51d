-- ===== src/Route/Marking.antt =====
-- `updateNetworkingCondition`: what is written, that a second call finds nothing to do, and how many
-- times the API server is asked.
use mathlib.Core.Option.{some-injective, none-ne-some}
use mathlib.Core.Path.{subst}
use vpc_route_controller.Common.{
  ℕ, zero, suc, ◌+◌, ◌≤◌, ◌<◌, Bool, true, Option, none, some, List, [], ◌∷◌, ◌++◌, ◌≡◌, ◌≢◌, refl,
  ◌⊎◌, All, get_elem?, set, length, Action, Outcome, done, panicked, Error, arith, inl, inr,
  Bool-cases, Option-cases, eq_refl, is_conflict, continue,
}
use vpc_route_controller.Kube.{Node, NodeCondition, KubeClient, blank_condition, find_condition}
use vpc_route_controller.Kube.Conditions.{find_condition_latest, find_condition-eq-none_iff}
use vpc_route_controller.Kube.Patch.{patch_m, patch_status}
use vpc_route_controller.Route.Condition.{
  network_unavailable, set_condition, set_conditions, already_set, diff, after_patch, update_retry,
  update_networking_condition, max_retries,
}

-- Every condition of the type is older than `now`.
abbrev pub Older : ℕ → List NodeCondition → Type 0
Older now conds =
    All (λ (c : NodeCondition). c.kind ≡ network_unavailable → c.heartbeat < now) conds

-- A condition of the type in the list is the one just written, or an older one.
written_or_Older :
    (now : ℕ) (new : NodeCondition) (conds : List NodeCondition) (i j : ℕ) (c : NodeCondition)
    → Older now conds
    → get_elem? (set conds i new) j ≡ some c
    → c.kind ≡ network_unavailable
    → (c ≡ new) ⊎ (c.heartbeat < now)
written_or_Older now new [] i j c old e k = cc
written_or_Older now new (x ∷ xs) zero zero c old e k = inl (ground arith)
written_or_Older now new (x ∷ xs) zero (suc j) c old e k = older xs j old.1 e
  where
    older :
        (xs : List NodeCondition) (j : ℕ)
        → Older now xs
        → get_elem? xs j ≡ some c
        → (c ≡ new) ⊎ (c.heartbeat < now)
    older [] j o e = cc
    older (y ∷ ys) zero o e = inr (ground (arith, o.0))
    older (y ∷ ys) (suc j) o e = older ys j o.1 e
written_or_Older now new (x ∷ xs) (suc i) zero c old e k = inr (ground (arith, old.0))
written_or_Older now new (x ∷ xs) (suc i) (suc j) c old e k =
    written_or_Older now new xs i j c old.1 e k

appended_only :
    (new : NodeCondition) (conds : List NodeCondition) (j : ℕ) (c : NodeCondition)
    → All (λ (d : NodeCondition). d.kind ≢ network_unavailable) conds
    → get_elem? (conds ++ new ∷ []) j ≡ some c
    → c.kind ≡ network_unavailable
    → c ≡ new
appended_only new [] zero c others e k = ground arith
appended_only new [] (suc j) c others e k = cc
appended_only new (x ∷ xs) zero c others e k = absurd (ground (arith, others.0))
appended_only new (x ∷ xs) (suc j) c others e k = appended_only new xs j c others.1 e k

at_end :
    (new : NodeCondition) (conds : List NodeCondition)
    → get_elem? (conds ++ new ∷ []) (length conds) ≡ some new
at_end new [] = refl
at_end new (x ∷ xs) = at_end new xs

at_set :
    (new old : NodeCondition) (conds : List NodeCondition) (i : ℕ)
    → get_elem? conds i ≡ some old
    → get_elem? (set conds i new) i ≡ some new
at_set new old [] i e = cc
at_set new old (x ∷ xs) zero e = refl
at_set new old (x ∷ xs) (suc i) e = at_set new old xs i e

All_at :
    (P : NodeCondition → Type 0) (conds : List NodeCondition) (i : ℕ) (c : NodeCondition)
    → All P conds
    → get_elem? conds i ≡ some c
    → P c
All_at P [] i c h e = absurd (none-ne-some c e)
All_at P (x ∷ xs) zero c h e = subst P (some-injective x c e) h.0
All_at P (x ∷ xs) (suc i) c h e = All_at P xs i c h.1 e

-- A condition of the type that is newer than all others of it is the one that is found.
newest_is_found :
    (conds : List NodeCondition) (i : ℕ) (new : NodeCondition)
    → get_elem? conds i ≡ some new
    → new.kind ≡ network_unavailable
    → ((j : ℕ) (c : NodeCondition)
        → get_elem? conds j ≡ some c
        → c.kind ≡ network_unavailable
        → (c ≡ new) ⊎ (c.heartbeat < new.heartbeat))
    → (j : ℕ) × (find_condition conds network_unavailable ≡ some (j, new))
newest_is_found conds i new here kind rivals =
    go (Option-cases (find_condition conds network_unavailable))
  where
    go :
        (find_condition conds network_unavailable ≡ none)
          ⊎ ((a : ℕ × NodeCondition) × (find_condition conds network_unavailable ≡ some a))
        → (j : ℕ) × (find_condition conds network_unavailable ≡ some (j, new))
    go (inl e) = absurd (
        All_at _ conds i new ((find_condition-eq-none_iff conds network_unavailable).0 e) here kind)
    go (inr ((j, c), e)) =
        let (at_j, kind_c, later) = find_condition_latest conds network_unavailable j c e in
        elim (rivals j c at_j kind_c) [
          | inl same ↦ (j, rw same at e)
          | inr lt ↦ absurd (omega (arith, lt, All_at _ conds i new later here kind))
        ]

-- After a write at a time later than every condition of the type, the condition found is the one
-- written.
written_is_found :
    (created : Bool) (transition heartbeat : ℕ) (conds : List NodeCondition)
    → Older heartbeat conds
    → (j : ℕ) × (old : NodeCondition) × (find_condition
          (set_conditions created transition heartbeat conds)
          network_unavailable
        ≡ some (j, set_condition created transition heartbeat old))
unfolding set_conditions
written_is_found created transition heartbeat conds older =
    go (Option-cases (find_condition conds network_unavailable))
  where
    new : NodeCondition → NodeCondition
    new = set_condition created transition heartbeat

    go :
        (find_condition conds network_unavailable ≡ none)
          ⊎ ((a : ℕ × NodeCondition) × (find_condition conds network_unavailable ≡ some a))
        → (j : ℕ) × (old : NodeCondition) × (find_condition
              (set_conditions created transition heartbeat conds)
              network_unavailable
            ≡ some (j, new old))
    go (inl e) =
        let others = (find_condition-eq-none_iff conds network_unavailable).0 e in
        let (j, found) =
          newest_is_found (conds ++ new blank_condition ∷ []) (length conds) (new blank_condition)
            (at_end (new blank_condition) conds) refl
            (λ j c at k. inl (appended_only (new blank_condition) conds j c others at k)) in
        (j, blank_condition, rw (e, set_conditions) found)
    go (inr ((i, c), e)) =
        let (at_i, k, later) = find_condition_latest conds network_unavailable i c e in
        let (j, found) =
          newest_is_found (set conds i (new c)) i (new c) (at_set (new c) c conds i at_i) refl
            (λ j c' at k'. written_or_Older heartbeat (new c) conds i j c' older at k') in
        (j, c, rw (e, set_conditions) found)

settled :
    (node : Node) (created : Bool) (transition heartbeat : ℕ) (conds : List NodeCondition)
    → Older heartbeat conds
    → node.conditions ≡ set_conditions created transition heartbeat conds
    → already_set node created ≡ true
unfolding already_set set_condition
settled node created transition heartbeat conds older written =
    let (j, old, found) = written_is_found created transition heartbeat conds older in
    rw (written, already_set) (rw (found, already_set) (eq_refl _))

-- When a node's conditions are those that the closure diff wrote, at a heartbeat later than every
-- condition of the type before, updateNetworkingCondition with the same argument asks nothing of
-- the API server and answers no error.
pub written_is_settled :
    {W : Type 0} (kube : KubeClient W) (node : Node) (created : Bool) (transition heartbeat : ℕ)
    (conds : List NodeCondition) (w : W)
    → Older heartbeat conds
    → node.conditions ≡ set_conditions created transition heartbeat conds
    → update_networking_condition kube node created w ≡ (done none, w)
unfolding update_networking_condition
written_is_settled kube node created transition heartbeat conds w older written =
    rw (settled node created transition heartbeat conds older written, update_networking_condition)

-- A client that counts the reads of nodes.
unfoldable pub counting : {W : Type 0} → KubeClient W → KubeClient (W × ℕ)
counting kube = record {
  get_node = λ name (w, n). let (a, v) = kube.get_node name w in (a, (v, suc n));
  list_nodes = λ (w, n). let (a, v) = kube.list_nodes w in (a, (v, n));
  patch = λ node bytes (w, n). let (a, v) = kube.patch node bytes w in (a, (v, n));
  status_patch = λ node bytes (w, n). let (a, v) = kube.status_patch node bytes w in (a, (v, n));
  now = λ (w, n). let (a, v) = kube.now w in (a, (v, n));
  marshal = kube.marshal;
  two_way_merge_patch = kube.two_way_merge_patch;
}

module _ {W : Type 0} (kube : KubeClient W) (created : Bool) where
  patch_reads_once :
      (node : Node) (s : W × ℕ)
      → (patch_m (counting kube) node (diff (counting kube) created) patch_status s).1.1 ≡ suc s.1
  unfolding patch_m diff counting
  patch_reads_once node s = ground arith

  -- What is left of the read after a call, where all that it may go on with stays in the bound.
  after_patch_reads :
      (k : ℕ) (again : Node → Option Error → Action (W × ℕ) (Option Error))
      → ((fresh : Node) (last : Option Error) (s : W × ℕ) → (again fresh last s).1.1 ≤ s.1 + k)
      → (o : Outcome (Node × Option Error)) (s : W × ℕ)
      → (continue o (after_patch (counting kube) again) s).1.1 ≤ s.1 + k
  unfolding after_patch
  after_patch_reads k again bound panicked s = omega arith
  after_patch_reads k again bound (done (fresh, none)) s = omega arith
  after_patch_reads k again bound (done (fresh, some e)) s = elim (Bool-cases (is_conflict e)) [
    | inl retry ↦ rw (retry, after_patch) (bound fresh (some e) s)
    | inr stop ↦ rw (stop, after_patch) (omega arith)
  ]

  retry_reads :
      (rounds : ℕ) (node : Node) (last : Option Error) (s : W × ℕ)
      → (update_retry (counting kube) rounds node created last s).1.1 ≤ s.1 + rounds
  unfolding update_retry
  retry_reads zero node last s = omega arith
  retry_reads (suc rounds) node last s = omega (
    arith,
    patch_reads_once node s,
    after_patch_reads rounds (λ fresh. update_retry (counting kube) rounds fresh created)
        (retry_reads rounds)
        (patch_m (counting kube) node (diff (counting kube) created) patch_status s).0
        (patch_m (counting kube) node (diff (counting kube) created) patch_status s).1,
  )

  -- updateNetworkingCondition reads a node at most three times, whatever the API server answers.
  pub update_reads_at_most :
      (node : Node) (w : W) (n : ℕ)
      → (update_networking_condition (counting kube) node created (w, n)).1.1 ≤ n + 3
  unfolding update_networking_condition
  update_reads_at_most node w n = grind (arith, retry_reads max_retries node none (w, n))
