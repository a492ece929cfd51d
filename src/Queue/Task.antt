-- ===== src/Queue/Task.antt =====
-- `Queue` of pkg/controller/helper/queue.go, over client-go's rate limited work queue, which is third-party
-- code. Logs are left out.
use vpc_route_controller.Common.{
  ℕ, zero, suc, String, Bool, true, false, Option, none, some, [], ◌∷◌, concat, Action, Result, ok,
  err, Error, plain, message, pure, panic, modify, ◌>>=◌, ◌>>◌,
}

-- `EventType` of pkg/controller/helper/event.go, as text, with the values that it names.
abbrev pub create_event : String
create_event = "CREATE"

abbrev pub update_event : String
update_event = "UPDATE"

abbrev pub configuration_event : String
configuration_event = "CONFIGURATION"

-- `Event`, of objects `O`.
pub record Event (O : Type 0) : Type 0 where
  pub kind : String
  pub obj : O

-- The dynamic types of what is enqueued, as far as `obj.(Event)` tells them apart.
pub data Task (O : Type 0) : Type 0 where
  event : Event O → Task O
  other_task : Task O

-- `Element`
pub record Element (O : Type 0) : Type 0 where
  pub key : String
  pub event : Event O
  pub is_skippable : Bool

-- `workqueue.RateLimitingInterface`; no element is what `Get` answers when it says to quit.
pub record RateLimitingQueue (O W : Type 0) : Type 0 where
  pub add : Element O → Action W (Unit {0})
  pub get : Action W (Option (Element O))
  pub add_rate_limited : Element O → Action W (Unit {0})
  pub forget : Element O → Action W (Unit {0})
  pub finish : Element O → Action W (Unit {0})
  pub shut_down : Action W (Unit {0})
  pub shutting_down : Action W Bool

-- The fields of `Queue` that change, and the world: whether `workerDone` is closed, and `lastSync`.
pub record TaskQueue (W : Type 0) : Type 0 where
  pub worker_done : Bool
  pub last_sync : ℕ
  pub world : W

-- What a `Queue` is made of: the work queue, `fn`, `sync`, and the clock.
pub record QueueDeps (O W : Type 0) : Type 0 where
  pub queue : RateLimitingQueue O W
  pub key_of : O → Result String
  pub sync : Element O → Action W (Option Error)
  pub now : Action W ℕ

module _ {W A : Type 0} where
  abbrev pub in_world : Action W A → Action (TaskQueue W) A
  in_world m t = let (a, w) = m t.world in (a, record t { world = w })

-- `defaultKeyFunc`, over the key function of package cache. `%v` of the object is a parameter.
unfoldable pub default_key_func :
    {O : Type 0} → (O → String) → (O → Result String) → O → Result String
default_key_func show key_func obj = elim (key_func obj) [
  | err e ↦
      err (plain (concat ("could not get key for object " ∷ show obj ∷ ": " ∷ message e ∷ [])))
  | ok key ↦ ok key
]

module _ {O W : Type 0} (d : QueueDeps O W) where
  -- `IsShuttingDown`
  abbrev pub is_shutting_down : Action (TaskQueue W) Bool
  is_shutting_down = in_world d.queue.shutting_down

  -- The part of `enqueue` that comes after the test for the shut-down.
  unfoldable pub enqueue_event : Task O → Action (TaskQueue W) (Unit {0})
  enqueue_event other_task = panic
  enqueue_event (event e) = elim (d.key_of e.obj) [
    | err x ↦ pure tt
    | ok key ↦ in_world (d.queue.add (record { key = key; event = e; is_skippable = false }))
  ]

  -- `enqueue`, which does not read its second argument.
  unfoldable pub enqueue : Task O → Bool → Action (TaskQueue W) (Unit {0})
  unfolding enqueue_event
  enqueue obj skippable = do
    closing ← is_shutting_down
    elim closing [ true ↦ pure tt | false ↦ enqueue_event obj ]

  -- `EnqueueTask`
  unfoldable pub enqueue_task : Task O → Action (TaskQueue W) (Unit {0})
  unfolding enqueue
  enqueue_task obj = enqueue obj false

  -- `EnqueueSkippableTask`
  unfoldable pub enqueue_skippable_task : Task O → Action (TaskQueue W) (Unit {0})
  unfolding enqueue
  enqueue_skippable_task obj = enqueue obj true

  -- What the worker does with an element that it got at that time.
  unfoldable pub work_on : Element O → ℕ → Action (TaskQueue W) (Unit {0})
  work_on key ts = do
    failure ← in_world (d.sync key)
    elim failure [
      | some e ↦ in_world (d.queue.add_rate_limited (record key { is_skippable = false }))
      | none ↦ do in_world (d.queue.forget key); modify (λ t. record t { last_sync = ts })
    ]
    in_world (d.queue.finish key)

  -- A round of `worker`: whether the loop goes on.
  unfoldable pub worker_round : Action (TaskQueue W) Bool
  unfolding work_on
  worker_round = do
    got ← in_world d.queue.get
    elim got [
      | none ↦ do modify (λ t. record t { worker_done = true }); pure false
      | some key ↦ do ts ← in_world d.now; work_on key ts; pure true
    ]

  -- `worker`, for so many rounds at most: whether it has returned.
  unfoldable pub worker : ℕ → Action (TaskQueue W) Bool
  unfolding worker_round
  worker zero = pure false
  worker (suc rounds) = do
    goes_on ← worker_round
    elim goes_on [ true ↦ worker rounds | false ↦ pure true ]

  -- `Shutdown`, up to where it waits for `workerDone` to be closed.
  unfoldable pub begin_shutdown : Action (TaskQueue W) (Unit {0})
  begin_shutdown = in_world d.queue.shut_down

-- Whether `<-t.workerDone`, the end of `Shutdown`, goes on.
abbrev pub shutdown_goes_on : {W : Type 0} → TaskQueue W → Bool
shutdown_goes_on t = t.worker_done
