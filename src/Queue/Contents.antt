-- ===== src/Queue/Contents.antt =====
-- What is relied on in client-go's work queue, over which pkg/controller/helper/queue.go stands.
use vpc_route_controller.Common.{
  Bool, true, false, none, some, List, [], ◌∷◌, ◌++◌, ◌≡◌, done, if◌then◌else◌,
}
use vpc_route_controller.Queue.Task.{Element, RateLimitingQueue}

-- A set of elements, where `same` is the equality of elements.
abbrev pub ElementSet : Type 0 → Type 0
ElementSet O = Element O → Bool

abbrev pub insert :
    {O : Type 0} → (Element O → Element O → Bool) → Element O → ElementSet O → ElementSet O
insert same x set y = if same x y then true else set y

abbrev pub delete :
    {O : Type 0} → (Element O → Element O → Bool) → Element O → ElementSet O → ElementSet O
delete same x set y = if same x y then false else set y

abbrev pub delete_all :
    {O : Type 0} → (Element O → Element O → Bool) → List (Element O) → ElementSet O → ElementSet O
delete_all same [] set = set
delete_all same (x ∷ xs) set = delete_all same xs (delete same x set)

-- What a work queue holds: the elements that wait in order, the set of those that were added and not
-- taken since, the set of those that a worker has, those that wait for their retry, and whether it is
-- shut down.
pub record Contents (O : Type 0) : Type 0 where
  pub waiting : List (Element O)
  pub dirty : ElementSet O
  pub processing : ElementSet O
  pub retrying : List (Element O)
  pub shut : Bool

module _ {O : Type 0} (same : Element O → Element O → Bool) where
  -- `Get` of an element before others.
  abbrev pub taken : Element O → List (Element O) → Contents O → Contents O
  taken x xs c = record c {
    waiting = xs;
    dirty = delete same x c.dirty;
    processing = insert same x c.processing;
  }

  -- `Done`: an element that was added again while a worker had it goes back to the end.
  abbrev pub finished : Element O → Contents O → Contents O
  finished x c = record c {
    waiting = if c.dirty x then c.waiting ++ x ∷ [] else c.waiting;
    processing = delete same x c.processing;
  }

-- The documented behaviour of the work queue after its shut-down, as far as a worker sees it: elements come
-- out in order, `Done` gives one back and adds it once more where it was added while the worker had it,
-- nothing is added for a retry, and `Get` says to quit when the queue is empty.
pub record IsWorkQueue {O W : Type 0} (same : Element O → Element O → Bool)
    (queue : RateLimitingQueue O W) (contents : W → Contents O) : Type 0 where
  pub equal : (x : Element O) → same x x ≡ true
  pub gets :
      (w : W) (x : Element O) (xs : List (Element O))
      → (contents w).waiting ≡ x ∷ xs
      → (contents w).shut ≡ true
      → (v : W) × (queue.get w ≡ (done (some x), v)) × (contents v ≡ taken same x xs (contents w))
  pub quits :
      (w : W)
      → (contents w).waiting ≡ []
      → (contents w).shut ≡ true
      → (v : W) × (queue.get w ≡ (done none, v)) × (contents v ≡ contents w)
  pub drops :
      (x : Element O) (w : W)
      → (contents w).shut ≡ true
      → (v : W) × (queue.add_rate_limited x w ≡ (done tt, v)) × (contents v ≡ contents w)
  pub forgets :
      (x : Element O) (w : W)
      → (contents w).shut ≡ true
      → (v : W) × (queue.forget x w ≡ (done tt, v)) × (contents v ≡ contents w)
  pub finishes :
      (x : Element O) (w : W)
      → (contents w).shut ≡ true
      → (v : W) × (queue.finish x w ≡ (done tt, v)) × (contents v ≡ finished same x (contents w))
  pub shuts :
      (w : W)
      → (v : W) × (queue.shut_down w ≡ (done tt, v))
        × (contents v ≡ record (contents w) { shut = true })
