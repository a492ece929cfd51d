-- ===== src/Util/Maps.antt =====
-- `MergeStringMap`, `IsStringSliceEqual`, `PKCS7UnPadding` and `RetryImmediateOnError` of pkg/util/util.go.
use vpc_route_controller.Common.{
  ℕ, zero, suc, ◌-◌, String, Bool, true, false, not, Option, none, some, List, [], ◌∷◌,
  if◌then◌else◌, nat_eq, ltb, length, Dict, has_key, insert, Outcome, done, panicked, Action,
  Result, ok, err, Error, pure, ◌>>=◌,
}

-- The inner loop of `MergeStringMap`: a key that is there keeps its value.
unfoldable pub merge_in : Dict String → Dict String → Dict String
merge_in [] ret = ret
merge_in ((k, v) ∷ m) ret = merge_in m (if has_key k ret then ret else insert k v ret)

unfoldable pub merge_from : List (Dict String) → Dict String → Dict String
unfolding merge_in
merge_from [] ret = ret
merge_from (m ∷ maps) ret = merge_from maps (merge_in m ret)

-- `MergeStringMap`
unfoldable pub merge_string_map : List (Dict String) → Dict String
unfolding merge_from
merge_string_map maps = merge_from maps []

-- The search of `IsStringSliceEqual` for a text, over `strings.EqualFold`.
unfoldable pub any_fold : (String → String → Bool) → String → List String → Bool
any_fold equal_fold i [] = false
any_fold equal_fold i (j ∷ js) =
    let rest = any_fold equal_fold i js in if equal_fold i j then true else rest

unfoldable pub all_found : (String → String → Bool) → List String → List String → Bool
unfolding any_fold
all_found equal_fold [] s2 = true
all_found equal_fold (i ∷ is) s2 =
    let rest = all_found equal_fold is s2 in if not (any_fold equal_fold i s2) then false else rest

-- `IsStringSliceEqual`
unfoldable pub is_string_slice_equal : (String → String → Bool) → List String → List String → Bool
unfolding all_found
is_string_slice_equal equal_fold s1 s2 =
    if not (nat_eq (length s1) (length s2)) then false else all_found equal_fold s1 s2

abbrev pub last_byte : ℕ → List ℕ → ℕ
last_byte b [] = b
last_byte b (c ∷ cs) = last_byte c cs

abbrev pub take : ℕ → List ℕ → List ℕ
take zero bs = []
take (suc n) [] = []
take (suc n) (b ∷ bs) = b ∷ take n bs

-- `PKCS7UnPadding`: the index of the last byte panics on no data, and the slice where that byte is larger
-- than the length.
unfoldable pub pkcs7_unpadding : List ℕ → Outcome (List ℕ)
pkcs7_unpadding [] = panicked
pkcs7_unpadding (b ∷ bs) =
    let unpadding = last_byte b bs in
    if ltb (suc (length bs)) unpadding
    then panicked
    else done (take (suc (length bs) - unpadding) (b ∷ bs))

-- The condition that `RetryImmediateOnError` polls: whether `fn` is done, or why polling ends.
unfoldable pub retry_condition :
    {W : Type 0} → (Error → Bool) → Action W (Option Error) → Action W (Result Bool)
retry_condition retryable fn = do
  failure ← fn
  elim failure [
    | some e ↦ if retryable e then pure (ok false) else pure (err e)
    | none ↦ pure (ok true)
  ]

-- `RetryImmediateOnError`, over `wait.PollImmediate` at its interval and timeout.
unfoldable pub retry_immediate_on_error :
    {W : Type 0}
    → (ℕ → ℕ → Action W (Result Bool) → Action W (Option Error))
    → ℕ
    → ℕ
    → (Error → Bool)
    → Action W (Option Error)
    → Action W (Option Error)
unfolding retry_condition
retry_immediate_on_error poll_immediate interval timeout retryable fn =
    poll_immediate interval timeout (retry_condition retryable fn)
