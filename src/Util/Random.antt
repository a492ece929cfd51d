-- ===== src/Util/Random.antt =====
-- `Random.String` of pkg/util/random/random.go. The numbers that package math/rand draws are a parameter;
-- texts are lists of bytes.
use vpc_route_controller.Common.{ℕ, zero, suc, ◌%◌, List, [], ◌∷◌, ◌++◌, Action, panic, pure, ◌>>=◌}
use vpc_route_controller.Util.Time.{Bytes, bytes}

-- `Alphanumeric`
abbrev pub alphanumeric : Bytes
alphanumeric = bytes "ABCDEFGHIJKLMNOPQRSTUVWXYZabcdefghijklmnopqrstuvwxyz0123456789"

-- `strings.Join(charsets, "")`
unfoldable pub join : List Bytes → Bytes
join [] = []
join (s ∷ ss) = s ++ join ss

abbrev pub charset_of : Bytes → Bytes
charset_of [] = alphanumeric
charset_of (c ∷ cs) = c ∷ cs

-- `len`
unfoldable pub length : Bytes → ℕ
length [] = 0
length (c ∷ cs) = suc (length cs)

-- `charset[i]`, which panics past the end.
unfoldable pub byte_at : {W : Type 0} → ℕ → Bytes → Action W ℕ
byte_at i [] = panic
byte_at zero (c ∷ cs) = pure c
byte_at (suc i) (c ∷ cs) = byte_at i cs

module _ {W : Type 0} (int63 : Action W ℕ) where
  -- The loop, for so many bytes.
  unfoldable pub draw : ℕ → Bytes → Action W Bytes
  unfolding byte_at length
  draw zero charset = pure []
  draw (suc n) charset = do
    drawn ← int63
    b ← byte_at (drawn % length charset) charset
    rest ← draw n charset
    pure (b ∷ rest)

  -- `Random.String`, at a length of eight bits.
  unfoldable pub random_string : ℕ → List Bytes → Action W Bytes
  unfolding draw join
  random_string n charsets = draw (n % 256) (charset_of (join charsets))
