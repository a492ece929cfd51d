-- ===== src/Util/Drawing.antt =====
-- What `Random.String` draws (pkg/util/random/random.go).
use vpc_route_controller.Common.{
  ℕ, zero, suc, true, false, ◌%◌, ◌<◌, List, [], ◌∷◌, ◌≡◌, refl, ap, ◌⊎◌, inl, inr, All, Action,
  done, Returns, arith,
}
use vpc_route_controller.Util.Time.{Bytes}
use vpc_route_controller.Util.Random.{join, charset_of, length, byte_at, draw, random_string}

-- A byte of a charset.
unfoldable pub In : ℕ → Bytes → Type 0
In b [] = true ≡ false
In b (c ∷ cs) = (b ≡ c) ⊎ In b cs

byte_at-In :
    {W : Type 0} (i : ℕ) (cs : Bytes)
    → i < length cs
    → (b : ℕ) × ((w : W) → byte_at i cs w ≡ (done b, w)) × In b cs
unfolding byte_at length In
byte_at-In i [] small = absurd (omega arith)
byte_at-In zero (c ∷ cs) small = (c, (λ w. refl), inl refl)
byte_at-In (suc i) (c ∷ cs) small =
    let (b, found, inside) = byte_at-In i cs (omega arith) in (b, found, inr inside)

module _ {W : Type 0} (int63 : Action W ℕ) (draws : Returns int63) where
  -- So many bytes, each of the charset.
  abbrev pub DrawnFrom : ℕ → Bytes → Bytes → Type 0
  DrawnFrom n charset bs = (length bs ≡ n) × All (λ (b : ℕ). In b charset) bs

  draw-DrawnFrom :
      (n : ℕ) (charset : Bytes) (w : W)
      → 0 < length charset
      → (bs : Bytes) × (v : W) × (draw int63 n charset w ≡ (done bs, v)) × DrawnFrom n charset bs
  unfolding draw length
  draw-DrawnFrom zero charset w some_byte = ([], w, refl, (refl, tt))
  draw-DrawnFrom (suc n) charset w some_byte =
      let (drawn, u, drew) = draws w in
      let (b, found, inside) = byte_at-In {W = W} (drawn % length charset) charset (ground arith) in
      let (bs, v, rest, (size, all)) = draw-DrawnFrom n charset u some_byte in
      (b ∷ bs, v, rw (drew, draw) (rw (found u) (rw rest refl)), (ap suc size, (inside, all)))

  -- When every draw returns, Random.String returns, with as many bytes as the length says in eight
  -- bits, each of them one of the charsets joined, or of the alphanumeric one where these are
  -- empty.
  pub random_string-DrawnFrom :
      (n : ℕ) (charsets : List Bytes) (w : W)
      → (bs : Bytes) × (v : W) × (random_string int63 n charsets w ≡ (done bs, v))
        × DrawnFrom (n % 256) (charset_of (join charsets)) bs
  unfolding random_string
  random_string-DrawnFrom n charsets w =
      let (bs, v, drawn, (size, all)) =
        draw-DrawnFrom (n % 256) (charset_of (join charsets)) w (nonempty (join charsets)) in
      (bs, v, drawn, (size, all))
    where
      nonempty : (cs : Bytes) → 0 < length (charset_of cs)
      nonempty [] = unfold length in omega arith
      nonempty (c ∷ cs) = unfold length in omega arith
