-- ===== src/Util/Padding.antt =====
-- What `AesDecrypt` and `PKCS7UnPadding` of pkg/util/util.go make of padded data.
use vpc_route_controller.Common.{
  ℕ, zero, suc, ◌+◌, ◌-◌, ◌≤◌, ltb, List, [], ◌∷◌, ◌++◌, some, length, done, ◌≡◌, refl, ap, arith,
  inl, inr, Bool-cases,
}
use vpc_route_controller.Util.Maps.{last_byte, take, pkcs7_unpadding}
use vpc_route_controller.Util.Cipher.{CipherLibrary, aes_decrypt}

-- So many copies of a byte.
abbrev copies : ℕ → ℕ → List ℕ
copies zero v = []
copies (suc n) v = v ∷ copies n v

-- Data under its padding: each byte of the padding is its length.
abbrev padded : ℕ → List ℕ → List ℕ
padded n bs = bs ++ copies n n

last_byte-copies : (v n : ℕ) → last_byte v (copies n v) ≡ v
last_byte-copies v zero = refl
last_byte-copies v (suc n) = last_byte-copies v n

last_byte-append : (b v n : ℕ) (bs : List ℕ) → last_byte b (bs ++ copies (suc n) v) ≡ v
last_byte-append b v n [] = last_byte-copies v n
last_byte-append b v n (c ∷ bs) = last_byte-append c v n bs

length-copies : (n v : ℕ) → length (copies n v) ≡ n
length-copies zero v = refl
length-copies (suc n) v = ap suc (length-copies n v)

length-append : (bs : List ℕ) (n v : ℕ) → length (bs ++ copies n v) ≡ length bs + n
length-append [] n v = omega (arith, length-copies n v)
length-append (b ∷ bs) n v = omega (arith, length-append bs n v)

take-append : (bs cs : List ℕ) → take (length bs) (bs ++ cs) ≡ bs
take-append [] cs = refl
take-append (b ∷ bs) cs = ap (λ x. b ∷ x) (take-append bs cs)

-- The slice keeps the data, when the padding has at least one byte.
unpadding_lem :
    (b n : ℕ) (bs : List ℕ) (text cs : List ℕ)
    → text ++ cs ≡ b ∷ bs
    → last_byte b bs ≡ n
    → suc (length bs) ≡ length text + n
    → pkcs7_unpadding (b ∷ bs) ≡ done text
unfolding pkcs7_unpadding
unpadding_lem b n bs text cs e last total =
    let size : suc (length bs) - last_byte b bs ≡ length text = omega (arith, last, total) in
    elim (Bool-cases (ltb (suc (length bs)) (last_byte b bs))) [
      | inl over ↦ absurd (ground (arith, over, last, total))
      | inr fits ↦ rw (fits, size) (ap done (rw e at (take-append text cs)))
    ]

-- PKCS7UnPadding takes away a padding of at least one byte.
pub pkcs7_unpadding-padded : (n : ℕ) (bs : List ℕ) → pkcs7_unpadding (padded (suc n) bs) ≡ done bs
pkcs7_unpadding-padded n [] =
    unpadding_lem (suc n) (suc n) (copies n (suc n)) [] (copies (suc n) (suc n)) refl
      (last_byte-copies (suc n) n) (omega (arith, length-copies n (suc n)))
pkcs7_unpadding-padded n (b ∷ bs) =
    unpadding_lem b (suc n) (bs ++ copies (suc n) (suc n)) (b ∷ bs) (copies (suc n) (suc n)) refl
      (last_byte-append b (suc n) n bs) (omega (arith, length-append bs (suc n) (suc n)))

-- Where the key has a cipher and the cipher deciphers to padded data, AesDecrypt gives the data back.
aes_decrypt-padded :
    (lib : CipherLibrary) (cryted k bs : List ℕ) (n : ℕ) (block : lib.Block)
    → lib.new_cipher k ≡ some block
    → lib.block_size block ≤ length k
    → lib.crypt_blocks block (take (lib.block_size block) k) (lib.decode_string cryted)
      ≡ done (padded (suc n) bs)
    → aes_decrypt lib cryted k ≡ done bs
unfolding aes_decrypt
aes_decrypt-padded lib cryted k bs n block made fits deciphers =
    elim (Bool-cases (ltb (length k) (lib.block_size block))) [
      | inl short ↦ absurd (ground (arith, short, fits))
      | inr long ↦ rw (made, aes_decrypt) (rw (long, deciphers) (pkcs7_unpadding-padded n bs))
    ]
