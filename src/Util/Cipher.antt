-- ===== src/Util/Cipher.antt =====
-- `AesDecrypt` of pkg/util/util.go, on bytes.
use vpc_route_controller.Common.{
  ℕ, Option, none, some, List, ltb, length, if◌then◌else◌, Outcome, done, panicked,
}
use vpc_route_controller.Util.Maps.{take, pkcs7_unpadding}

-- encoding/base64, crypto/aes and crypto/cipher. `DecodeString` answers some bytes also where it fails;
-- `NewCipher` refuses keys of a wrong size, and a cipher has the size of its blocks.
pub record CipherLibrary : Type 1 where
  pub Block : Type 0
  pub decode_string : List ℕ → List ℕ
  pub new_cipher : List ℕ → Option Block
  pub block_size : Block → ℕ
  pub crypt_blocks : Block → List ℕ → List ℕ → Outcome (List ℕ)

module _ (lib : CipherLibrary) where
  -- `PKCS7UnPadding` of what was deciphered.
  unfoldable unpadded : Outcome (List ℕ) → Outcome (List ℕ)
  unpadded panicked = panicked
  unpadded (done orig) = pkcs7_unpadding orig

  -- `AesDecrypt`: a key of a wrong size leaves a nil block, whose BlockSize panics.
  unfoldable pub aes_decrypt : List ℕ → List ℕ → Outcome (List ℕ)
  unfolding unpadded
  aes_decrypt cryted k = elim (lib.new_cipher k) [
    | none ↦ panicked
    | some block ↦
        let size = lib.block_size block in
        if ltb (length k) size
        then panicked
        else unpadded (lib.crypt_blocks block (take size k) (lib.decode_string cryted))
  ]
