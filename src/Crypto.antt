-- ===== src/Crypto.antt =====
-- modules/blockchain/src/crypto.cpp, over the functions of libsodium that it calls.
use free_labour_common_will.Base.{
  ℕ, ◌≡◌, ◌≢◌, Bool, true, List, Option, none, some, IsBytes, bytes_eq, bytes_eq_iff, Bool-cases,
  inl, inr, ◌⊎◌, arith, Has,
}
use free_labour_common_will.Types.{Hash, Signature, SecretKey, PublicKey, KeyPair, Node, Block}
use free_labour_common_will.Types.Outcome.{Result, ok, err, crypto_error}
use free_labour_common_will.Serializer.Encode.{enc_node, enc_block}

-- libsodium: `crypto_generichash`, `crypto_sign_detached` (`none` is a code other than 0) and
-- `crypto_sign_verify_detached` (true is the code 0).
pub record Sodium : Type 0 where
  pub generichash : List ℕ → Hash
  pub sign_detached : List ℕ → SecretKey → Option Signature
  pub verify_detached : Signature → List ℕ → PublicKey → Bool

-- What its manual promises: a hash has the size asked for, and a signature by a key pair that
-- `crypto_sign_keypair` made has its size and is verified under the public half.
pub record SodiumLaws (na : Sodium) (Generated : KeyPair → Type 0) : Type 0 where
  pub hash_size : (m : List ℕ) → IsBytes 32 (na.generichash m)
  pub signs :
      (m : List ℕ) (kp : KeyPair)
      → Generated kp
      → (s : Signature) × (na.sign_detached m kp.sec ≡ some s)
  pub sign_size :
      (m : List ℕ) (k : SecretKey) (s : Signature) → na.sign_detached m k ≡ some s → IsBytes 64 s
  pub verifies :
      (m : List ℕ) (kp : KeyPair) (s : Signature)
      → Generated kp
      → na.sign_detached m kp.sec ≡ some s
      → na.verify_detached s m kp.pub_key ≡ true

-- Two byte strings with one hash, the first of some strings and the second of others.
pub record Collision (na : Sodium) (some_strings other_strings : List (List ℕ)) : Type 0 where
  pub first : List ℕ
  pub second : List ℕ
  pub in_first : Has first some_strings
  pub in_second : Has second other_strings
  pub differ : first ≢ second
  pub same : na.generichash first ≡ na.generichash second

module _ (na : Sodium) where
  unfoldable pub hash : List ℕ → Hash
  hash bytes = na.generichash bytes

  unfoldable pub sign : List ℕ → SecretKey → Result Signature
  sign bytes key = elim (na.sign_detached bytes key) [ none ↦ err crypto_error | some s ↦ ok s ]

  unfoldable pub verify : List ℕ → Signature → PublicKey → Bool
  verify bytes sig key = na.verify_detached sig bytes key

  unfoldable pub hash_node : Node → Hash
  unfolding hash
  hash_node node = hash (enc_node node)

  unfoldable pub hash_block : Block → Hash
  unfolding hash
  hash_block block = hash (enc_block block)

  -- Equal hashes are those of one byte string, or of two that collide.
  pub hash_equal :
      (xs ys : List (List ℕ)) (x y : List ℕ)
      → Has x xs
      → Has y ys
      → hash x ≡ hash y
      → (x ≡ y) ⊎ Collision na xs ys
  unfolding hash
  hash_equal xs ys x y h k e = elim (Bool-cases (bytes_eq x y)) [
    | inl same ↦ inl ((bytes_eq_iff x y).0 same)
    | inr other ↦ inr (record {
      first = x;
      second = y;
      in_first = h;
      in_second = k;
      differ = λ p. ground (arith, (bytes_eq_iff x y).1 p);
      same = e;
    })
  ]
