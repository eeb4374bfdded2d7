-- ===== src/Lmdb/Keys.antt =====
-- The keys of storage.cpp: fields of fixed size, the numbers big-endian.
use free_labour_common_will.Base.{
  ◌≡◌, ◌<◌, ◌+◌, ◌*◌, ◌/◌, ◌%◌, ◌^◌, refl, ℕ, List, [], ◌∷◌, ◌++◌, length, append_inj, arith,
}
use free_labour_common_will.Types.{UserId, BlockAddress}

unfoldable pub be32 : ℕ → List ℕ
be32 v = v / 2 ^ 24 % 256 ∷ v / 2 ^ 16 % 256 ∷ v / 2 ^ 8 % 256 ∷ v % 256 ∷ []

-- `(uint32_t(e[0]) << 24) | …` of four bytes.
unfoldable pub of_be32 : ℕ → ℕ → ℕ → ℕ → ℕ
of_be32 a b c d = a * 2 ^ 24 + b * 2 ^ 16 + c * 2 ^ 8 + d

unfoldable pub node_key : UserId → ℕ → List ℕ
node_key uid ni = uid ++ be32 ni

unfoldable pub block_key : BlockAddress → List ℕ
block_key addr = addr.user_id ++ (be32 addr.node_index ++ be32 addr.block_index)

be32_injective : (v w : ℕ) → v < 2 ^ 32 → w < 2 ^ 32 → be32 v ≡ be32 w → v ≡ w
unfolding be32
be32_injective v w hv hw e =
    let a : v / 2 ^ 24 % 256 ≡ w / 2 ^ 24 % 256 = cc in
    let b : v / 2 ^ 16 % 256 ≡ w / 2 ^ 16 % 256 = cc in
    let c : v / 2 ^ 8 % 256 ≡ w / 2 ^ 8 % 256 = cc in
    let d : v % 256 ≡ w % 256 = cc in omega (arith, a, b, c, d, hv, hw)

be32_size : (v w : ℕ) → length (be32 v) ≡ length (be32 w)
unfolding be32
be32_size v w = refl

-- Keys of two nodes are equal only if the chains and the indices are.
pub node_key_injective :
    (u v : UserId) (i j : ℕ)
    → length u ≡ length v
    → i < 2 ^ 32
    → j < 2 ^ 32
    → node_key u i ≡ node_key v j
    → (u ≡ v) × (i ≡ j)
unfolding node_key
node_key_injective u v i j l hi hj e =
    let (p, q) = append_inj u (be32 i) v (be32 j) l e in (p, be32_injective i j hi hj q)

pub block_key_injective :
    (a b : BlockAddress)
    → length a.user_id ≡ length b.user_id
    → a.node_index < 2 ^ 32
    → b.node_index < 2 ^ 32
    → a.block_index < 2 ^ 32
    → b.block_index < 2 ^ 32
    → block_key a ≡ block_key b
    → a ≡ b
unfolding block_key
block_key_injective a b l h1 h2 h3 h4 e =
    let (p, q) = append_inj a.user_id _ b.user_id _ l e in
    let (r, s) = append_inj (be32 a.node_index) _ (be32 b.node_index) _ (be32_size _ _) q in
    let i = be32_injective a.node_index b.node_index h1 h2 r in
    let j = be32_injective a.block_index b.block_index h3 h4 s in
    λ k. record { user_id = p k; node_index = i k; block_index = j k }
