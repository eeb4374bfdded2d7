-- ===== src/Lmdb/Order.antt =====
-- The keys of storage.cpp in LMDB's order: the blocks of a branch stand together, by index.
use free_labour_common_will.Base.{
  ◌≡◌, ◌<◌, ◌+◌, ◌*◌, ◌/◌, ◌%◌, ◌^◌, refl, sym, ◌∙◌, ℕ, List, [], ◌∷◌, ◌++◌, length, take, get_or,
  arith, bytes_le, ◌&&◌, bytes_eq, bytes_eq_self, true, false, Bool, ltb, leb, ◌==◌, if◌then◌else◌,
  some, none, append_assoc, take-append_length, get_or-append, length-append, subst,
}
use free_labour_common_will.Types.{UserId, BlockAddress}
use free_labour_common_will.Serializer.RoundTrip.{IsAddress}
use free_labour_common_will.Lmdb.Keys.{be32, of_be32, node_key, block_key}
use free_labour_common_will.Lmdb.Foreign.{seek_key, tip_of_key}

-- Strings with prefixes of one length are compared by their prefixes first.
bytes_le_prefix :
    (p q x y : List ℕ)
    → length p ≡ length q
    → bytes_le (p ++ x) (q ++ y) ≡ (if bytes_eq p q then bytes_le x y else bytes_le p q)
bytes_le_prefix [] [] x y l = refl
bytes_le_prefix [] (b ∷ q) x y l = absurd (omega arith)
bytes_le_prefix (a ∷ p) [] x y l = absurd (omega arith)
bytes_le_prefix (a ∷ p) (b ∷ q) x y l =
    let rest = bytes_le_prefix p q x y (omega arith) in
    rw rest (go a b (bytes_eq p q) (bytes_le x y) (bytes_le p q))
  where
    go :
        (a b : ℕ) (e u v : Bool)
        → (if ltb a b then true else if a == b then (if e then u else v) else false)
          ≡ (if (a == b && e) then u else if ltb a b then true else if a == b then v else false)
    go a b e u v = ground arith

-- One digit in front of numbers that are compared.
digit_8 :
    (a b u v : ℕ)
    → u < 2 ^ 8
    → v < 2 ^ 8
    → (if ltb a b then true else if a == b then leb u v else false)
      ≡ leb (a * 2 ^ 8 + u) (b * 2 ^ 8 + v)
digit_8 a b u v h k = ground arith

digit_16 :
    (a b u v : ℕ)
    → u < 2 ^ 16
    → v < 2 ^ 16
    → (if ltb a b then true else if a == b then leb u v else false)
      ≡ leb (a * 2 ^ 16 + u) (b * 2 ^ 16 + v)
digit_16 a b u v h k = ground arith

digit_24 :
    (a b u v : ℕ)
    → u < 2 ^ 24
    → v < 2 ^ 24
    → (if ltb a b then true else if a == b then leb u v else false)
      ≡ leb (a * 2 ^ 24 + u) (b * 2 ^ 24 + v)
digit_24 a b u v h k = ground arith

digit_0 : (a b : ℕ) → (if ltb a b then true else if a == b then true else false) ≡ leb a b
digit_0 a b = ground arith

-- Four bytes, the highest first, are compared as the number they stand for.
bytes_le_of_be32 :
    (a b c d a' b' c' d' : ℕ)
    → b < 256
    → c < 256
    → d < 256
    → b' < 256
    → c' < 256
    → d' < 256
    → bytes_le (a ∷ b ∷ c ∷ d ∷ []) (a' ∷ b' ∷ c' ∷ d' ∷ [])
      ≡ leb
          (a * 2 ^ 24 + (b * 2 ^ 16 + (c * 2 ^ 8 + d)))
          (a' * 2 ^ 24 + (b' * 2 ^ 16 + (c' * 2 ^ 8 + d')))
bytes_le_of_be32 a b c d a' b' c' d' hb hc hd hb' hc' hd' =
    rw
      (
        digit_0 d d',
        digit_8 c c' d d' hd hd',
        digit_16 b b' (c * 2 ^ 8 + d) (c' * 2 ^ 8 + d') (omega arith) (omega arith),
        digit_24 a a' (b * 2 ^ 16 + (c * 2 ^ 8 + d)) (b' * 2 ^ 16 + (c' * 2 ^ 8 + d')) (omega arith)
            (omega arith),
      )
      refl

be32_whole :
    (i : ℕ)
    → i < 2 ^ 32
    → i / 2 ^ 24 % 256 * 2 ^ 24 + (i / 2 ^ 16 % 256 * 2 ^ 16 + (i / 2 ^ 8 % 256 * 2 ^ 8 + i % 256))
      ≡ i
be32_whole i h = omega (arith, h)

be32_le : (i j : ℕ) → i < 2 ^ 32 → j < 2 ^ 32 → bytes_le (be32 i) (be32 j) ≡ leb i j
unfolding be32
be32_le i j h k =
    bytes_le_of_be32 (i / 2 ^ 24 % 256) (i / 2 ^ 16 % 256) (i / 2 ^ 8 % 256) (i % 256)
      (j / 2 ^ 24 % 256) (j / 2 ^ 16 % 256) (j / 2 ^ 8 % 256) (j % 256) (omega arith) (omega arith)
      (omega arith) (omega arith) (omega arith) (omega arith)
    ∙ (λ t. leb (be32_whole i h t) (be32_whole j k t))

be32_max : be32 0xffff_ffff ≡ (0xff ∷ 0xff ∷ 0xff ∷ 0xff ∷ [])
unfolding be32
be32_max = refl

of_be32-be32 :
    (i : ℕ)
    → i < 2 ^ 32
    → of_be32
        (get_or (be32 i) 0 0)
        (get_or (be32 i) 1 0)
        (get_or (be32 i) 2 0)
        (get_or (be32 i) 3 0)
      ≡ i
unfolding be32 of_be32
of_be32-be32 i h = omega (arith, h)

be32_size : (i : ℕ) → length (be32 i) ≡ 4
unfolding be32
be32_size i = refl

-- Keys of addresses: those of one branch are in the order of their indices.
node_key_size : (uid : UserId) (i : ℕ) → length uid ≡ 32 → length (node_key uid i) ≡ 36
unfolding node_key be32
node_key_size uid i l = omega (arith, length-append uid (be32 i), l)

pub block_key_branch :
    (a : BlockAddress) → block_key a ≡ node_key a.user_id a.node_index ++ be32 a.block_index
unfolding block_key node_key
block_key_branch a = sym (append_assoc a.user_id (be32 a.node_index) (be32 a.block_index))

-- A key is compared with a key of a branch by the branch first.
pub block_key_le :
    (a : BlockAddress) (uid : UserId) (leaf j : ℕ)
    → IsAddress a
    → length uid ≡ 32
    → j < 2 ^ 32
    → bytes_le (block_key a) (node_key uid leaf ++ be32 j) ≡ (
        if bytes_eq (node_key a.user_id a.node_index) (node_key uid leaf)
        then leb a.block_index j
        else bytes_le (node_key a.user_id a.node_index) (node_key uid leaf))
block_key_le a uid leaf j w l h =
    let p = node_key a.user_id a.node_index in
    let size = node_key_size a.user_id a.node_index w.user.size ∙ sym (node_key_size uid leaf l) in
    rw (block_key_branch a, ← be32_le a.block_index j w.block h)
      (bytes_le_prefix p (node_key uid leaf) (be32 a.block_index) (be32 j) size)

pub le_block_key :
    (a : BlockAddress) (uid : UserId) (leaf j : ℕ)
    → IsAddress a
    → length uid ≡ 32
    → j < 2 ^ 32
    → bytes_le (node_key uid leaf ++ be32 j) (block_key a) ≡ (
        if bytes_eq (node_key uid leaf) (node_key a.user_id a.node_index)
        then leb j a.block_index
        else bytes_le (node_key uid leaf) (node_key a.user_id a.node_index))
le_block_key a uid leaf j w l h =
    let p = node_key a.user_id a.node_index in
    let size = node_key_size uid leaf l ∙ sym (node_key_size a.user_id a.node_index w.user.size) in
    rw (block_key_branch a, ← be32_le j a.block_index h w.block)
      (bytes_le_prefix (node_key uid leaf) p (be32 j) (be32 a.block_index) size)

pub branch_le :
    (p : List ℕ) (i j : ℕ)
    → i < 2 ^ 32
    → j < 2 ^ 32
    → bytes_le (p ++ be32 i) (p ++ be32 j) ≡ leb i j
branch_le p i j h k =
    let whole = bytes_le_prefix p p (be32 i) (be32 j) refl in
    let first : (if bytes_eq p p then bytes_le (be32 i) (be32 j) else bytes_le p p)
        ≡ bytes_le (be32 i) (be32 j) =
      rw (bytes_eq_self p) refl in
    whole ∙ first ∙ be32_le i j h k

pub seek_key_lem :
    (uid : UserId) (leaf : ℕ) → seek_key uid leaf ≡ node_key uid leaf ++ be32 0xffff_ffff
unfolding seek_key
seek_key_lem uid leaf = rw be32_max refl

-- `tip_of_key` of a stored key: the index, if the key is of the branch.
pub tip_of_key-block_key :
    (a : BlockAddress) (uid : UserId) (leaf : ℕ)
    → IsAddress a
    → length uid ≡ 32
    → tip_of_key uid leaf (block_key a) ≡ (
        if bytes_eq (node_key a.user_id a.node_index) (node_key uid leaf)
        then some a.block_index
        else none)
unfolding tip_of_key
tip_of_key-block_key a uid leaf w l =
    let p = node_key a.user_id a.node_index in
    let key = block_key_branch a in
    let n = node_key_size a.user_id a.node_index w.user.size in
    let be = be32_size a.block_index in
    let size : (length (p ++ be32 a.block_index) == 40) ≡ true =
      ground (arith, n, be, length-append p (be32 a.block_index)) in
    let front : take 36 (p ++ be32 a.block_index) ≡ p =
      subst (λ m. take m (p ++ be32 a.block_index) ≡ p) n
        (take-append_length p (be32 a.block_index)) in
    let at = λ (i m : ℕ) (e : m ≡ length p + i). get_or-append p (be32 a.block_index) i m 0 e in
    rw
      (
        key,
        size,
        front,
        at 0 36 (omega (arith, n)),
        at 1 37 (omega (arith, n)),
        at 2 38 (omega (arith, n)),
        at 3 39 (omega (arith, n)),
        of_be32-be32 a.block_index w.block,
      )
      refl
