-- ===== src/Hll.antt =====
-- modules/blockchain/src/hll.cpp, without `estimate`, which computes with floating point.
pub mod Union
use free_labour_common_will.Base.{
  ℕ, zero, suc, ◌+◌, ◌-◌, ◌*◌, ◌/◌, ◌%◌, ◌^◌, List, [], ◌∷◌, length, get_or, take, replicate, ltb,
  ◌==◌, if◌then◌else◌, max,
}
use free_labour_common_will.Types.{Hash, UserId}
use free_labour_common_will.Types.Packets.{HllSketch, precision, registers}
use free_labour_common_will.Types.Tree.{clz64}
use free_labour_common_will.Crypto.{Sodium, hash}

-- `v = (v << 8) | h.bytes[i]`, over the first bytes of the hash.
be64 : ℕ → List ℕ → ℕ
be64 v [] = v
be64 v (b ∷ bs) = be64 (v * 256 % 2 ^ 64 + b) bs

unfoldable pub hash_to_u64 : Hash → ℕ
unfolding be64
hash_to_u64 h = be64 0 (take 8 h)

-- `regs_[i] = v`; the index is in range.
abbrev pub set : List ℕ → ℕ → ℕ → List ℕ
set [] i v = []
set (x ∷ xs) zero v = v ∷ xs
set (x ∷ xs) (suc i) v = x ∷ set xs i v

-- The top bits of the word select the register.
unfoldable pub register_of : Hash → ℕ
register_of h = hash_to_u64 h / 2 ^ (64 - precision)

-- The place of the leftmost 1 among the other bits, counted from 1.
unfoldable pub rank_of : Hash → ℕ
rank_of h =
    let rest = hash_to_u64 h * 2 ^ precision % 2 ^ 64 in
    if rest == 0 then (64 - precision + 1) % 256 else (clz64 rest + 1) % 256

unfoldable pub add_hash : Hash → HllSketch → HllSketch
add_hash h regs =
    let idx = register_of h in
    if ltb (get_or regs idx 0) (rank_of h) then set regs idx (rank_of h) else regs

unfoldable pub merge : HllSketch → HllSketch → HllSketch
merge [] other = []
merge (x ∷ xs) [] = x ∷ xs
merge (x ∷ xs) (y ∷ ys) = max x y ∷ merge xs ys

-- A sketch of nobody.
abbrev pub empty : HllSketch
empty = replicate registers 0

module _ (na : Sodium) where
  unfoldable pub add : UserId → HllSketch → HllSketch
  add id regs = add_hash (hash na id) regs

  unfoldable pub sketch_hash : HllSketch → Hash
  sketch_hash regs = hash na regs
