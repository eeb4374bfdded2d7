-- ===== src/Lmdb/Tip.antt =====
-- `branch_tip_index` of storage.cpp: the seek behind a branch and the step back.
use free_labour_common_will.Base.{
  ◌≡◌, ◌≢◌, ◌<◌, ◌≤◌, refl, ◌∙◌, ℕ, List, ◌++◌, length, some, Bool, true, false, leb, bytes_le,
  bytes_le_total, bytes_le_antisymm, bytes_le_trans, bytes_eq, bytes_eq_iff, bytes_eq_self,
  Bool-cases, inl, inr, ◌⊎◌, arith,
}
use free_labour_common_will.Types.{UserId, BlockAddress}
use free_labour_common_will.Serializer.RoundTrip.{IsAddress}
use free_labour_common_will.Lmdb.Interface.{
  Lmdb, LmdbLaws, Sought, at_key, past_end, seek_failed, Present,
}
use free_labour_common_will.Lmdb.Keys.{be32, node_key, block_key}
use free_labour_common_will.Lmdb.Storage.{Databases}
use free_labour_common_will.Lmdb.Foreign.{seek_key, tip_of_key, tip_entry, branch_tip_index}
use free_labour_common_will.Lmdb.Order.{
  block_key_le, le_block_key, seek_key_lem, branch_le, block_key_branch, tip_of_key-block_key,
}

Sought-cases : (r : Sought) → ((k : List ℕ) × (r ≡ at_key k)) ⊎ ((r ≡ past_end) ⊎ (r ≡ seek_failed))
Sought-cases (at_key k) = inl (k, refl)
Sought-cases past_end = inr (inl refl)
Sought-cases seek_failed = inr (inr refl)

module _ (uid : UserId) (leaf : ℕ) (l : length uid ≡ 32) where
  -- Every block of the branch is in front of the sought key.
  below_seek :
      (i : ℕ) → i < 0xffff_ffff → bytes_le (seek_key uid leaf) (node_key uid leaf ++ be32 i) ≡ false
  below_seek i h =
      let beyond : leb 0xffff_ffff i ≡ false = ground (arith, h) in
      rw (seek_key_lem uid leaf)
        (branch_le (node_key uid leaf) 0xffff_ffff i (omega arith) (omega (arith, h)) ∙ beyond)

  -- A key from a block of the branch up to the sought key is of the branch.
  same_branch :
      (a : BlockAddress) (j : ℕ)
      → IsAddress a
      → j < 0xffff_ffff
      → bytes_le (node_key uid leaf ++ be32 j) (block_key a) ≡ true
      → bytes_le (seek_key uid leaf) (block_key a) ≡ false
      → bytes_eq (node_key a.user_id a.node_index) (node_key uid leaf) ≡ true
  same_branch a j w h from up =
      let p = node_key uid leaf in
      let q = node_key a.user_id a.node_index in
      let seek = seek_key_lem uid leaf in
      let low = le_block_key a uid leaf j w l (omega (arith, h)) in
      let high = block_key_le a uid leaf 0xffff_ffff w l (omega arith) in
      let to : bytes_le (block_key a) (p ++ be32 0xffff_ffff) ≡ true =
        bytes_le_total (p ++ be32 0xffff_ffff) (block_key a) (rw (← seek) up) in
      elim (Bool-cases (bytes_eq q p)) [
        | inl same ↦ same
        | inr other ↦ elim (Bool-cases (bytes_eq p q)) [
          | inl turned ↦ rw ((bytes_eq_iff p q).0 turned) (bytes_eq_self q)
          | inr apart ↦
              let up_to : bytes_le p q ≡ true = ground (arith, low, from, apart) in
              let down_to : bytes_le q p ≡ true = ground (arith, high, to, other) in
              (bytes_eq_iff q p).1 (bytes_le_antisymm q p down_to up_to)
        ]
      ]

module _ (mdb : Lmdb) (laws : LmdbLaws mdb) where
  -- The keys of a table of blocks, none of them at the reserved index.
  pub record IsFilled (db : mdb.Db) : Type 0 where
    pub each :
        (k : List ℕ)
        → Present mdb db k
        → (a : BlockAddress) × IsAddress a × (a.block_index < 0xffff_ffff) × (k ≡ block_key a)

  -- The entry found is the last one in front of the sought key.
  pub tip_entry_last :
      (db : mdb.Db) (seek k : List ℕ)
      → tip_entry mdb db seek ≡ at_key k
      → Present mdb db k
        × (bytes_le seek k ≡ false)
        × ((x : List ℕ) → Present mdb db x → bytes_le seek x ≡ false → bytes_le x k ≡ true)
  unfolding tip_entry
  tip_entry_last db seek k e = elim (Sought-cases (mdb.set_range db seek)) [
    | inl (first, f) ↦
        let back : mdb.prev db first ≡ at_key k = ground (arith, e, f) in
        let (there, below, greatest) = laws.prev_at db first k back in
        let (above, least) = laws.set_range_at db seek first f in
        (
          there,
          not_true (bytes_le seek k) (λ h. ground (arith, below, least k there h)),
          λ x px h. greatest x px (
              not_true (bytes_le first x)
                (λ g. ground (arith, h, bytes_le_trans seek first x above g))),
        )
    | inr (inl f) ↦
        let final : mdb.last db ≡ at_key k = ground (arith, e, f) in
        let (there, greatest) = laws.last_at db k final in
        (there, laws.set_range_end db seek f k there, λ x px h. greatest x px)
    | inr (inr f) ↦ absurd (ground (arith, e, f))
  ]
    where
      not_true : (b : Bool) → (b ≢ true) → b ≡ false
      not_true true h = absurd (h refl)
      not_true false h = refl

  -- A table with an entry in front of the sought key has a last one, if no call fails.
  pub tip_entry_there :
      (db : mdb.Db) (seek x : List ℕ)
      → tip_entry mdb db seek ≢ seek_failed
      → Present mdb db x
      → bytes_le seek x ≡ false
      → (k : List ℕ) × (tip_entry mdb db seek ≡ at_key k)
  unfolding tip_entry
  tip_entry_there db seek x works (v, there) h = elim (Sought-cases (tip_entry mdb db seek)) [
    | inl (k, e) ↦ (k, e)
    | inr (inr e) ↦ absurd (works e)
    | inr (inl e) ↦ elim (Sought-cases (mdb.set_range db seek)) [
      | inl (first, f) ↦
          let back : mdb.prev db first ≡ past_end = ground (arith, e, f) in
          let (above, least) = laws.set_range_at db seek first f in
          let g = laws.prev_end db first back x (v, there) in
          absurd (ground (arith, h, bytes_le_trans seek first x above g))
      | inr (inl f) ↦
          let final : mdb.last db ≡ past_end = ground (arith, e, f) in
          absurd (ground (arith, there, laws.last_end db final x))
      | inr (inr f) ↦ absurd (works (ground (arith, f)))
    ]
  ]

  branch_tip_index_at :
      (s : Databases mdb) (uid : UserId) (leaf : ℕ) (k : List ℕ)
      → mdb.begins s.blocks ≡ true
      → mdb.opens_cursor s.blocks ≡ true
      → tip_entry mdb s.blocks (seek_key uid leaf) ≡ at_key k
      → branch_tip_index mdb s uid leaf ≡ tip_of_key uid leaf k
  unfolding branch_tip_index
  branch_tip_index_at s uid leaf k begun opened e = rw (begun, opened, e) refl

  -- A branch with a block, none of the table being at the reserved index 2 ^ 32 - 1, has a tip if
  -- no call of LMDB fails: the greatest index of its blocks.
  pub branch_tip_index-greatest :
      (s : Databases mdb) (uid : UserId) (leaf j : ℕ)
      → IsFilled s.blocks
      → length uid ≡ 32
      → mdb.begins s.blocks ≡ true
      → mdb.opens_cursor s.blocks ≡ true
      → tip_entry mdb s.blocks (seek_key uid leaf) ≢ seek_failed
      → j < 0xffff_ffff
      → Present mdb s.blocks (node_key uid leaf ++ be32 j)
      → (tip : ℕ) × (branch_tip_index mdb s uid leaf ≡ some tip)
        × Present mdb s.blocks (node_key uid leaf ++ be32 tip)
        × ((i : ℕ) → i < 0xffff_ffff → Present mdb s.blocks (node_key uid leaf ++ be32 i) → i ≤ tip)
  branch_tip_index-greatest s uid leaf j filled l begun opened works h there =
      let below = below_seek uid leaf l in
      let (k, e) = tip_entry_there s.blocks (seek_key uid leaf) _ works there (below j h) in
      let (pk, before, last) = tip_entry_last s.blocks (seek_key uid leaf) k e in
      let (a, w, small, key) = filled.each k pk in
      let same =
        same_branch uid leaf l a j w h (rw (← key) (last _ there (below j h)))
          (rw (← key) before) in
      let prefix : node_key a.user_id a.node_index ≡ node_key uid leaf =
        (bytes_eq_iff _ _).0 same in
      let whole : k ≡ node_key uid leaf ++ be32 a.block_index =
        key ∙ block_key_branch a ∙ (λ t. prefix t ++ be32 a.block_index) in
      let found : tip_of_key uid leaf (block_key a) ≡ some a.block_index =
        tip_of_key-block_key a uid leaf w l ∙ rw same refl in
      (
        a.block_index,
        branch_tip_index_at s uid leaf k begun opened e ∙ rw key found,
        rw (← whole) pk,
        λ i hi pi.
            let up : bytes_le (node_key uid leaf ++ be32 i)
                  (node_key uid leaf ++ be32 a.block_index)
                ≡ true =
              rw (← whole) (last _ pi (below i hi)) in
            let order = branch_le (node_key uid leaf) i a.block_index (omega (arith, hi)) w.block in
            ground (arith, up, order),
      )
