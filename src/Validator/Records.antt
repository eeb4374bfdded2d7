-- ===== src/Validator/Records.antt =====
-- `collect_revocations` and `effective_revocation`: the revocation records that count for a node.
-- An author stands above the node that it revokes, so its index is smaller: as much fuel as the
-- node's index covers the recursion.
use free_labour_common_will.Base.{
  ℕ, zero, suc, List, [], ◌∷◌, ◌==◌, ltb, not, ◌&&◌, if◌then◌else◌, Bool, true, false, Option, none,
  some, int64_max, min_ℤ, ltb_ℤ,
}
use free_labour_common_will.Types.{
  UserId, PublicKey, Block, BlockAddress, RevocationPayload, revocation, type_eq,
}
use free_labour_common_will.Types.Outcome.{Result, ok, err, ◌>>=◌, serialization_error}
use free_labour_common_will.Types.Tree.{is_ancestor, node_depth}
use free_labour_common_will.Crypto.{Sodium}
use free_labour_common_will.Signing.{block_signed_by}
use free_labour_common_will.Storage.{IStorage}
use free_labour_common_will.Revocation.{decode_revocation_payload}
use free_labour_common_will.Validator.State.{RevocationState}

abbrev pub Found : Type 0
Found = BlockAddress × RevocationPayload

-- The comparison that `std::sort` is given: root-most author first, then branch order.
unfoldable pub precedes : BlockAddress → BlockAddress → Bool
precedes a b =
    if not (node_depth a.node_index == node_depth b.node_index)
    then ltb (node_depth a.node_index) (node_depth b.node_index)
    else if not (a.node_index == b.node_index)
    then ltb a.node_index b.node_index
    else ltb a.block_index b.block_index

-- `std::sort`, as insertion. The records of one node stand at distinct addresses.
unfoldable pub insert_found : Found → List Found → List Found
insert_found x [] = x ∷ []
insert_found x (y ∷ ys) =
    let rest = y ∷ insert_found x ys in if precedes y.0 x.0 then rest else x ∷ y ∷ ys

unfoldable pub sort_found : List Found → List Found
sort_found [] = []
sort_found (x ∷ xs) = insert_found x (sort_found xs)

-- The loop of `effective_revocation` over the records of the winning author.
unfoldable pub fold_winner : ℕ → RevocationState → List Found → RevocationState
fold_winner winner st [] = st
fold_winner winner st ((addr, rp) ∷ rest) =
    fold_winner winner
      (if addr.node_index == winner
        then record {
          compromised_since = min_ℤ st.compromised_since rp.compromised_since;
          replacement_pubkey = rp.replacement_pubkey;
          latest = addr;
        }
        else st)
      rest

unfoldable pub resolve : List Found → Option RevocationState
resolve [] = none
resolve ((addr, rp) ∷ rest) = some (
    fold_winner addr.node_index
      (record { compromised_since = int64_max; replacement_pubkey = none; latest = addr })
      ((addr, rp) ∷ rest))

module _ (na : Sodium) where
  -- Rule 10: whether a record by an author under the revocation `author` counts.
  unfoldable pub signed_by_replacement : Block → Option PublicKey → Bool
  signed_by_replacement b none = false
  signed_by_replacement b (some key) = block_signed_by na b key

  unfoldable pub author_valid : Block → Option RevocationState → Bool
  author_valid b none = true
  author_valid b (some st) = not (
      not (signed_by_replacement b st.replacement_pubkey)
      && ltb_ℤ st.compromised_since b.timestamp_claimed)

  abbrev decoded_for : ℕ → Result RevocationPayload → Result (Option RevocationPayload)
  decoded_for target (ok rp) = ok (if rp.revoked_node_index == target then some rp else none)
  decoded_for target (err serialization_error) = ok none
  decoded_for target (err e) = err e

  -- The payload of a REVOCATION block for `target`; anything else is passed over.
  unfoldable pub record_for : ℕ → Block → Result (Option RevocationPayload)
  record_for target b =
      if not (type_eq b.kind revocation)
      then ok none
      else decoded_for target (decode_revocation_payload b.payload)

  module _ (st : IStorage) where
    open st use {
      Store, get_block, has_block, get_external_block, has_external_block, get_revocation_addresses,
    }

    unfoldable pub fetch : Store → BlockAddress → Result (Option Block)
    fetch s addr =
        if has_block s addr
        then (do b ← get_block s addr; ok (some b))
        else if has_external_block s addr
        then (do b ← get_external_block s addr; ok (some b))
        else ok none

    abbrev keep_valid : Block → RevocationPayload → Option RevocationState → Option Found
    keep_valid b rp author = if author_valid b author then some (b.address, rp) else none

    -- A record of an author that stands above the node; `author` is the author's own state.
    unfoldable pub weigh :
        Store → ℕ → BlockAddress → Result (Option RevocationState) → Result (Option Found)
    weigh s target addr author = fetch s addr >>= λ fetched. elim fetched [
      | none ↦ ok none
      | some b ↦ record_for target b >>= λ found. elim found [
        | none ↦ ok none
        | some rp ↦ do state ← author; ok (keep_valid b rp state)
      ]
    ]

    -- One address of the index. `state_of` gives the effective revocation of an author.
    unfoldable pub examine :
        (ℕ → Result (Option RevocationState)) → Store → ℕ → BlockAddress → Result (Option Found)
    examine state_of s target addr =
        let record_of_author = weigh s target addr (state_of addr.node_index) in
        if not (is_ancestor addr.node_index target) then ok none else record_of_author

    abbrev add_found : Option Found → List Found → List Found
    add_found none rest = rest
    add_found (some f) rest = f ∷ rest

    unfoldable pub examine_all :
        (ℕ → Result (Option RevocationState)) → Store → ℕ → List BlockAddress → Result (List Found)
    examine_all state_of s target [] = ok []
    examine_all state_of s target (a ∷ rest) = do
      f ← examine state_of s target a
      fs ← examine_all state_of s target rest
      ok (add_found f fs)

    unfoldable pub collect_revocations :
        (ℕ → Result (Option RevocationState)) → Store → UserId → ℕ → Result (List Found)
    collect_revocations state_of s uid target = if target == 0 then ok [] else do
      addresses ← get_revocation_addresses s uid target
      found ← examine_all state_of s target addresses
      ok (sort_found found)

    unfoldable pub effective_within : ℕ → Store → UserId → ℕ → Result (Option RevocationState)
    effective_within zero s uid node = ok none
    effective_within (suc fuel) s uid node = do
      found ← collect_revocations (effective_within fuel s uid) s uid node
      ok (resolve found)

    unfoldable pub effective_revocation : Store → UserId → ℕ → Result (Option RevocationState)
    effective_revocation s uid node = effective_within node s uid node
