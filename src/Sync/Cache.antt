-- ===== src/Sync/Cache.antt =====
-- modules/sync/include/sync/participant_cache.h and modules/sync/src/participant_cache.cpp: the
-- cache in memory (`persist_` is null). The two `unordered_map`s are lists of pairs.
use free_labour_common_will.Base.{
  ℕ, zero, suc, ◌+◌, ◌*◌, List, [], ◌∷◌, length, Option, none, some, if◌then◌else◌, true, false,
  bytes_eq, bytes_le, Table, find, assign,
}
use free_labour_common_will.Types.{Hash, Node, Block, BranchTipInfo, ExternalRef}
use free_labour_common_will.Types.Outcome.{Result, ok, ◌>>=◌}
use free_labour_common_will.Types.Packets.{Proof, MergeSnapshot, FraudProofData}
use free_labour_common_will.Crypto.{Sodium}
use free_labour_common_will.Merkle.{leaf_hash, combine, cons_step, no_steps}
use free_labour_common_will.Serializer.Encode.{enc_fraud_proof}
use free_labour_common_will.Serializer.Decode.{decode, dec_fraud_proof}

pub record LeafRecord : Type 0 where
  pub ref : ExternalRef
  pub node_path : List Node
  pub evidence : Block

pub record Composition : Type 0 where
  pub left_child : Hash
  pub right_child : Hash

pub record ParticipantCache : Type 0 where
  pub leaves : Table LeafRecord
  pub compositions : Table Composition

abbrev pub empty_cache : ParticipantCache
empty_cache = record { leaves = []; compositions = [] }

-- A leaf record is stored as a fraud proof without Merkle steps.
unfoldable pub encode_leaf_record : LeafRecord → List ℕ
encode_leaf_record r = enc_fraud_proof (record {
  leaf = r.ref;
  merkle_path = no_steps;
  node_path = r.node_path;
  evidence = r.evidence;
})

unfoldable pub decode_leaf_record : List ℕ → Result LeafRecord
decode_leaf_record bytes = decode dec_fraud_proof bytes >>= λ p.
    ok (record { ref = p.leaf; node_path = p.node_path; evidence = p.evidence })

unfoldable pub get_leaf : ParticipantCache → Hash → Option LeafRecord
get_leaf cache key = find cache.leaves key

unfoldable pub get_composition : ParticipantCache → Hash → Option Composition
get_composition cache parent_root = find cache.compositions parent_root

-- `parent_of`, the newest entry first, and `stack`, its top first.
pub record Visit : Type 0 where
  pub parent_of : Table Hash
  pub stack : List Hash

-- `if (parent_of.emplace(child, cur).second) stack.push_back(child);`
unfoldable pub visit_child : Hash → Hash → Visit → Visit
visit_child cur child v = elim (find v.parent_of child) [
  | some parent ↦ v
  | none ↦ record { parent_of = (child, cur) ∷ v.parent_of; stack = child ∷ v.stack }
]

-- `for (const Hash& child : {left_child, right_child}) …`
unfoldable pub visit_children : Hash → Composition → Visit → Visit
unfolding visit_child
visit_children cur comp v = visit_child cur comp.right_child (visit_child cur comp.left_child v)

-- The search down from the target: `parent_of` once the leaf is met. Every round takes a hash off
-- the stack, and a child enters it once.
unfoldable pub explore : ℕ → Table Composition → Hash → Visit → Option (Table Hash)
unfolding visit_children
explore zero compositions leaf v = none
explore (suc fuel) compositions leaf v = elim v.stack [
  | [] ↦ none
  | cur ∷ rest ↦
      let popped : Visit = record { parent_of = v.parent_of; stack = rest } in
      let on : Option (Table Hash) = elim (find compositions cur) [
        | none ↦ explore fuel compositions leaf popped
        | some comp ↦ explore fuel compositions leaf (visit_children cur comp popped)
      ] in
      if bytes_eq cur leaf then some v.parent_of else on
]

-- What `cur`'s parent adds to the path.
unfoldable pub add_sibling : Hash → Composition → Proof → Proof
add_sibling cur comp up =
    if bytes_eq cur comp.left_child
    then cons_step comp.right_child true up
    else cons_step comp.left_child false up

-- The walk back up to the target. `none` is `std::out_of_range` of `at`.
unfoldable pub walk_up : ℕ → Table Composition → Table Hash → Hash → Hash → Option Proof
unfolding add_sibling
walk_up zero compositions parent_of target cur = none
walk_up (suc fuel) compositions parent_of target cur =
    let on : Option Proof = elim (find parent_of cur) [
      | none ↦ none
      | some parent ↦ elim (find compositions parent) [
        | none ↦ none
        | some comp ↦ elim (walk_up fuel compositions parent_of target parent) [
          | none ↦ none
          | some up ↦ some (add_sibling cur comp up)
        ]
      ]
    ] in
    if bytes_eq cur target then some no_steps else on

unfoldable pub merkle_path : ParticipantCache → Hash → Hash → Option Proof
unfolding explore walk_up
merkle_path cache target_root leaf =
    let start : Visit = record { parent_of = []; stack = target_root ∷ [] } in
    let fuel = 2 * length cache.compositions + 2 in
    let search : Option Proof = elim (explore fuel cache.compositions leaf start) [
      | none ↦ none
      | some parent_of ↦
          walk_up (length parent_of + 1) cache.compositions parent_of target_root leaf
    ] in
    if bytes_eq target_root leaf then some no_steps else search

unfoldable pub build_proof : ParticipantCache → Hash → Hash → Option FraudProofData
unfolding get_leaf merkle_path
build_proof cache target_root leaf = elim (get_leaf cache leaf) [
  | none ↦ none
  | some r ↦ elim (merkle_path cache target_root leaf) [
    | none ↦ none
    | some path ↦ some (record {
      leaf = r.ref;
      merkle_path = path;
      node_path = r.node_path;
      evidence = r.evidence;
    })
  ]
]

unfoldable pub build_proof_bytes : ParticipantCache → Hash → Hash → Option (List ℕ)
unfolding build_proof
build_proof_bytes cache target_root leaf = elim (build_proof cache target_root leaf) [
  | none ↦ none
  | some proof ↦ some (enc_fraud_proof proof)
]

module _ (na : Sodium) where
  unfoldable pub put_leaf : ParticipantCache → LeafRecord → ParticipantCache × Hash
  put_leaf cache r =
      let key = leaf_hash na r.ref in
      (record { leaves = assign cache.leaves key r; compositions = cache.compositions }, key)

  -- The smaller root is the left child.
  unfoldable pub ordered : Hash → Hash → Composition
  ordered a b =
      if bytes_le a b
      then record { left_child = a; right_child = b }
      else record { left_child = b; right_child = a }

  unfoldable pub put_composition : ParticipantCache → Hash → Hash → ParticipantCache × Hash
  unfolding ordered
  put_composition cache a b =
      let comp = ordered a b in
      let parent = combine na comp.left_child comp.right_child in
      (
        record { leaves = cache.leaves; compositions = assign cache.compositions parent comp },
        parent,
      )

  -- `put_leaf_if_fresh`.
  unfoldable pub put_leaf_if_fresh :
      ParticipantCache → BranchTipInfo → MergeSnapshot → ParticipantCache
  unfolding put_leaf
  put_leaf_if_fresh cache tip snapshot = elim tip.tip_block [
    | none ↦ cache
    | some tip_block ↦
        let ref : ExternalRef = record { address = tip.tip_address; block_hash = tip.tip_hash } in
        let r : LeafRecord = record { ref = ref; node_path = tip.path; evidence = tip_block } in
        if bytes_eq (leaf_hash na ref) snapshot.merkle_root then (put_leaf cache r).0 else cache
  ]

  unfoldable pub record_merge :
      ParticipantCache
      → BranchTipInfo
      → MergeSnapshot
      → BranchTipInfo
      → MergeSnapshot
      → ParticipantCache × Hash
  unfolding put_leaf_if_fresh put_composition
  record_merge cache own_tip own_snapshot partner_tip partner_snapshot =
      let own = put_leaf_if_fresh cache own_tip own_snapshot in
      let both = put_leaf_if_fresh own partner_tip partner_snapshot in
      put_composition both own_snapshot.merkle_root partner_snapshot.merkle_root
