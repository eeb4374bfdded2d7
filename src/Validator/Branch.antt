-- ===== src/Validator/Branch.antt =====
-- `validate_branch` and `branch_revocation_status`. A branch has at most 2 ^ 32 - 1 blocks, since the
-- largest index marks an empty branch, so the counter of the loops does not wrap around.
use free_labour_common_will.Base.{
  ℕ, zero, suc, ◌+◌, ℤ, List, [], ◌∷◌, leb, not, ◌&&◌, if◌then◌else◌, Bool, true, false, Option,
  none, some, int64_min, ltb_ℤ, take, length,
}
use free_labour_common_will.Types.{UserId, PublicKey, Hash, Node, Block, key_rotation, type_eq}
use free_labour_common_will.Types.Outcome.{
  Result, ok, err, guard, ◌>>=◌, ◌>>◌, signature_error, timestamp_error,
}
use free_labour_common_will.Crypto.{Sodium, hash_node, hash_block}
use free_labour_common_will.Signing.{block_signed_by}
use free_labour_common_will.Storage.{IStorage}
use free_labour_common_will.Validator.State.{
  RevocationState, active, frozen, replaced, BlockRevocationStatus, clean, suspect,
  invalid_after_replacement, BranchRevocationStatus,
}
use free_labour_common_will.Validator.Nodes.{validate_block}
use free_labour_common_will.Validator.Records.{effective_revocation}

-- A KEY_ROTATION block with 32 bytes or more gives the new working key.
unfoldable pub next_key_after : Block → PublicKey → PublicKey
next_key_after b key =
    if type_eq b.kind key_rotation && leb 32 (length b.payload) then take 32 b.payload else key

abbrev pub replacement_of : Option RevocationState → Option PublicKey
replacement_of none = none
replacement_of (some st) = st.replacement_pubkey

-- `b.timestamp_claimed > compromised_since` under a revocation.
abbrev pub is_suspect : Option RevocationState → Block → Bool
is_suspect none b = false
is_suspect (some st) b = ltb_ℤ st.compromised_since b.timestamp_claimed

-- The local variables of the loop of `validate_branch`.
pub record Cursor : Type 0 where
  pub prev_hash : Hash
  pub work_key : PublicKey
  pub prev_ts : ℤ
  pub switched : Bool

-- The local variables of the loop of `branch_revocation_status`.
pub record Lineages : Type 0 where
  pub lineage : PublicKey
  pub current : PublicKey
  pub switched : Bool

module _ (na : Sodium) where
  -- The handler of `SignatureError`: the first use of the replacement switches the key.
  unfoldable pub take_over : Block → Hash → Bool → Option PublicKey → Result (PublicKey × Bool)
  take_over b prev true repl = err signature_error
  take_over b prev false none = err signature_error
  take_over b prev false (some key) = do validate_block na b prev key; ok (key, true)

  abbrev or_take_over :
      Result (Unit {0}) → PublicKey × Bool → Result (PublicKey × Bool) → Result (PublicKey × Bool)
  or_take_over (ok u) same handler = ok same
  or_take_over (err signature_error) same handler = handler
  or_take_over (err e) same handler = err e

  -- The `try` and its handler: the key that signed the block, and whether it has been switched.
  unfoldable pub signing_key :
      Option PublicKey → Hash → PublicKey → Bool → Block → Result (PublicKey × Bool)
  signing_key repl prev work switched b =
      or_take_over (validate_block na b prev work) (work, switched) (take_over b prev switched repl)

  -- One round of the loop.
  unfoldable pub check_next : Option PublicKey → Cursor → Block → Result Cursor
  check_next repl c b = do
    (key, switched) ← signing_key repl c.prev_hash c.work_key c.switched b
    guard (not (ltb_ℤ b.timestamp_claimed c.prev_ts)) timestamp_error
    ok (record {
      prev_hash = hash_block na b;
      work_key = next_key_after b key;
      prev_ts = b.timestamp_claimed;
      switched = switched;
    })

  -- The rounds of that loop over blocks that have been read.
  unfoldable pub check_all : Option PublicKey → Cursor → List Block → Result Cursor
  check_all repl c [] = ok c
  check_all repl c (b ∷ rest) = do c' ← check_next repl c b; check_all repl c' rest

  -- One round of the loop of `branch_revocation_status`.
  unfoldable pub classify :
      Option RevocationState → Lineages → Block → Result (Lineages × BlockRevocationStatus)
  classify rev l b =
      if not l.switched
      then (if block_signed_by na b l.lineage
          then ok (
            record l { lineage = next_key_after b l.lineage },
            if is_suspect rev b then suspect else clean,
          )
          else elim (replacement_of rev) [
            | none ↦ err signature_error
            | some key ↦
                if block_signed_by na b key
                then ok (record l { current = next_key_after b key; switched = true }, clean)
                else err signature_error
          ])
      else (if block_signed_by na b l.current
          then ok (record l { current = next_key_after b l.current }, clean)
          else if block_signed_by na b l.lineage
          then ok (l, invalid_after_replacement)
          else err signature_error)

  unfoldable pub classify_all :
      Option RevocationState
      → Lineages
      → List Block
      → Result (Lineages × List BlockRevocationStatus)
  classify_all rev l [] = ok (l, [])
  classify_all rev l (b ∷ rest) = do
    (l', status) ← classify rev l b
    (last, statuses) ← classify_all rev l' rest
    ok (last, status ∷ statuses)

  -- The verdict behind the loop.
  unfoldable pub conclude :
      Option RevocationState → Lineages → List BlockRevocationStatus → BranchRevocationStatus
  conclude none l statuses = record {
    state = active;
    revocation = none;
    blocks = statuses;
    next_key = some l.lineage;
  }
  conclude (some st) l statuses = elim st.replacement_pubkey [
    | none ↦ record { state = frozen; revocation = some st; blocks = statuses; next_key = none }
    | some key ↦ record {
      state = replaced;
      revocation = some st;
      blocks = statuses;
      next_key = some (if l.switched then l.current else key);
    }
  ]

  module _ (st : IStorage) where
    open st use {Store, get_node, get_block, branch_tip_index}

    -- The blocks from `i` on, `left` of them: `for (i = 0; i <= *tip; ++i) storage_.get_block(…)`.
    unfoldable pub blocks_from : Store → UserId → ℕ → ℕ → ℕ → Result (List Block)
    blocks_from s uid node i zero = ok []
    blocks_from s uid node i (suc left) = do
      b ← get_block s (record { user_id = uid; node_index = node; block_index = i })
      rest ← blocks_from s uid node (i + 1) left
      ok (b ∷ rest)

    abbrev pub rounds : Option ℕ → ℕ
    rounds none = 0
    rounds (some tip) = tip + 1

    -- The loop of `validate_branch`, which reads a block and checks it in each round.
    unfoldable pub check_from :
        Store → UserId → ℕ → Option PublicKey → Cursor → ℕ → ℕ → Result Cursor
    check_from s uid node repl c i zero = ok c
    check_from s uid node repl c i (suc left) = do
      b ← get_block s (record { user_id = uid; node_index = node; block_index = i })
      c' ← check_next repl c b
      check_from s uid node repl c' (i + 1) left

    unfoldable pub check_branch : Store → UserId → ℕ → Node → Option ℕ → Result (Unit {0})
    check_branch s uid node leaf none = ok tt
    check_branch s uid node leaf (some tip) = do
      rev ← effective_revocation na st s uid node
      c ←
          check_from s uid node (replacement_of rev)
            (record {
              prev_hash = hash_node na leaf;
              work_key = leaf.working_pubkey;
              prev_ts = int64_min;
              switched = false;
            })
            0 (tip + 1)
      ok tt

    unfoldable pub validate_branch : Store → UserId → ℕ → Result (Unit {0})
    validate_branch s uid node = do
      leaf ← get_node s uid node
      check_branch s uid node leaf (branch_tip_index s uid node)

    -- The loop of `branch_revocation_status`.
    unfoldable pub classify_from :
        Store
        → UserId
        → ℕ
        → Option RevocationState
        → Lineages
        → ℕ
        → ℕ
        → Result (Lineages × List BlockRevocationStatus)
    classify_from s uid node rev l i zero = ok (l, [])
    classify_from s uid node rev l i (suc left) = do
      b ← get_block s (record { user_id = uid; node_index = node; block_index = i })
      (l', status) ← classify rev l b
      (last, statuses) ← classify_from s uid node rev l' (i + 1) left
      ok (last, status ∷ statuses)

    unfoldable pub branch_revocation_status : Store → UserId → ℕ → Result BranchRevocationStatus
    branch_revocation_status s uid node = do
      rev ← effective_revocation na st s uid node
      n ← get_node s uid node
      (l, statuses) ←
          classify_from s uid node rev
            (record { lineage = n.working_pubkey; current = n.working_pubkey; switched = false }) 0
            (rounds (branch_tip_index s uid node))
      ok (conclude rev l statuses)
