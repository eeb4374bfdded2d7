-- ===== src/Serializer/Decode.antt =====
-- The decoders of serializer.cpp, lines 315 to 475. The limits of `reserve` are
-- `PTRDIFF_MAX / sizeof` of the elements on a 64-bit Linux target.
use free_labour_common_will.Base.{
  ℕ, zero, suc, ◌-◌, ◌/◌, ◌%◌, ◌^◌, List, [], ◌∷◌, ltb, ◌==◌, if◌then◌else◌, Bool, not, Option,
  none, some, ◌||◌,
}
use free_labour_common_will.Types.{
  BlockAddress, ExternalRef, Node, Block, Seal, MergePayload, RevocationPayload, BranchTipInfo,
  BlockType, SealMode, data_block, merge, key_rotation, revocation, unnamed, blind, open_mode,
  unnamed_mode,
}
use free_labour_common_will.Types.Outcome.{Result, ok, err, serialization_error}
use free_labour_common_will.Types.Packets.{
  Proof, MergeSnapshot, FraudProofData, RevocationCertificate, KeyPath, registers,
}
use free_labour_common_will.Serializer.Reader.{
  M, ◌>>=◌, ◌>>◌, pure, check, reserve, r_uint, r_map, r_arr, r_int, r_fixed, r_bytes,
  r_bytes_exact,
}

-- `static_cast<uint32_t>` and the cast to a `uint8_t` enumeration.
abbrev pub u32 : ℕ → ℕ
u32 v = v % 2 ^ 32

abbrev pub block_type : ℕ → BlockType
block_type v =
    if v % 256 == 0
    then data_block
    else if v % 256 == 1
    then merge
    else if v % 256 == 2
    then key_rotation
    else if v % 256 == 3
    then revocation
    else unnamed (v % 256)

abbrev pub seal_mode : ℕ → SealMode
seal_mode v =
    if v % 256 == 0 then blind else if v % 256 == 1 then open_mode else unnamed_mode (v % 256)

abbrev pub max_refs : ℕ
max_refs = (2 ^ 63 - 1) / 72

abbrev pub max_nodes : ℕ
max_nodes = (2 ^ 63 - 1) / 176

abbrev pub max_blocks : ℕ
max_blocks = (2 ^ 63 - 1) / 272

abbrev pub max_hashes : ℕ
max_hashes = (2 ^ 63 - 1) / 32

-- `std::vector<bool>` counts whole words of bits.
abbrev pub max_flags : ℕ
max_flags = 2 ^ 63 - 64

-- `for (uint64_t i = 0; i < n; ++i) out.push_back(dec(r));`
unfoldable pub repeat : {A : Type 0} → ℕ → M A → M (List A)
repeat zero dec = pure []
repeat (suc n) dec = do x ← dec; xs ← repeat n dec; pure (x ∷ xs)

unfoldable pub expect_map : ℕ → M (Unit {0})
expect_map n = do m ← r_map; check (m == n) serialization_error

unfoldable pub expect_key : ℕ → M (Unit {0})
expect_key k = do v ← r_uint; check (v == k) serialization_error

-- An array: its count, the room for it, and its elements.
unfoldable pub dec_list : {A : Type 0} → ℕ → M A → M (List A)
dec_list limit dec = do n ← r_arr; reserve limit n; repeat n dec

unfoldable pub dec_address : M BlockAddress
dec_address = do
  expect_map 3
  expect_key 0
  uid ← r_fixed 32
  expect_key 1
  node ← r_uint
  expect_key 2
  block ← r_uint
  pure (record { user_id = uid; node_index = u32 node; block_index = u32 block })

unfoldable pub dec_ext_ref : M ExternalRef
dec_ext_ref = do
  expect_map 2
  expect_key 0
  a ← dec_address
  expect_key 1
  h ← r_fixed 32
  pure (record { address = a; block_hash = h })

unfoldable pub dec_node : M Node
dec_node = do
  expect_map 6
  expect_key 0
  i ← r_uint
  expect_key 1
  s ← r_fixed 32
  expect_key 2
  w ← r_fixed 32
  expect_key 3
  h ← r_fixed 32
  expect_key 4
  sig ← r_fixed 64
  expect_key 5
  t ← r_int
  pure (record {
    index = u32 i;
    structural_pubkey = s;
    working_pubkey = w;
    parent_hash = h;
    parent_sig = sig;
    created_at = t;
  })

unfoldable pub dec_block : M Block
dec_block = do
  expect_map 7
  expect_key 0
  a ← dec_address
  expect_key 1
  h ← r_fixed 32
  expect_key 2
  t ← r_int
  expect_key 3
  k ← r_uint
  expect_key 4
  p ← r_bytes
  expect_key 5
  refs ← dec_list max_refs dec_ext_ref
  expect_key 6
  sig ← r_fixed 64
  pure (record {
    address = a;
    prev_hash = h;
    timestamp_claimed = t;
    kind = block_type k;
    payload = p;
    external_refs = refs;
    signature = sig;
    co_signature = none;
  })

unfoldable pub dec_seal : M Seal
dec_seal = do
  expect_map 5
  expect_key 0
  s ← r_fixed 32
  expect_key 1
  h ← r_fixed 32
  expect_key 2
  sig ← r_fixed 64
  expect_key 3
  m ← r_uint
  expect_key 4
  t ← r_int
  pure
      (record { signer_id = s; block_hash = h; signature = sig; mode = seal_mode m; sealed_at = t })

unfoldable pub dec_merge_payload : M MergePayload
dec_merge_payload = do
  expect_map 6
  expect_key 0
  a ← dec_address
  expect_key 1
  h ← r_fixed 32
  expect_key 2
  t ← r_int
  expect_key 3
  root ← r_fixed 32
  expect_key 4
  hll ← r_fixed 32
  expect_key 5
  depth ← r_uint
  pure (record {
    partner_last_address = a;
    partner_last_hash = h;
    merge_timestamp = t;
    merkle_root = root;
    hll_hash = hll;
    validated_depth = u32 depth;
  })

unfoldable pub dec_replacement : ℕ → M (Option (List ℕ))
dec_replacement n = if n == 4 then (do expect_key 3; k ← r_fixed 32; pure (some k)) else pure none

unfoldable pub dec_revocation_payload : M RevocationPayload
dec_revocation_payload = do
  n ← r_map
  check (n == 3 || n == 4) serialization_error
  expect_key 0
  i ← r_uint
  expect_key 1
  k ← r_fixed 32
  expect_key 2
  t ← r_int
  repl ← dec_replacement n
  pure (record {
    revoked_node_index = u32 i;
    revoked_pubkey = k;
    compromised_since = t;
    replacement_pubkey = repl;
  })

unfoldable pub dec_revocation_cert : M RevocationCertificate
dec_revocation_cert = do
  expect_map 2
  expect_key 0
  b ← dec_block
  expect_key 1
  path ← dec_list max_nodes dec_node
  pure (record { block = b; path = path })

unfoldable pub dec_rotations : ℕ → M (List Block)
dec_rotations fields =
    if ltb 1 fields then (do expect_key 1; dec_list max_blocks dec_block) else pure []

unfoldable pub dec_key_path : M KeyPath
dec_key_path = do
  fields ← r_map
  check (not (ltb fields 1 || ltb 2 fields)) serialization_error
  expect_key 0
  path ← dec_list max_nodes dec_node
  rotations ← dec_rotations fields
  pure (record { path = path; rotations = rotations })

abbrev pub dec_flag : M Bool
dec_flag = do v ← r_uint; pure (not (v == 0))

unfoldable pub dec_merkle_proof : M Proof
dec_merkle_proof = do
  expect_map 2
  expect_key 0
  path ← dec_list max_hashes (r_fixed 32)
  expect_key 1
  flags ← dec_list max_flags dec_flag
  pure (record { path = path; sibling_is_right = flags })

unfoldable pub dec_fraud_proof : M FraudProofData
dec_fraud_proof = do
  expect_map 4
  expect_key 0
  leaf ← dec_ext_ref
  expect_key 1
  proof ← dec_merkle_proof
  expect_key 2
  path ← dec_list max_nodes dec_node
  expect_key 3
  evidence ← dec_block
  pure (record { leaf = leaf; merkle_path = proof; node_path = path; evidence = evidence })

unfoldable pub dec_snapshot : M MergeSnapshot
dec_snapshot = do
  expect_map 2
  expect_key 0
  root ← r_fixed 32
  expect_key 1
  regs ← r_bytes_exact registers
  pure (record { merkle_root = root; hll = regs })

-- A decoder on a whole buffer; bytes behind the value are not looked at.
unfoldable pub decode : {A : Type 0} → M A → List ℕ → Result A
decode dec bytes = elim (dec (record { at = 0; rest = bytes })) [ err e ↦ err e | ok (a, r) ↦ ok a ]

-- The tip block, from its byte string with a reader of its own.
unfoldable pub dec_tip_block : List ℕ → M (Option Block)
dec_tip_block [] r = ok (none, r)
dec_tip_block (b ∷ bs) r = elim (decode dec_block (b ∷ bs)) [
  | err e ↦ err e
  | ok t ↦ ok (some t, r)
]

unfoldable pub dec_tip : M BranchTipInfo
dec_tip = do
  expect_map 4
  expect_key 0
  a ← dec_address
  expect_key 1
  h ← r_fixed 32
  expect_key 2
  path ← dec_list max_nodes dec_node
  expect_key 3
  bytes ← r_bytes
  tip ← dec_tip_block bytes
  pure (record { tip_address = a; tip_hash = h; path = path; tip_block = tip })
