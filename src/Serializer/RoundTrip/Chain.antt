-- ===== src/Serializer/RoundTrip/Chain.antt =====
-- The round trip of addresses, references, nodes, blocks and seals.
use free_labour_common_will.Base.{ℕ, ◌+◌, ◌^◌, ◌<◌, ◌≡◌, refl, List, ◌++◌, length, none, arith}
use free_labour_common_will.Types.{
  BlockAddress, ExternalRef, Node, Block, Seal, BlockType, SealMode, data_block, merge,
  key_rotation, revocation, unnamed, blind, open_mode, unnamed_mode, type_code, mode_code,
}
use free_labour_common_will.Types.Outcome.{ok}
use free_labour_common_will.Serializer.Encode.{
  enc_address, enc_ext_ref, enc_node, enc_block, enc_seal,
}
use free_labour_common_will.Serializer.Reader.{M}
use free_labour_common_will.Serializer.Decode.{
  dec_address, dec_ext_ref, dec_node, dec_block, dec_seal, decode, block_type, seal_mode, max_refs,
}
use free_labour_common_will.Serializer.Reads.{
  Reads, Reads-bind, Reads-field, Reads-list_field, Reads-pure, Reads-uint, Reads-fields, Reads-int,
  Reads-fixed, Reads-bytes, Reads-list,
}
use free_labour_common_will.Serializer.RoundTrip.Wellformed.{
  IsAddress, IsExternalRef, IsNode, IsBlock, IsSeal, IsBlockType, IsSealMode,
}

small : {n : ℕ} → n < 2 ^ 32 → n < 2 ^ 64
small h = omega arith

pub Reads-address : (a : BlockAddress) → IsAddress a → Reads dec_address (enc_address a) a
unfolding dec_address enc_address
Reads-address a w = Reads-bind _ _ (Reads-fields 3 (omega arith)) (
    Reads-field 0 _ _ (omega arith) (Reads-fixed w.user (omega arith)) (
      Reads-field 1 _ _ (omega arith) (Reads-uint a.node_index (small w.node)) (
        Reads-field 2 _ _ (omega arith) (Reads-uint a.block_index (small w.block))
          (Reads-pure (ground arith)))))

pub Reads-ext_ref : (r : ExternalRef) → IsExternalRef r → Reads dec_ext_ref (enc_ext_ref r) r
unfolding dec_ext_ref enc_ext_ref
Reads-ext_ref r w = Reads-bind _ _ (Reads-fields 2 (omega arith)) (
    Reads-field 0 _ _ (omega arith) (Reads-address r.address w.address)
      (Reads-field 1 _ _ (omega arith) (Reads-fixed w.hash (omega arith)) (Reads-pure refl)))

pub Reads-node : (n : Node) → IsNode n → Reads dec_node (enc_node n) n
unfolding dec_node enc_node
Reads-node n w = Reads-bind _ _ (Reads-fields 6 (omega arith)) (
    Reads-field 0 _ _ (omega arith) (Reads-uint n.index (small w.index)) (
      Reads-field 1 _ _ (omega arith) (Reads-fixed w.structural (omega arith)) (
        Reads-field 2 _ _ (omega arith) (Reads-fixed w.working (omega arith)) (
          Reads-field 3 _ _ (omega arith) (Reads-fixed w.parent (omega arith)) (
            Reads-field 4 _ _ (omega arith) (Reads-fixed w.sig (omega arith)) (
              Reads-field 5 _ _ (omega arith) (Reads-int n.created_at w.created)
                (Reads-pure (let i = w.index in ground arith))))))))

type_code-lt : (t : BlockType) → IsBlockType t → type_code t < 2 ^ 64
type_code-lt data_block w = omega arith
type_code-lt merge w = omega arith
type_code-lt key_rotation w = omega arith
type_code-lt revocation w = omega arith
type_code-lt (unnamed c) w = omega arith

block_type-type_code : (t : BlockType) → IsBlockType t → block_type (type_code t) ≡ t
block_type-type_code data_block w = refl
block_type-type_code merge w = refl
block_type-type_code key_rotation w = refl
block_type-type_code revocation w = refl
block_type-type_code (unnamed c) w = ground arith

mode_code-lt : (m : SealMode) → IsSealMode m → mode_code m < 2 ^ 64
mode_code-lt blind w = omega arith
mode_code-lt open_mode w = omega arith
mode_code-lt (unnamed_mode c) w = omega arith

seal_mode-mode_code : (m : SealMode) → IsSealMode m → seal_mode (mode_code m) ≡ m
seal_mode-mode_code blind w = refl
seal_mode-mode_code open_mode w = refl
seal_mode-mode_code (unnamed_mode c) w = ground arith

-- The value that `decode` of `encode` gives: the co-signature is not written.
abbrev pub unsigned_by_partner : Block → Block
unsigned_by_partner b = record b { co_signature = none }

with_kind :
    (b : Block)
    → block_type (type_code b.kind) ≡ b.kind
    → record b { kind = block_type (type_code b.kind); co_signature = none } ≡ unsigned_by_partner b
with_kind b e = rw e

pub Reads-block : (b : Block) → IsBlock b → Reads dec_block (enc_block b) (unsigned_by_partner b)
unfolding dec_block enc_block
Reads-block b w = Reads-bind _ _ (Reads-fields 7 (omega arith)) (
    Reads-field 0 _ _ (omega arith) (Reads-address b.address w.address) (
      Reads-field 1 _ _ (omega arith) (Reads-fixed w.prev (omega arith)) (
        Reads-field 2 _ _ (omega arith) (Reads-int b.timestamp_claimed w.time) (
          Reads-field 3 _ _ (omega arith)
            (Reads-uint (type_code b.kind) (type_code-lt b.kind w.kind))
            (Reads-field 4 _ _ (omega arith) (Reads-bytes b.payload w.payload) (
              Reads-list_field 5 _ _ _ _ (omega arith)
                (Reads-list max_refs dec_ext_ref enc_ext_ref IsExternalRef Reads-ext_ref
                  b.external_refs w.refs w.ref_count (omega arith))
                (Reads-field 6 _ _ (omega arith) (Reads-fixed w.sig (omega arith))
                  (Reads-pure (with_kind b (block_type-type_code b.kind w.kind))))))))))

with_mode :
    (s : Seal)
    → seal_mode (mode_code s.mode) ≡ s.mode
    → record s { mode = seal_mode (mode_code s.mode) } ≡ s
with_mode s e = rw e

pub Reads-seal : (s : Seal) → IsSeal s → Reads dec_seal (enc_seal s) s
unfolding dec_seal enc_seal
Reads-seal s w = Reads-bind _ _ (Reads-fields 5 (omega arith)) (
    Reads-field 0 _ _ (omega arith) (Reads-fixed w.signer (omega arith)) (
      Reads-field 1 _ _ (omega arith) (Reads-fixed w.hash (omega arith)) (
        Reads-field 2 _ _ (omega arith) (Reads-fixed w.sig (omega arith)) (
          Reads-field 3 _ _ (omega arith)
            (Reads-uint (mode_code s.mode) (mode_code-lt s.mode w.mode))
            (Reads-field 4 _ _ (omega arith) (Reads-int s.sealed_at w.sealed)
              (Reads-pure (with_mode s (seal_mode-mode_code s.mode w.mode))))))))

-- On a whole buffer, with any bytes behind the value.
pub decode-Reads :
    {A : Type 0} {p : M A} {bs : List ℕ} {x : A} (tl : List ℕ)
    → Reads p bs x
    → length bs + length tl < 2 ^ 64
    → decode p (bs ++ tl) ≡ ok x
unfolding decode
decode-Reads tl h k = rw (h.run 0 tl (omega arith), decode)
