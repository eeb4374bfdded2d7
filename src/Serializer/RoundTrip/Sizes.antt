-- ===== src/Serializer/RoundTrip/Sizes.antt =====
-- The size of what the writers of serializer.cpp append, and the encodings of two values.
use free_labour_common_will.Base.{
  ℕ, ◌+◌, ◌^◌, ◌<◌, ◌≤◌, ◌≡◌, List, [], ◌∷◌, length, length-append, arith, append-nil, ℤ, pos,
  negsuc,
}
use free_labour_common_will.Types.{BlockAddress, ExternalRef, Block, Node, MergePayload}
use free_labour_common_will.Types.Outcome.{ok}
use free_labour_common_will.Serializer.Writer.{
  write_head, w_uint, w_map, w_bytes, w_fixed, w_int64, emit,
}
use free_labour_common_will.Serializer.Encode.{
  enc_address, enc_ext_ref, enc_node, enc_merge_payload, enc_block,
}
use free_labour_common_will.Serializer.Reader.{M}
use free_labour_common_will.Serializer.Decode.{decode}
use free_labour_common_will.Serializer.Reads.{Reads}
use free_labour_common_will.Serializer.RoundTrip.Wellformed.{
  IsAddress, IsExternalRef, IsNode, IsMergePayload, IsBlock,
}
use free_labour_common_will.Serializer.RoundTrip.Chain.{
  Reads-ext_ref, Reads-node, Reads-block, decode-Reads, unsigned_by_partner,
}

length-write_head : (major v : ℕ) → length (write_head major v) ≤ 9
unfolding write_head
length-write_head major v = ground arith

length-w_uint : (v : ℕ) → length (w_uint v) ≤ 9
unfolding w_uint
length-w_uint v = length-write_head 0 v

length-w_map : (v : ℕ) → length (w_map v) ≤ 9
unfolding w_map
length-w_map v = length-write_head 5 v

length-w_int64 : (v : ℤ) → length (w_int64 v) ≤ 9
unfolding w_int64
length-w_int64 (pos n) = length-write_head 0 n
length-w_int64 (negsuc n) = length-write_head 1 n

length-w_fixed : (bs : List ℕ) → length (w_fixed bs) ≤ 9 + length bs
unfolding w_fixed w_bytes
length-w_fixed bs =
    omega (arith, length-append {0} (write_head 2 (length bs)) bs, length-write_head 2 (length bs))

length-emit_cons :
    (bs : List ℕ) (rest : List (List ℕ))
    → length (emit (bs ∷ rest)) ≡ length bs + length (emit rest)
length-emit_cons bs rest = length-append bs (emit rest)

pub length-enc_address : (a : BlockAddress) → IsAddress a → length (enc_address a) ≤ 200
unfolding enc_address
length-enc_address a w =
    let u = w.user.size in
    omega (arith, length-append {0}, length-w_uint, length-w_map, length-w_fixed)

pub length-enc_ext_ref : (r : ExternalRef) → IsExternalRef r → length (enc_ext_ref r) ≤ 300
unfolding enc_ext_ref
length-enc_ext_ref r w =
    let h = w.hash.size in
    omega (
      arith,
      length-append {0},
      length-w_uint,
      length-w_map,
      length-w_fixed,
      length-enc_address r.address w.address,
    )

pub length-enc_node : (n : Node) → IsNode n → length (enc_node n) ≤ 500
unfolding enc_node
length-enc_node n w = omega (
  arith,
  length-append {0},
  length-w_uint,
  length-w_map,
  length-w_fixed,
  length-w_int64,
  w.structural.size,
  w.working.size,
  w.parent.size,
  w.sig.size,
)

pub length-enc_merge_payload :
    (p : MergePayload) → IsMergePayload p → length (enc_merge_payload p) ≤ 500
unfolding enc_merge_payload
length-enc_merge_payload p w = omega (
  arith,
  length-append {0},
  length-w_uint,
  length-w_map,
  length-w_fixed,
  length-w_int64,
  length-enc_address p.partner_last_address w.address,
  w.hash.size,
  w.root.size,
  w.hll.size,
)

-- One byte string is read as one value.
pub Reads-unique :
    {A : Type 0} {p : M A} {bs cs : List ℕ} {x y : A}
    → Reads p bs x
    → Reads p cs y
    → bs ≡ cs
    → length bs < 2 ^ 64
    → x ≡ y
Reads-unique {p = p} {bs} {cs} {x} {y} h k e l =
    let a : decode p bs ≡ ok x = rw append-nil at (decode-Reads [] h (omega arith)) in
    let b : decode p cs ≡ ok y = rw append-nil at (decode-Reads [] k (rw (← e) (omega arith))) in cc

pub enc_ext_ref_injective :
    (r s : ExternalRef) → IsExternalRef r → IsExternalRef s → enc_ext_ref r ≡ enc_ext_ref s → r ≡ s
enc_ext_ref_injective r s v w e =
    Reads-unique (Reads-ext_ref r v) (Reads-ext_ref s w) e (omega (arith, length-enc_ext_ref r v))

-- Two nodes with one canonical encoding are one node.
pub enc_node_injective : (m n : Node) → IsNode m → IsNode n → enc_node m ≡ enc_node n → m ≡ n
enc_node_injective m n v w e =
    Reads-unique (Reads-node m v) (Reads-node n w) e (omega (arith, length-enc_node m v))

-- Two blocks with one canonical encoding (of fewer than 2 ^ 64 bytes) agree in all but the
-- co-signature.
pub enc_block_injective :
    (b c : Block)
    → IsBlock b
    → IsBlock c
    → length (enc_block b) < 2 ^ 64
    → enc_block b ≡ enc_block c
    → unsigned_by_partner b ≡ unsigned_by_partner c
enc_block_injective b c v w l e = Reads-unique (Reads-block b v) (Reads-block c w) e l
