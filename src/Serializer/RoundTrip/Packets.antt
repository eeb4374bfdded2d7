-- ===== src/Serializer/RoundTrip/Packets.antt =====
-- The round trip of payloads, certificates, proofs, snapshots and tips.
use mathlib.Core.Option
use free_labour_common_will.Base.{
  map, not, ◌||◌, ◌==◌, ltb, ◌≢◌, ℕ, ◌^◌, ◌<◌, ◌≤◌, ◌≡◌, refl, List, [], ◌∷◌, ◌++◌, length, Option,
  none, some, arith, All, IsBytes, append-nil, Bool, true, false,
}
use free_labour_common_will.Types.{Block, Node, BranchTipInfo, MergePayload, RevocationPayload}
use free_labour_common_will.Types.Outcome.{ok}
use free_labour_common_will.Types.Packets.{
  Proof, MergeSnapshot, FraudProofData, RevocationCertificate, KeyPath, registers,
}
use free_labour_common_will.Serializer.Writer.{write_head, w_arr, w_uint, w_map, w_fixed}
use free_labour_common_will.Serializer.Encode.{
  each, enc_node, enc_block, enc_merge_payload, enc_revocation_payload, enc_replacement,
  replacement_fields, enc_revocation_cert, enc_rotations, rotation_fields, enc_key_path, enc_flag,
  enc_merkle_proof, enc_fraud_proof, enc_snapshot, enc_tip, tip_block_bytes,
}
use free_labour_common_will.Serializer.Reader.{r_fixed}
use free_labour_common_will.Serializer.Decode.{
  dec_node, dec_block, dec_merge_payload, dec_revocation_payload, dec_replacement,
  dec_revocation_cert, dec_rotations, dec_key_path, dec_flag, dec_merkle_proof, dec_fraud_proof,
  dec_snapshot, dec_tip, dec_tip_block, dec_list, decode, max_nodes, max_blocks, max_hashes,
  max_flags,
}
use free_labour_common_will.Serializer.Reads.{
  Reads, Reads-bind, Reads-field, Reads-list_field, Reads-pure, Reads-uint, Reads-map, Reads-key,
  Reads-check_then, Reads-fields, Reads-int, Reads-fixed, Reads-exact, Reads-bytes, Reads-list,
  Reads-list_val,
}
use free_labour_common_will.Serializer.RoundTrip.Wellformed.{
  IsMergePayload, IsRevocationPayload, IsNode, IsNodePath, IsBlock, IsCertificate, IsKeyPath,
  IsProof, IsFraudProof, IsSnapshot, IsTip, IsOptional,
}
use free_labour_common_will.Serializer.RoundTrip.Chain.{
  Reads-address, Reads-ext_ref, Reads-node, Reads-block, unsigned_by_partner, decode-Reads,
}

small : {n : ℕ} → n < 2 ^ 32 → n < 2 ^ 64
small h = omega arith

pub Reads-merge_payload :
    (p : MergePayload) → IsMergePayload p → Reads dec_merge_payload (enc_merge_payload p) p
unfolding dec_merge_payload enc_merge_payload
Reads-merge_payload p w = Reads-bind _ _ (Reads-fields 6 (omega arith)) (
    Reads-field 0 _ _ (omega arith) (Reads-address p.partner_last_address w.address) (
      Reads-field 1 _ _ (omega arith) (Reads-fixed w.hash (omega arith)) (
        Reads-field 2 _ _ (omega arith) (Reads-int p.merge_timestamp w.time) (
          Reads-field 3 _ _ (omega arith) (Reads-fixed w.root (omega arith)) (
            Reads-field 4 _ _ (omega arith) (Reads-fixed w.hll (omega arith)) (
              Reads-field 5 _ _ (omega arith) (Reads-uint p.validated_depth (small w.depth))
                (Reads-pure (let d = w.depth in ground arith))))))))

Reads-replacement :
    (k : Option (List ℕ))
    → IsOptional (IsBytes 32) k
    → Reads (dec_replacement (replacement_fields k)) (enc_replacement k) k
unfolding dec_replacement
Reads-replacement none w = Reads-pure refl
Reads-replacement (some k) w =
    Reads-field 3 _ _ (omega arith) (Reads-fixed w (omega arith)) (Reads-pure refl)

replacement_fields-lt : (k : Option (List ℕ)) → replacement_fields k < 2 ^ 64
replacement_fields-lt none = omega arith
replacement_fields-lt (some k) = omega arith

three_or_four :
    (k : Option (List ℕ)) → (replacement_fields k == 3 || replacement_fields k == 4) ≡ true
three_or_four none = refl
three_or_four (some k) = refl

pub Reads-revocation_payload :
    (p : RevocationPayload)
    → IsRevocationPayload p
    → Reads dec_revocation_payload (enc_revocation_payload p) p
unfolding dec_revocation_payload enc_revocation_payload
Reads-revocation_payload p w =
    Reads-bind _ _ (Reads-map _ (replacement_fields-lt p.replacement_pubkey)) (
      Reads-check_then _ _ _ (three_or_four p.replacement_pubkey) (
        Reads-field 0 _ _ (omega arith) (Reads-uint p.revoked_node_index (small w.node)) (
          Reads-field 1 _ _ (omega arith) (Reads-fixed w.key (omega arith)) (
            Reads-field 2 _ _ (omega arith) (Reads-int p.compromised_since w.since) (
              Reads-bind _ _ (Reads-replacement p.replacement_pubkey w.replacement)
                (Reads-pure (let n = w.node in ground arith)))))))

Reads-path :
    {ns : List Node}
    → IsNodePath ns
    → Reads (dec_list max_nodes dec_node) (w_arr (length ns) ++ each enc_node ns) ns
Reads-path {ns} w =
    Reads-list max_nodes dec_node enc_node IsNode Reads-node ns w.nodes w.count (omega arith)

pub Reads-certificate :
    (c : RevocationCertificate)
    → IsCertificate c
    → Reads dec_revocation_cert
        (enc_revocation_cert c)
        (record { block = unsigned_by_partner c.block; path = c.path })
unfolding dec_revocation_cert enc_revocation_cert
Reads-certificate c w = Reads-bind _ _ (Reads-fields 2 (omega arith)) (
    Reads-field 0 _ _ (omega arith) (Reads-block c.block w.block)
      (Reads-list_field 1 _ _ _ _ (omega arith) (Reads-path w.path) (Reads-pure refl)))

Reads-rotations :
    (bs : List Block)
    → All IsBlock bs
    → length bs ≤ max_blocks
    → Reads (dec_rotations (rotation_fields bs)) (enc_rotations bs) (map unsigned_by_partner bs)
unfolding dec_rotations
Reads-rotations [] w h = Reads-pure refl
Reads-rotations (b ∷ bs) w h = rw (append-nil (each enc_block (b ∷ bs))) (
    Reads-bind _ _ (Reads-key 1 (omega arith)) (
      Reads-list_val max_blocks dec_block enc_block unsigned_by_partner IsBlock Reads-block (b ∷ bs)
        w h (omega arith)))

rotation_fields-lt : (bs : List Block) → rotation_fields bs < 2 ^ 64
rotation_fields-lt [] = omega arith
rotation_fields-lt (b ∷ bs) = omega arith

one_or_two :
    (bs : List Block) → not (ltb (rotation_fields bs) 1 || ltb 2 (rotation_fields bs)) ≡ true
one_or_two [] = refl
one_or_two (b ∷ bs) = refl

pub Reads-key_path :
    (k : KeyPath)
    → IsKeyPath k
    → Reads dec_key_path
        (enc_key_path k)
        (record { path = k.path; rotations = map unsigned_by_partner k.rotations })
unfolding dec_key_path enc_key_path
Reads-key_path k w = Reads-bind _ _ (Reads-map _ (rotation_fields-lt k.rotations)) (
    Reads-check_then _ _ _ (one_or_two k.rotations) (
      Reads-list_field 0 _ _ _ _ (omega arith) (Reads-path w.path)
        (Reads-bind _ _ (Reads-rotations k.rotations w.rotations w.count) (Reads-pure refl))))

Reads-flag : (b : Bool) → Unit {0} → Reads dec_flag (enc_flag b) b
Reads-flag true w =
    rw (← append-nil (w_uint 1)) (Reads-bind _ _ (Reads-uint 1 (omega arith)) (Reads-pure refl))
Reads-flag false w =
    rw (← append-nil (w_uint 0)) (Reads-bind _ _ (Reads-uint 0 (omega arith)) (Reads-pure refl))

all_unit : (bs : List Bool) → All (λ b. Unit {0}) bs
all_unit [] = tt
all_unit (b ∷ bs) = (tt, all_unit bs)

pub Reads-merkle_proof : (p : Proof) → IsProof p → Reads dec_merkle_proof (enc_merkle_proof p) p
unfolding dec_merkle_proof enc_merkle_proof
Reads-merkle_proof p w = Reads-bind _ _ (Reads-fields 2 (omega arith)) (
    Reads-list_field 0 _ _ _ _ (omega arith)
      (Reads-list max_hashes (r_fixed 32) w_fixed (IsBytes 32) (λ h b. Reads-fixed b (omega arith))
        p.path w.path w.path_count (omega arith))
      (Reads-list_field 1 _ _ _ _ (omega arith)
        (Reads-list max_flags dec_flag enc_flag (λ b. Unit {0}) Reads-flag p.sibling_is_right
          (all_unit p.sibling_is_right) w.flag_count (omega arith))
        (Reads-pure refl)))

pub Reads-fraud_proof :
    (d : FraudProofData)
    → IsFraudProof d
    → Reads dec_fraud_proof
        (enc_fraud_proof d)
        (record d { evidence = unsigned_by_partner d.evidence })
unfolding dec_fraud_proof enc_fraud_proof
Reads-fraud_proof d w = Reads-bind _ _ (Reads-fields 4 (omega arith)) (
    Reads-field 0 _ _ (omega arith) (Reads-ext_ref d.leaf w.leaf) (
      Reads-field 1 _ _ (omega arith) (Reads-merkle_proof d.merkle_path w.proof) (
        Reads-list_field 2 _ _ _ _ (omega arith) (Reads-path w.path)
          (Reads-field 3 _ _ (omega arith) (Reads-block d.evidence w.evidence) (Reads-pure refl)))))

pub Reads-snapshot : (s : MergeSnapshot) → IsSnapshot s → Reads dec_snapshot (enc_snapshot s) s
unfolding dec_snapshot enc_snapshot
Reads-snapshot s w = Reads-bind _ _ (Reads-fields 2 (omega arith)) (
    Reads-field 0 _ _ (omega arith) (Reads-fixed w.root (omega arith)) (
      Reads-field 1 _ _ (omega arith) (Reads-exact registers s.hll w.regs.size (omega arith))
        (Reads-pure refl)))

enc_block-ne-nil : (b : Block) (r : List ℕ) → enc_block b ≡ r → r ≢ []
unfolding enc_block w_map write_head
enc_block-ne-nil b r e n = ground arith

Reads-nested :
    (b : Block) (bs : List ℕ)
    → enc_block b ≡ bs
    → IsBlock b
    → length bs < 2 ^ 63
    → Reads (dec_tip_block bs) [] (some (unsigned_by_partner b))
unfolding dec_tip_block
Reads-nested b [] e w h = absurd (enc_block-ne-nil b [] e refl)
Reads-nested b (x ∷ xs) e w h = record { run = λ i tl k. rw (nested, dec_tip_block) (ground arith) }
  where
    nested : decode dec_block (x ∷ xs) ≡ ok (unsigned_by_partner b)
    nested =
        rw append-nil at (decode-Reads {bs = x ∷ xs} [] (rw e at (Reads-block b w)) (omega arith))

Reads-tip_block :
    (b : Option Block)
    → IsOptional IsBlock b
    → length (tip_block_bytes b) < 2 ^ 63
    → Reads (dec_tip_block (tip_block_bytes b)) [] (Option.map unsigned_by_partner b)
unfolding dec_tip_block
Reads-tip_block none w h = record { run = λ i tl k. ground arith }
Reads-tip_block (some b) w h = Reads-nested b (enc_block b) refl w h

pub Reads-tip :
    (t : BranchTipInfo)
    → IsTip t
    → Reads dec_tip
        (enc_tip t)
        (record t { tip_block = Option.map unsigned_by_partner t.tip_block })
unfolding dec_tip enc_tip
Reads-tip t w = Reads-bind _ _ (Reads-fields 4 (omega arith)) (
    Reads-field 0 _ _ (omega arith) (Reads-address t.tip_address w.address) (
      Reads-field 1 _ _ (omega arith) (Reads-fixed w.hash (omega arith)) (
        Reads-list_field 2 _ _ _ _ (omega arith) (Reads-path w.path) (
          Reads-field 3 _ _ (omega arith) (Reads-bytes (tip_block_bytes t.tip_block) w.room)
            (Reads-bind _ _ (Reads-tip_block t.tip_block w.block w.room) (Reads-pure refl))))))
