-- ===== src/Dialogue/Envelopes.antt =====
-- The envelopes of merge_dialogue.cpp, and the byte strings of wire_cbor.h in them.
use free_labour_common_will.Base.{
  ℕ, ◌^◌, ◌<◌, ◌≡◌, refl, List, [], ◌++◌, length, ltb, false, arith, length-append, append_assoc,
  append-nil, subst, take-append_length, drop-append_length,
}
use mathlib.Core.Option
use free_labour_common_will.Types.{BranchTipInfo}
use free_labour_common_will.Types.Packets.{MergeSnapshot}
use free_labour_common_will.Types.Outcome.{ok}
use free_labour_common_will.Crypto.{Sodium}
use free_labour_common_will.Storage.{IStorage}
use free_labour_common_will.Serializer.Encode.{enc_tip, enc_snapshot}
use free_labour_common_will.Serializer.Decode.{decode, dec_tip, dec_snapshot}
use free_labour_common_will.Serializer.RoundTrip.{
  IsTip, IsSnapshot, unsigned_by_partner, decode-enc_tip, decode-enc_snapshot,
}
use free_labour_common_will.Dialogue.Machine.{MergeDialogue, and_then, take_tip_snapshot}
use free_labour_common_will.Dialogue.Wire.{
  put_head, put_bstr, head, bstr, MsgType, offer, accept, draft_message, cosig, encode_envelope,
  decode_envelope, encode_pair, decode_pair, encode_tip_snapshot,
}
use free_labour_common_will.Dialogue.Heads.{head-put_head}

bstr-put_bstr :
    (bytes tl : List ℕ) → length bytes < 2 ^ 64 → bstr (put_bstr bytes ++ tl) ≡ ok (bytes, tl)
unfolding bstr put_bstr
bstr-put_bstr bytes tl h =
    let l = length-append bytes tl in
    let room : ltb (length (bytes ++ tl)) (length bytes) ≡ false = ground (arith, l) in
    rw
      (
        append_assoc (put_head 2 (length bytes)) bytes tl,
        head-put_head 2 (length bytes) (bytes ++ tl) h,
        room,
        take-append_length bytes tl,
        drop-append_length bytes tl,
      )
      refl

bstr_whole : (bytes : List ℕ) → length bytes < 2 ^ 64 → bstr (put_bstr bytes) ≡ ok (bytes, [])
bstr_whole bytes h =
    subst (λ x. bstr x ≡ ok (bytes, [])) (append-nil (put_bstr bytes)) (bstr-put_bstr bytes [] h)

-- An envelope whose payload's length is a uint64_t is decoded to its type and its payload.
pub decode_envelope-encode_envelope :
    (kind : MsgType) (payload : List ℕ)
    → length payload < 2 ^ 64
    → decode_envelope (encode_envelope kind payload)
      ≡ ok (record { kind = kind; payload = payload })
unfolding decode_envelope encode_envelope head put_head
decode_envelope-encode_envelope offer payload h = rw (bstr_whole payload h) refl
decode_envelope-encode_envelope accept payload h = rw (bstr_whole payload h) refl
decode_envelope-encode_envelope draft_message payload h = rw (bstr_whole payload h) refl
decode_envelope-encode_envelope cosig payload h = rw (bstr_whole payload h) refl

decode_pair-encode_pair :
    (a b : List ℕ)
    → length a < 2 ^ 64
    → length b < 2 ^ 64
    → decode_pair (encode_pair a b) ≡ ok (a, b)
unfolding decode_pair encode_pair head put_head
decode_pair-encode_pair a b h k = rw (bstr-put_bstr a (put_bstr b) h, bstr_whole b k) refl

encode_pair_room :
    (a b : List ℕ) → length (encode_pair a b) < 2 ^ 64 → (length a < 2 ^ 64) × (length b < 2 ^ 64)
unfolding encode_pair put_bstr
encode_pair_room a b h =
    let p = length-append (put_head 4 2) (put_bstr a ++ put_bstr b) in
    let q = length-append (put_bstr a) (put_bstr b) in
    let r = length-append (put_head 2 (length a)) a in
    let t = length-append (put_head 2 (length b)) b in
    (omega (arith, h, p, q, r), omega (arith, h, p, q, t))

-- A side that is sent a tip and a snapshot of the C++ types' sizes, in an envelope whose payload's
-- length is a uint64_t, decodes the message's type, and takes them as the partner's, without the
-- co-signature of the tip's block.
pub take_tip_snapshot-encode_tip_snapshot :
    (na : Sodium) (st : IStorage) (d : MergeDialogue na st) (kind : MsgType) (tip : BranchTipInfo)
    (snapshot : MergeSnapshot)
    → IsTip tip
    → IsSnapshot snapshot
    → length (encode_pair (enc_tip tip) (enc_snapshot snapshot)) < 2 ^ 64
    → (payload : List ℕ) × ((decode_envelope (encode_tip_snapshot kind tip snapshot)
          ≡ ok (record { kind = kind; payload = payload }))
        × (take_tip_snapshot na st payload d ≡ (
          record d {
            partner_tip = record tip { tip_block = Option.map unsigned_by_partner tip.tip_block };
            partner_snapshot = snapshot;
          },
          ok tt,
        )))
unfolding encode_tip_snapshot take_tip_snapshot and_then
take_tip_snapshot-encode_tip_snapshot na st d kind tip snapshot ht hs lp =
    let (lt, ls) = encode_pair_room (enc_tip tip) (enc_snapshot snapshot) lp in
    let tip_read =
      subst
        (λ x.
          decode dec_tip x
          ≡ ok (record tip { tip_block = Option.map unsigned_by_partner tip.tip_block }))
        (append-nil (enc_tip tip)) (decode-enc_tip tip [] ht (omega (arith, lt))) in
    let snapshot_read =
      subst (λ x. decode dec_snapshot x ≡ ok snapshot) (append-nil (enc_snapshot snapshot))
        (decode-enc_snapshot snapshot [] hs (omega (arith, ls))) in
    (
      encode_pair (enc_tip tip) (enc_snapshot snapshot),
      (
        decode_envelope-encode_envelope kind _ lp,
        rw
            (
              decode_pair-encode_pair (enc_tip tip) (enc_snapshot snapshot) lt ls,
              tip_read,
              snapshot_read,
            )
            refl,
      ),
    )
