-- ===== src/Dialogue/Wire.antt =====
-- modules/sync/src/wire_cbor.h, and the wire format of modules/sync/src/merge_dialogue.cpp. What is
-- left of the buffer stands for the position in it.
use free_labour_common_will.Base.{
  ℕ, zero, suc, ◌+◌, ◌*◌, ◌/◌, ◌%◌, ◌^◌, List, [], ◌∷◌, ◌++◌, length, take, drop, ltb, leb, ◌==◌,
  not, if◌then◌else◌,
}
use free_labour_common_will.Types.{BranchTipInfo, Signature}
use free_labour_common_will.Types.Packets.{MergeSnapshot}
use free_labour_common_will.Types.Outcome.{Result, ok, err, ◌>>=◌, ◌>>◌, guard, serialization_error}
use free_labour_common_will.Serializer.Writer.{push_be}
use free_labour_common_will.Serializer.Encode.{enc_tip, enc_snapshot}

unfoldable pub put_head : ℕ → ℕ → List ℕ
put_head major v =
    let m = major * 32 in
    if ltb v 24
    then (m + v) ∷ []
    else if leb v 0xff
    then (m + 24) ∷ push_be 1 v
    else if leb v 0xffff
    then (m + 25) ∷ push_be 2 v
    else if leb v 0xffff_ffff
    then (m + 26) ∷ push_be 4 v
    else (m + 27) ∷ push_be 8 v

unfoldable pub put_bstr : List ℕ → List ℕ
put_bstr bytes = put_head 2 (length bytes) ++ bytes

-- `for (int i = 0; i < extra; ++i) v = (v << 8) | byte();`
unfoldable pub read_bytes : ℕ → ℕ → List ℕ → Result (ℕ × List ℕ)
read_bytes zero v bytes = ok (v, bytes)
read_bytes (suc extra) v [] = err serialization_error
read_bytes (suc extra) v (b ∷ bytes) = read_bytes extra (v * 256 % 2 ^ 64 + b) bytes

-- The argument behind `ai`, with the least value that needs its size.
unfoldable pub argument : ℕ → ℕ → List ℕ → Result (ℕ × List ℕ)
unfolding read_bytes
argument extra least bytes = read_bytes extra 0 bytes >>= λ (v, rest).
    if ltb v least then err serialization_error else ok (v, rest)

unfoldable pub head : ℕ → List ℕ → Result (ℕ × List ℕ)
unfolding argument
head expected_major [] = err serialization_error
head expected_major (b ∷ bytes) =
    let ai = b % 32 in
    if not (b / 32 == expected_major)
    then err serialization_error
    else if ltb ai 24
    then ok (ai, bytes)
    else if ltb 27 ai
    then err serialization_error
    else if ai == 24
    then argument 1 24 bytes
    else if ai == 25
    then argument 2 0x100 bytes
    else if ai == 26
    then argument 4 0x1_0000 bytes
    else argument 8 0x1_0000_0000 bytes

unfoldable pub bstr : List ℕ → Result (List ℕ × List ℕ)
unfolding head
bstr bytes = head 2 bytes >>= λ (n, rest).
    if ltb (length rest) n then err serialization_error else ok (take n rest, drop n rest)

abbrev pub expect_end : List ℕ → Result (Unit {0})
expect_end [] = ok tt
expect_end (b ∷ bytes) = err serialization_error

abbrev pub wire_version : ℕ
wire_version = 1

pub data MsgType : Type 0 where
  offer accept draft_message cosig : MsgType

abbrev pub msg_code : MsgType → ℕ
msg_code offer = 1
msg_code accept = 2
msg_code draft_message = 3
msg_code cosig = 4

-- `static_cast<MsgType>` of a code from 1 to 4.
abbrev pub msg_type : ℕ → MsgType
msg_type t =
    if t == 1 then offer else if t == 2 then accept else if t == 3 then draft_message else cosig

unfoldable pub encode_envelope : MsgType → List ℕ → List ℕ
unfolding put_head put_bstr
encode_envelope kind payload =
    put_head 4 3 ++ (put_head 0 wire_version ++ (put_head 0 (msg_code kind) ++ put_bstr payload))

pub record Envelope : Type 0 where
  pub kind : MsgType
  pub payload : List ℕ

unfoldable pub decode_envelope : List ℕ → Result Envelope
unfolding head bstr
decode_envelope bytes = head 4 bytes >>= λ (n, r).
    guard (n == 3) serialization_error
    >> (head 0 r >>= λ (version, r').
        guard (version == wire_version) serialization_error
        >> (head 0 r' >>= λ (t, r'').
            if ltb t 1
            then err serialization_error
            else if ltb 4 t
            then err serialization_error
            else bstr r'' >>= λ (payload, rest).
                expect_end rest >> ok (record { kind = msg_type t; payload = payload })))

unfoldable pub encode_pair : List ℕ → List ℕ → List ℕ
unfolding put_head put_bstr
encode_pair tip_bytes snap_bytes = put_head 4 2 ++ (put_bstr tip_bytes ++ put_bstr snap_bytes)

unfoldable pub encode_tip_snapshot : MsgType → BranchTipInfo → MergeSnapshot → List ℕ
unfolding encode_pair encode_envelope
encode_tip_snapshot kind tip snapshot =
    encode_envelope kind (encode_pair (enc_tip tip) (enc_snapshot snapshot))

-- The two byte strings of a tip's payload.
unfoldable pub decode_pair : List ℕ → Result (List ℕ × List ℕ)
unfolding head bstr
decode_pair bytes = head 4 bytes >>= λ (n, r).
    guard (n == 2) serialization_error
    >> (bstr r >>= λ (tip_bytes, r').
        bstr r' >>= λ (snap_bytes, rest). expect_end rest >> ok (tip_bytes, snap_bytes))

-- `decode_fixed<Signature>`.
unfoldable pub decode_signature : List ℕ → Result Signature
decode_signature payload = if length payload == 64 then ok payload else err serialization_error
