-- ===== src/Lmdb/SealList.antt =====
-- The seal lists of storage.cpp: an array of byte strings, each the encoding of a seal.
use free_labour_common_will.Base.{
  true, false, ◌≡◌, ◌<◌, ◌≤◌, ◌+◌, ◌*◌, ◌/◌, ◌%◌, refl, ◌∙◌, ℕ, zero, suc, List, [], ◌∷◌, ◌++◌,
  length, All, take, drop, leb, ltb, ◌==◌, if◌then◌else◌, Bool-cases, inl, inr, arith, append-nil,
  subst, length-append, take-append_length, drop-append_length,
}
use free_labour_common_will.Types.{Seal}
use free_labour_common_will.Types.Outcome.{
  Result, ok, err, ◌>>=◌, Result-cases, storage_error, serialization_error,
}
use free_labour_common_will.Serializer.Encode.{enc_seal}
use free_labour_common_will.Serializer.Decode.{decode, dec_seal}
use free_labour_common_will.Serializer.RoundTrip.{IsSeal, decode-enc_seal}

-- A head with a count of at most 16 bits.
unfoldable pub write_cbor_head : ℕ → ℕ → Result (List ℕ)
write_cbor_head major n =
    if leb n 23
    then ok ((major * 32 + n) ∷ [])
    else if leb n 0xff
    then ok ((major * 32 + 24) ∷ n ∷ [])
    else if leb n 0xffff
    then ok ((major * 32 + 25) ∷ (n / 256) ∷ (n % 256) ∷ [])
    else err storage_error

encode_seals : List Seal → Result (List ℕ)
unfolding write_cbor_head
encode_seals [] = ok []
encode_seals (s ∷ seals) = write_cbor_head 2 (length (enc_seal s)) >>= λ head.
    encode_seals seals >>= λ rest. ok (head ++ (enc_seal s ++ rest))

unfoldable pub encode_seal_list : List Seal → Result (List ℕ)
unfolding encode_seals
encode_seal_list seals =
    write_cbor_head 4 (length seals) >>= λ head. encode_seals seals >>= λ rest. ok (head ++ rest)

-- `read_head`: the count and the bytes after it. What is left of the buffer stands for `pos`.
unfoldable pub read_head : ℕ → List ℕ → Result (ℕ × List ℕ)
read_head expected_major [] = err serialization_error
read_head expected_major (b ∷ bytes) =
    let two : Result (ℕ × List ℕ) = elim bytes [
      | [] ↦ err serialization_error
      | x ∷ rest ↦ elim rest [
        | [] ↦ err serialization_error
        | y ∷ after ↦ ok ((x * 256 + y), after)
      ]
    ] in
    let one : Result (ℕ × List ℕ) = elim bytes [
      | [] ↦ err serialization_error
      | x ∷ rest ↦ ok (x, rest)
    ] in
    if b / 32 == expected_major
    then if leb (b % 32) 23
      then ok (b % 32, bytes)
      else if b % 32 == 24
      then one
      else if b % 32 == 25
      then two
      else err serialization_error
    else err serialization_error

-- One element: its length, and that many bytes, which `decode_seal` reads.
unfoldable pub read_seal : List ℕ → Result (Seal × List ℕ)
unfolding read_head
read_seal bytes = read_head 2 bytes >>= λ (n, rest).
    if ltb (length rest) n
    then err serialization_error
    else decode dec_seal (take n rest) >>= λ s. ok (s, drop n rest)

read_seals : ℕ → List ℕ → Result (List Seal)
unfolding read_seal
read_seals zero bytes = ok []
read_seals (suc count) bytes =
    read_seal bytes >>= λ (s, rest). read_seals count rest >>= λ seals. ok (s ∷ seals)

unfoldable pub decode_seal_list : List ℕ → Result (List Seal)
unfolding read_seals read_head
decode_seal_list [] = ok []
decode_seal_list (b ∷ bytes) = read_head 4 (b ∷ bytes) >>= λ (count, rest). read_seals count rest

read_short :
    (major n : ℕ) (tl : List ℕ) → n ≤ 23 → read_head major ((major * 32 + n) ∷ tl) ≡ ok (n, tl)
unfolding read_head
read_short major n tl h =
    let q : ((major * 32 + n) / 32 == major) ≡ true = ground arith in
    let r : (major * 32 + n) % 32 ≡ n = omega arith in
    let t : leb n 23 ≡ true = ground arith in rw (q, r, t) refl

read_one : (major n : ℕ) (tl : List ℕ) → read_head major ((major * 32 + 24) ∷ n ∷ tl) ≡ ok (n, tl)
unfolding read_head
read_one major n tl =
    let q : ((major * 32 + 24) / 32 == major) ≡ true = ground arith in
    let r : (major * 32 + 24) % 32 ≡ 24 = omega arith in rw (q, r) refl

read_two :
    (major n : ℕ) (tl : List ℕ)
    → read_head major ((major * 32 + 25) ∷ (n / 256) ∷ (n % 256) ∷ tl) ≡ ok (n, tl)
unfolding read_head
read_two major n tl =
    let q : ((major * 32 + 25) / 32 == major) ≡ true = ground arith in
    let r : (major * 32 + 25) % 32 ≡ 25 = omega arith in
    let whole : n / 256 * 256 + n % 256 ≡ n = omega arith in rw (q, r, whole) refl

-- A head that is written is read back.
read_head-write_cbor_head :
    (major n : ℕ) (head tl : List ℕ)
    → write_cbor_head major n ≡ ok head
    → (n < 0x1_0000) × (read_head major (head ++ tl) ≡ ok (n, tl))
unfolding write_cbor_head
read_head-write_cbor_head major n head tl e = elim (Bool-cases (leb n 23)) [
  | inl short ↦
      let same : (major * 32 + n) ∷ [] ≡ head = ground (arith, e) in
      (ground arith, rw (← same) (read_short major n tl (ground arith)))
  | inr h ↦ elim (Bool-cases (leb n 0xff)) [
    | inl one ↦
        let same : (major * 32 + 24) ∷ n ∷ [] ≡ head = ground (arith, e) in
        (ground arith, rw (← same) (read_one major n tl))
    | inr k ↦ elim (Bool-cases (leb n 0xffff)) [
      | inl two ↦
          let same : (major * 32 + 25) ∷ (n / 256) ∷ (n % 256) ∷ [] ≡ head = ground (arith, e) in
          (ground arith, rw (← same) (read_two major n tl))
      | inr many ↦ absurd (ground (arith, e))
    ]
  ]
]

read_seal-enc_seal :
    (s : Seal) (head tl : List ℕ)
    → IsSeal s
    → write_cbor_head 2 (length (enc_seal s)) ≡ ok head
    → read_seal (head ++ (enc_seal s ++ tl)) ≡ ok (s, tl)
unfolding read_seal
read_seal-enc_seal s head tl w e =
    let (small, r) = read_head-write_cbor_head 2 (length (enc_seal s)) head (enc_seal s ++ tl) e in
    let l = length-append (enc_seal s) tl in
    let room : ltb (length (enc_seal s ++ tl)) (length (enc_seal s)) ≡ false = ground (arith, l) in
    let back : decode dec_seal (enc_seal s) ≡ ok s =
      subst (λ x. decode dec_seal x ≡ ok s) (append-nil (enc_seal s))
        (decode-enc_seal s [] w (omega (arith, small))) in
    rw (r, room, take-append_length (enc_seal s) tl, back, drop-append_length (enc_seal s) tl) refl

read_seals-encode_seals :
    (seals : List Seal) (bytes : List ℕ)
    → All IsSeal seals
    → encode_seals seals ≡ ok bytes
    → read_seals (length seals) bytes ≡ ok seals
unfolding encode_seals read_seals
read_seals-encode_seals [] bytes all e = refl
read_seals-encode_seals (s ∷ seals) bytes (w, all) e =
    elim (Result-cases (write_cbor_head 2 (length (enc_seal s)))) [
      | inr (x, f) ↦ absurd (ground (arith, e, f))
      | inl (head, f) ↦ elim (Result-cases (encode_seals seals)) [
        | inr (x, g) ↦ absurd (ground (arith, e, f, g))
        | inl (rest, g) ↦
            let same : head ++ (enc_seal s ++ rest) ≡ bytes = ground (arith, e, f, g) in
            rw
              (← same, read_seal-enc_seal s head rest w f, read_seals-encode_seals seals rest all g)
              refl
      ]
    ]

decode_seal_list_head :
    (bytes : List ℕ) (count : ℕ) (rest : List ℕ)
    → read_head 4 bytes ≡ ok (count, rest)
    → decode_seal_list bytes ≡ read_seals count rest
unfolding decode_seal_list
decode_seal_list_head [] count rest e =
    let empty : read_head 4 [] ≡ err serialization_error = read_head_empty in
    absurd (ground (arith, e, empty))
  where
    read_head_empty : read_head 4 [] ≡ err serialization_error
    read_head_empty = refl
decode_seal_list_head (b ∷ bytes) count rest e = rw e refl

-- A list of seals of the C++ types' sizes that encode_seal_list accepts is read back by
-- decode_seal_list.
pub decode-encode_seal_list :
    (seals : List Seal) (bytes : List ℕ)
    → All IsSeal seals
    → encode_seal_list seals ≡ ok bytes
    → decode_seal_list bytes ≡ ok seals
unfolding encode_seal_list decode_seal_list
decode-encode_seal_list seals bytes all e = elim (Result-cases (write_cbor_head 4 (length seals))) [
  | inr (x, f) ↦ absurd (ground (arith, e, f))
  | inl (head, f) ↦ elim (Result-cases (encode_seals seals)) [
    | inr (x, g) ↦ absurd (ground (arith, e, f, g))
    | inl (rest, g) ↦
        let same : head ++ rest ≡ bytes = ground (arith, e, f, g) in
        let (small, r) = read_head-write_cbor_head 4 (length seals) head rest f in
        rw (← same) (
          decode_seal_list_head (head ++ rest) (length seals) rest r
          ∙ read_seals-encode_seals seals rest all g)
  ]
]
