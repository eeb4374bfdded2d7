-- ===== src/Dialogue/Heads.antt =====
-- `CborReader::head` of wire_cbor.h against `put_head`.
use free_labour_common_will.Base.{
  ℕ, ◌+◌, ◌*◌, ◌/◌, ◌%◌, ◌^◌, ◌<◌, ◌≤◌, ◌≡◌, refl, List, [], ◌∷◌, ◌++◌, length, ltb, leb, ◌==◌,
  true, false, Bool-cases, inl, inr, arith,
}
use free_labour_common_will.Types.Outcome.{ok}
use free_labour_common_will.Serializer.Writer.{push_be}
use free_labour_common_will.Serializer.Reads.{be_value, be_value-push_be}
use free_labour_common_will.Dialogue.Wire.{put_head, read_bytes, argument, head}

read_bytes-be_value :
    (bs : List ℕ) (v : ℕ) (tl : List ℕ)
    → read_bytes (length bs) v (bs ++ tl) ≡ ok (be_value v bs, tl)
unfolding read_bytes be_value
read_bytes-be_value [] v tl = refl
read_bytes-be_value (b ∷ bs) v tl = read_bytes-be_value bs (v * 256 % 2 ^ 64 + b) tl

-- The bytes of a word that is large enough for its size.
argument-be_value :
    (bs : List ℕ) (least v : ℕ) (tl : List ℕ)
    → be_value 0 bs ≡ v
    → least ≤ v
    → argument (length bs) least (bs ++ tl) ≡ ok (v, tl)
unfolding argument
argument-be_value bs least v tl e h =
    let enough : ltb v least ≡ false = ground arith in
    rw (read_bytes-be_value bs 0 tl, e, enough) refl

word_one : (v : ℕ) → v < 0x100 → be_value 0 (push_be 1 v) ≡ v
unfolding be_value
word_one v h = omega arith

word_two : (v : ℕ) → v < 0x1_0000 → be_value 0 (push_be 2 v) ≡ v
unfolding be_value
word_two v h = omega arith

word_four : (v : ℕ) → v < 0x1_0000_0000 → be_value 0 (push_be 4 v) ≡ v
unfolding be_value
word_four v h = omega arith

module _ (major : ℕ) where
  head_inline : (v : ℕ) (tl : List ℕ) → v < 24 → head major ((major * 32 + v) ∷ tl) ≡ ok (v, tl)
  unfolding head
  head_inline v tl h =
      let q : ((major * 32 + v) / 32 == major) ≡ true = ground arith in
      let r : (major * 32 + v) % 32 ≡ v = omega arith in
      let t : ltb v 24 ≡ true = ground arith in rw (q, r, t) refl

  head_one :
      (v : ℕ) (tl : List ℕ)
      → 24 ≤ v
      → v < 0x100
      → head major ((major * 32 + 24) ∷ (push_be 1 v ++ tl)) ≡ ok (v, tl)
  unfolding head
  head_one v tl h k =
      let q : ((major * 32 + 24) / 32 == major) ≡ true = ground arith in
      let r : (major * 32 + 24) % 32 ≡ 24 = omega arith in
      rw (q, r) (argument-be_value (push_be 1 v) 24 v tl (word_one v k) h)

  head_two :
      (v : ℕ) (tl : List ℕ)
      → 0x100 ≤ v
      → v < 0x1_0000
      → head major ((major * 32 + 25) ∷ (push_be 2 v ++ tl)) ≡ ok (v, tl)
  unfolding head
  head_two v tl h k =
      let q : ((major * 32 + 25) / 32 == major) ≡ true = ground arith in
      let r : (major * 32 + 25) % 32 ≡ 25 = omega arith in
      rw (q, r) (argument-be_value (push_be 2 v) 0x100 v tl (word_two v k) h)

  head_four :
      (v : ℕ) (tl : List ℕ)
      → 0x1_0000 ≤ v
      → v < 0x1_0000_0000
      → head major ((major * 32 + 26) ∷ (push_be 4 v ++ tl)) ≡ ok (v, tl)
  unfolding head
  head_four v tl h k =
      let q : ((major * 32 + 26) / 32 == major) ≡ true = ground arith in
      let r : (major * 32 + 26) % 32 ≡ 26 = omega arith in
      rw (q, r) (argument-be_value (push_be 4 v) 0x1_0000 v tl (word_four v k) h)

  head_eight :
      (v : ℕ) (tl : List ℕ)
      → 0x1_0000_0000 ≤ v
      → v < 2 ^ 64
      → head major ((major * 32 + 27) ∷ (push_be 8 v ++ tl)) ≡ ok (v, tl)
  unfolding head
  head_eight v tl h k =
      let q : ((major * 32 + 27) / 32 == major) ≡ true = ground arith in
      let r : (major * 32 + 27) % 32 ≡ 27 = omega arith in
      rw (q, r) (argument-be_value (push_be 8 v) 0x1_0000_0000 v tl (be_value-push_be v k) h)

  -- A 64-bit argument is read back, in the shortest form.
  pub head-put_head :
      (v : ℕ) (tl : List ℕ) → v < 2 ^ 64 → head major (put_head major v ++ tl) ≡ ok (v, tl)
  unfolding put_head
  head-put_head v tl h = elim (Bool-cases (ltb v 24)) [
    | inl a ↦ rw a (head_inline v tl (ground arith))
    | inr a ↦ elim (Bool-cases (leb v 0xff)) [
      | inl b ↦ rw (a, b) (head_one v tl (ground arith) (ground arith))
      | inr b ↦ elim (Bool-cases (leb v 0xffff)) [
        | inl c ↦ rw (a, b, c) (head_two v tl (ground arith) (ground arith))
        | inr c ↦ elim (Bool-cases (leb v 0xffff_ffff)) [
          | inl d ↦ rw (a, b, c, d) (head_four v tl (ground arith) (ground arith))
          | inr d ↦ rw (a, b, c, d) (head_eight v tl (ground arith) h)
        ]
      ]
    ]
  ]
