-- ===== src/Serializer/Reads/Head.antt =====
-- `need`, the big-endian words and `read_head` of serializer.cpp against `write_head`.
use free_labour_common_will.Base.{
  ℕ, ◌+◌, ◌*◌, ◌/◌, ◌%◌, ◌^◌, ◌<◌, ◌≤◌, ◌≡◌, refl, ◌∙◌, List, [], ◌∷◌, leb, length, arith,
  append-nil, length-append, le→leb, ==_self, le→not_ltb,
}
use native.Mathlib.Nat.{mod-eq_of_lt}
use free_labour_common_will.Types.Outcome.{ok}
use free_labour_common_will.Serializer.Writer.{byte, push_be, write_head}
use free_labour_common_will.Serializer.Reader.{
  Reader, M, ◌>>◌, need, next, read_be, read_argument, read_head, read_of,
}
use free_labour_common_will.Serializer.Reads.Sequence.{
  Reads, Reads-pure, bind_run, Reads-bind, Reads-check, Reads-if,
}

need_run :
    (n : ℕ) (r : Reader)
    → r.at + n ≤ r.at + length r.rest
    → r.at + length r.rest < 2 ^ 64
    → need n r ≡ ok (tt, r)
unfolding need
need_run n r h k = rw (mod-eq_of_lt fits, le→not_ltb (r.at + length r.rest) (r.at + n) h)
  where
    fits : r.at + n < 2 ^ 64
    fits = omega arith

pub Reads-need_then :
    {A : Type 0} (n : ℕ) (p : M A) {bs : List ℕ} {x : A}
    → n ≤ length bs
    → Reads p bs x
    → Reads (need n >> p) bs x
Reads-need_then n p {bs} {x} h hp = record {
  run = λ i tl k.
      bind_run _ _ _ _ tt (
        need_run n _ (omega (arith, length-append {0} bs tl))
          (omega (arith, length-append {0} bs tl)))
      ∙ hp.run i tl k;
}

Reads-next : (b : ℕ) → Reads next (b ∷ []) b
unfolding next
Reads-next b = record { run = λ i tl k. refl }

unfoldable pub be_value : ℕ → List ℕ → ℕ
be_value v [] = v
be_value v (b ∷ bs) = be_value (v * 256 % 2 ^ 64 + b) bs

Reads-be : (bs : List ℕ) (v : ℕ) → Reads (read_be (length bs) v) bs (be_value v bs)
unfolding read_be be_value
Reads-be [] v = Reads-pure refl
Reads-be (b ∷ bs) v = Reads-bind _ _ (Reads-next b) (Reads-be bs _)

-- The eight bytes of a 64-bit word, most significant first, give the word back.
pub be_value-push_be : (v : ℕ) → v < 2 ^ 64 → be_value 0 (push_be 8 v) ≡ v
unfolding be_value
be_value-push_be v h = omega arith

module _ (major : ℕ) (hm : major < 8) where
  read_initial :
      (info : ℕ) {bs : List ℕ} {x : ℕ × ℕ}
      → info < 32
      → Reads (read_argument major info) bs x
      → Reads read_head ((byte (major * 32) + info) ∷ bs) x
  unfolding read_head
  read_initial info h hp =
      Reads-need_then 1 _ (omega arith) (
        Reads-bind _ _ (Reads-next (byte (major * 32) + info))
          (rw (initial_major, initial_info) hp))
    where
      initial_major : (byte (major * 32) + info) / 32 ≡ major
      initial_major = omega arith

      initial_info : (byte (major * 32) + info) % 32 ≡ info
      initial_info = omega arith

  one_byte : (v : ℕ) → v < 256 → Reads (read_argument major 24) (byte v ∷ []) (major, v)
  unfolding read_argument
  one_byte v h =
      Reads-need_then 1 _ (omega arith)
        (Reads-bind _ _ (Reads-next (byte v)) (Reads-pure (ground arith)))

  two_bytes :
      (v : ℕ)
      → v < 2 ^ 16
      → Reads (read_argument major 25) (byte (v / 2 ^ 8) ∷ byte v ∷ []) (major, v)
  unfolding read_argument
  two_bytes v h =
      Reads-need_then 2 _ (omega arith)
        (Reads-bind _ _ (Reads-next _) (Reads-bind _ _ (Reads-next _) (Reads-pure (ground arith))))

  four_bytes :
      (v : ℕ)
      → v < 2 ^ 32
      → Reads
          (read_argument major 26)
          (byte (v / 2 ^ 24) ∷ byte (v / 2 ^ 16) ∷ byte (v / 2 ^ 8) ∷ byte v ∷ [])
          (major, v)
  unfolding read_argument
  four_bytes v h = Reads-need_then 4 _ (omega arith) (
      Reads-bind _ _ (Reads-next _) (
        Reads-bind _ _ (Reads-next _) (
          Reads-bind _ _ (Reads-next _)
            (Reads-bind _ _ (Reads-next _) (Reads-pure (ground arith))))))

  eight_bytes : (v : ℕ) → v < 2 ^ 64 → Reads (read_argument major 27) (push_be 8 v) (major, v)
  unfolding read_argument
  eight_bytes v h = Reads-need_then 8 _ (omega arith) (
      Reads-bind _ _ (Reads-be (push_be 8 v) 0) (Reads-pure (ground (arith, be_value-push_be v h))))

  inline : (v : ℕ) → v < 24 → Reads (read_argument major v) [] (major, v)
  unfolding read_argument
  inline v h = rw (le→leb v 23 (omega arith)) (Reads-pure refl)

  -- A 64-bit argument is read back under each of the major types, in all five forms.
  pub Reads-head : (v : ℕ) → v < 2 ^ 64 → Reads read_head (write_head major v) (major, v)
  unfolding write_head
  Reads-head v h =
      Reads-if (leb v 23) _ _
        (λ c.
          read_initial (byte v) (ground arith)
            (let e : byte v ≡ v = ground arith in rw e (inline v (ground arith))))
        (λ _.
          Reads-if (leb v 0xff) _ _ (λ c. read_initial 24 (omega arith) (one_byte v (ground arith)))
            (λ _.
              Reads-if (leb v 0xffff) _ _
                (λ c. read_initial 25 (omega arith) (two_bytes v (ground arith)))
                (λ _.
                  Reads-if (leb v 0xffff_ffff) _ _
                    (λ c. read_initial 26 (omega arith) (four_bytes v (ground arith)))
                    (λ _. read_initial 27 (omega arith) (eight_bytes v h)))))

  pub Reads-of : (v : ℕ) → v < 2 ^ 64 → Reads (read_of major) (write_head major v) v
  unfolding read_of
  Reads-of v h = rw (← append-nil (write_head major v)) (
      Reads-bind _ _ (Reads-head v h)
        (Reads-bind _ _ (Reads-check _ _ (==_self major)) (Reads-pure refl)))
