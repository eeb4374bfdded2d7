-- ===== src/Serializer/Reads/Values.antt =====
-- The r_ functions of serializer.cpp against the w_ functions, and the fields of maps.
use free_labour_common_will.Base.{
  ℕ, ◌^◌, ◌<◌, ◌≤◌, ◌≡◌, refl, List, ◌++◌, length, arith, append_assoc, append-nil, length-append,
  take-append_length, drop-append_length, le→leb, ==_self, ==_iff, ℤ, pos, negsuc, IsInt64, IsBytes,
  All,
}
use mathlib.Core.List.{map, map-id}
use free_labour_common_will.Serializer.Writer.{
  write_head, w_uint, w_map, w_arr, w_int64, w_bytes, w_fixed,
}
use free_labour_common_will.Serializer.Encode.{each}
use free_labour_common_will.Serializer.Reader.{
  M, ◌>>=◌, ◌>>◌, copy, r_uint, r_map, r_arr, r_int, r_bytes_exact, r_fixed, r_bytes,
}
use free_labour_common_will.Serializer.Decode.{expect_map, expect_key, dec_list}
use free_labour_common_will.Serializer.Reads.Sequence.{
  Reads, Reads-pure, Reads-bind, Reads-check, Reads-reserve, Reads-repeat,
}
use free_labour_common_will.Serializer.Reads.Head.{Reads-need_then, Reads-head, Reads-of}

pub Reads-uint : (v : ℕ) → v < 2 ^ 64 → Reads r_uint (w_uint v) v
unfolding r_uint w_uint
Reads-uint v h = Reads-of 0 (omega arith) v h

pub Reads-map : (v : ℕ) → v < 2 ^ 64 → Reads r_map (w_map v) v
unfolding r_map w_map
Reads-map v h = Reads-of 5 (omega arith) v h

pub Reads-arr : (v : ℕ) → v < 2 ^ 64 → Reads r_arr (w_arr v) v
unfolding r_arr w_arr
Reads-arr v h = Reads-of 4 (omega arith) v h

pub Reads-key : (k : ℕ) → k < 2 ^ 64 → Reads (expect_key k) (w_uint k) tt
unfolding expect_key
Reads-key k h =
    rw (← append-nil (w_uint k)) (Reads-bind _ _ (Reads-uint k h) (Reads-check _ _ (==_self k)))

pub Reads-fields : (k : ℕ) → k < 2 ^ 64 → Reads (expect_map k) (w_map k) tt
unfolding expect_map
Reads-fields k h =
    rw (← append-nil (w_map k)) (Reads-bind _ _ (Reads-map k h) (Reads-check _ _ (==_self k)))

pub Reads-int : (v : ℤ) → IsInt64 v → Reads r_int (w_int64 v) v
unfolding r_int w_int64
Reads-int (pos n) h = rw (← append-nil (write_head 0 n)) (
    Reads-bind _ _ (Reads-head 0 (omega arith) n (omega arith))
      (Reads-bind _ _ (Reads-check _ _ (le→leb _ _ (omega arith))) (Reads-pure refl)))
Reads-int (negsuc n) h = rw (← append-nil (write_head 1 n)) (
    Reads-bind _ _ (Reads-head 1 (omega arith) n (omega arith))
      (Reads-bind _ _ (Reads-check _ _ (le→leb _ _ (omega arith))) (Reads-pure refl)))

Reads-copy : (bs : List ℕ) → Reads (copy (length bs)) bs bs
unfolding copy
Reads-copy bs = record {
  run = λ i tl h.
      rw (le→leb _ _ (copy_room bs tl), take-append_length bs tl, drop-append_length bs tl);
}
  where
    copy_room : (xs ys : List ℕ) → length xs ≤ length (xs ++ ys)
    copy_room xs ys = omega (arith, length-append {0} xs ys)

pub Reads-exact :
    (n : ℕ) (bs : List ℕ) → length bs ≡ n → n < 2 ^ 64 → Reads (r_bytes_exact n) (w_bytes bs) bs
unfolding r_bytes_exact w_bytes
Reads-exact n bs e h = Reads-bind _ _ (Reads-of 2 (omega arith) (length bs) (omega arith)) (
    Reads-bind _ _ (Reads-check _ _ ((==_iff _ _).1 e))
      (Reads-need_then _ _ (omega arith) (Reads-copy bs)))

pub Reads-fixed :
    {n : ℕ} {bs : List ℕ} → IsBytes n bs → n < 2 ^ 64 → Reads (r_fixed n) (w_fixed bs) bs
unfolding r_fixed w_fixed
Reads-fixed {n} {bs} b h = Reads-exact n bs b.size h

pub Reads-bytes : (bs : List ℕ) → length bs < 2 ^ 63 → Reads r_bytes (w_bytes bs) bs
unfolding r_bytes w_bytes
Reads-bytes bs h = Reads-bind _ _ (Reads-of 2 (omega arith) (length bs) (omega arith)) (
    Reads-need_then _ _ (omega arith)
      (Reads-bind _ _ (Reads-reserve _ _ (omega arith)) (Reads-copy bs)))

pub Reads-list_val :
    {A B : Type 0} (limit : ℕ) (dec : M B) (enc : A → List ℕ) (val : A → B) (P : A → Type 0)
    → ((x : A) → P x → Reads dec (enc x) (val x))
    → (xs : List A) → All P xs
    → length xs ≤ limit
    → limit < 2 ^ 64
    → Reads (dec_list limit dec) (w_arr (length xs) ++ each enc xs) (map val xs)
unfolding dec_list
Reads-list_val limit dec enc val P one xs h k l =
    Reads-bind _ _ (Reads-arr (length xs) (omega arith))
      (Reads-bind _ _ (Reads-reserve limit (length xs) k) (Reads-repeat dec enc val P one xs h))

pub Reads-list :
    {A : Type 0} (limit : ℕ) (dec : M A) (enc : A → List ℕ) (P : A → Type 0)
    → ((x : A) → P x → Reads dec (enc x) x)
    → (xs : List A) → All P xs
    → length xs ≤ limit
    → limit < 2 ^ 64
    → Reads (dec_list limit dec) (w_arr (length xs) ++ each enc xs) xs
Reads-list limit dec enc P one xs h k l =
    rw map-id at (Reads-list_val limit dec enc (λ x. x) P one xs h k l)

-- A field of a map: its key, and its value.
pub Reads-field :
    {A B : Type 0} (k : ℕ) (p : M A) (f : A → M B) {bs cs : List ℕ} {x : A} {y : B}
    → k < 24
    → Reads p bs x
    → Reads (f x) cs y
    → Reads (expect_key k >> (p >>= f)) (w_uint k ++ (bs ++ cs)) y
Reads-field k p f h hp hf = Reads-bind _ _ (Reads-key k (omega arith)) (Reads-bind p f hp hf)

-- A field that is an array: its key, the count and the elements.
pub Reads-list_field :
    {A B : Type 0} (k : ℕ) (p : M (List A)) (f : List A → M B) (bs ds : List ℕ) {cs : List ℕ}
    {x : List A} {y : B}
    → k < 24
    → Reads p (bs ++ ds) x
    → Reads (f x) cs y
    → Reads (expect_key k >> (p >>= f)) (w_uint k ++ (bs ++ (ds ++ cs))) y
Reads-list_field k p f bs ds {cs} h hp hf = rw (← append_assoc bs ds cs) (Reads-field k p f h hp hf)
