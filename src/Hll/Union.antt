-- ===== src/Hll/Union.antt =====
-- `HllSketch::merge` and `add` of hll.cpp against the sets that they count.
use free_labour_common_will.Base.{
  ℕ, zero, suc, ◌≡◌, refl, sym, ap, ◌∙◌, List, [], ◌∷◌, ◌++◌, length, get_or, ltb, if◌then◌else◌,
  max, arith,
}
use free_labour_common_will.Types.{UserId, Hash}
use free_labour_common_will.Types.Packets.{HllSketch}
use free_labour_common_will.Crypto.{Sodium, hash}
use free_labour_common_will.Hll.{register_of, rank_of, set, add_hash, add, merge, empty}

-- `add_hash` at a register, as a recursion.
raise : HllSketch → ℕ → ℕ → HllSketch
raise [] i r = []
raise (x ∷ xs) zero r = max x r ∷ xs
raise (x ∷ xs) (suc i) r = x ∷ raise xs i r

raise-eq-set :
    (xs : HllSketch) (i r : ℕ) → (if ltb (get_or xs i 0) r then set xs i r else xs) ≡ raise xs i r
unfolding raise
raise-eq-set [] i r = ground arith
raise-eq-set (x ∷ xs) zero r = ground arith
raise-eq-set (x ∷ xs) (suc i) r = ground (arith, raise-eq-set xs i r)

add_hash-raise : (h : Hash) (xs : HllSketch) → add_hash h xs ≡ raise xs (register_of h) (rank_of h)
unfolding add_hash
add_hash-raise h xs = raise-eq-set xs (register_of h) (rank_of h)

length-raise : (xs : HllSketch) (i r : ℕ) → length (raise xs i r) ≡ length xs
unfolding raise
length-raise [] i r = refl
length-raise (x ∷ xs) zero r = refl
length-raise (x ∷ xs) (suc i) r = ap suc (length-raise xs i r)

raise-merge :
    (xs ys : HllSketch) (i r : ℕ)
    → length xs ≡ length ys
    → merge xs (raise ys i r) ≡ raise (merge xs ys) i r
unfolding raise merge
raise-merge [] ys i r e = refl
raise-merge (x ∷ xs) [] i r e = absurd (omega arith)
raise-merge (x ∷ xs) (y ∷ ys) zero r e = ground arith
raise-merge (x ∷ xs) (y ∷ ys) (suc i) r e = ground (arith, raise-merge xs ys i r)

-- Merging is commutative, associative and idempotent on sketches of one size.
pub merge_comm : (xs ys : HllSketch) → length xs ≡ length ys → merge xs ys ≡ merge ys xs
unfolding merge
merge_comm [] [] e = refl
merge_comm [] (y ∷ ys) e = absurd (omega arith)
merge_comm (x ∷ xs) [] e = absurd (omega arith)
merge_comm (x ∷ xs) (y ∷ ys) e = ground (arith, merge_comm xs ys)

pub merge_assoc :
    (xs ys zs : HllSketch)
    → length xs ≡ length ys
    → length ys ≡ length zs
    → merge (merge xs ys) zs ≡ merge xs (merge ys zs)
unfolding merge
merge_assoc [] ys zs e f = refl
merge_assoc (x ∷ xs) [] zs e f = absurd (omega arith)
merge_assoc (x ∷ xs) (y ∷ ys) [] e f = absurd (omega arith)
merge_assoc (x ∷ xs) (y ∷ ys) (z ∷ zs) e f = ground (arith, merge_assoc xs ys zs)

pub merge_idem : (xs : HllSketch) → merge xs xs ≡ xs
unfolding merge
merge_idem [] = refl
merge_idem (x ∷ xs) = ground (arith, merge_idem xs)

pub length-merge : (xs ys : HllSketch) → length (merge xs ys) ≡ length xs
unfolding merge
length-merge [] ys = refl
length-merge (x ∷ xs) [] = refl
length-merge (x ∷ xs) (y ∷ ys) = ap suc (length-merge xs ys)

module _ (na : Sodium) where
  -- The sketch of the identities of a list, added to a sketch one after the other.
  add_all : List UserId → HllSketch → HllSketch
  add_all [] regs = regs
  add_all (id ∷ ids) regs = add na id (add_all ids regs)

  length-add_all : (ids : List UserId) (xs : HllSketch) → length (add_all ids xs) ≡ length xs
  unfolding add_all add
  length-add_all [] xs = refl
  length-add_all (id ∷ ids) xs =
      rw (add_hash-raise (hash na id)) (length-raise (add_all ids xs) _ _ ∙ length-add_all ids xs)

  add-merge :
      (id : UserId) (xs ys : HllSketch)
      → length xs ≡ length ys
      → merge xs (add na id ys) ≡ add na id (merge xs ys)
  unfolding add
  add-merge id xs ys e =
      rw (add_hash-raise (hash na id) ys, add_hash-raise (hash na id) (merge xs ys))
        (raise-merge xs ys _ _ e)

  merge-add_all :
      (ids : List UserId) (xs ys : HllSketch)
      → length xs ≡ length ys
      → merge xs (add_all ids ys) ≡ add_all ids (merge xs ys)
  unfolding add_all
  merge-add_all [] xs ys e = refl
  merge-add_all (id ∷ ids) xs ys e =
      add-merge id xs (add_all ids ys) (e ∙ sym (length-add_all ids ys))
      ∙ ap (add na id) (merge-add_all ids xs ys e)

  add_all-append :
      (ids jds : List UserId) (xs : HllSketch)
      → add_all (ids ++ jds) xs ≡ add_all ids (add_all jds xs)
  unfolding add_all
  add_all-append [] jds xs = refl
  add_all-append (id ∷ ids) jds xs = ap (add na id) (add_all-append ids jds xs)

  pub sketch : List UserId → HllSketch
  unfolding add_all
  sketch ids = add_all ids empty

  -- The sketch of two lists of identities together is the merge of their sketches.
  pub sketch-append :
      (ids jds : List UserId) → sketch (ids ++ jds) ≡ merge (sketch jds) (sketch ids)
  unfolding sketch
  sketch-append ids jds =
      add_all-append ids jds empty
      ∙ sym (
          merge-add_all ids (add_all jds empty) empty (length-add_all jds empty)
          ∙ ap (add_all ids) (
              merge_comm (add_all jds empty) empty (length-add_all jds empty)
              ∙ merge-add_all jds empty empty refl
              ∙ ap (add_all jds) (merge_idem empty)))

  length-sketch : (ids : List UserId) → length (sketch ids) ≡ length empty
  unfolding sketch
  length-sketch ids = length-add_all ids empty

  -- The sketch of two lists of identities does not depend on the order of the lists.
  pub sketch_swap : (ids jds : List UserId) → sketch (ids ++ jds) ≡ sketch (jds ++ ids)
  sketch_swap ids jds =
      sketch-append ids jds
      ∙ merge_comm (sketch jds) (sketch ids) (length-sketch jds ∙ sym (length-sketch ids))
      ∙ sym (sketch-append jds ids)

  pub sketch_twice : (ids : List UserId) → sketch (ids ++ ids) ≡ sketch ids
  sketch_twice ids = sketch-append ids ids ∙ merge_idem (sketch ids)
