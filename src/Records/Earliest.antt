-- ===== src/Records/Earliest.antt =====
-- `std::min_element` in recognize_deals of acceptance.cpp: the first deal of one buyer.
use free_labour_common_will.Base.{
  ℕ, suc, ◌+◌, ◌≡◌, ◌≢◌, refl, sym, ap, ◌∙◌, List, [], ◌∷◌, ◌++◌, append_assoc, append-nil, length,
  length-append, append-All, All, true, false, ltb_ℤ, ℤ, bytes_le, bytes_eq, bytes_eq_iff,
  bytes_le_antisymm, bytes_le_trans, Bool-cases, ◌⊎◌, inl, inr, arith,
}
use free_labour_common_will.Types.{Hash}
use free_labour_common_will.Records.Acceptance.{DealClaim, earlier_deal, min_from}

-- One hash is before another one: byte by byte, the first that differs is less.
pub record IsBelow (x y : Hash) : Type 0 where
  pub at_most : bytes_le x y ≡ true
  pub other : x ≢ y

-- A deal is dated before another one, or at no later time and has the lower hash.
abbrev pub Earlier : DealClaim → DealClaim → Type 0
Earlier x y =
    (ltb_ℤ x.timestamp y.timestamp ≡ true)
    ⊎ ((ltb_ℤ y.timestamp x.timestamp ≡ false) × IsBelow x.deal y.deal)

abbrev pub IsLate : DealClaim → DealClaim → Type 0
IsLate x y = Earlier y x → ⊥

-- The deal at a position, with no other one that is earlier.
pub record Picked (all : List DealClaim) (k : ℕ) : Type 0 where
  pub before : List DealClaim
  pub first : DealClaim
  pub after : List DealClaim
  pub whole : all ≡ before ++ (first ∷ after)
  pub position : k ≡ length before
  pub least : All (IsLate first) (before ++ after)

-- The time of one deal against that of another.
less_trans : (a b c : ℤ) → ltb_ℤ a b ≡ true → ltb_ℤ b c ≡ true → ltb_ℤ a c ≡ true
less_trans a b c h k = ground (arith, h, k)

less_most : (a b c : ℤ) → ltb_ℤ a b ≡ true → ltb_ℤ c b ≡ false → ltb_ℤ a c ≡ true
less_most a b c h k = ground (arith, h, k)

most_less : (a b c : ℤ) → ltb_ℤ b a ≡ false → ltb_ℤ b c ≡ true → ltb_ℤ a c ≡ true
most_less a b c h k = ground (arith, h, k)

most_trans : (a b c : ℤ) → ltb_ℤ b a ≡ false → ltb_ℤ c b ≡ false → ltb_ℤ c a ≡ false
most_trans a b c h k = ground (arith, h, k)

less_self : (a : ℤ) → ltb_ℤ a a ≡ false
less_self a = ground arith

IsBelow-trans : (x y z : Hash) → IsBelow x y → IsBelow y z → IsBelow x z
IsBelow-trans x y z h k = record {
  at_most = bytes_le_trans x y z h.at_most k.at_most;
  other = λ e. h.other (bytes_le_antisymm x y h.at_most (rw e k.at_most));
}

Earlier-trans : (x y z : DealClaim) → Earlier x y → Earlier y z → Earlier x z
Earlier-trans x y z (inl h) (inl k) = inl (less_trans x.timestamp y.timestamp z.timestamp h k)
Earlier-trans x y z (inl h) (inr k) = inl (less_most x.timestamp y.timestamp z.timestamp h k.0)
Earlier-trans x y z (inr h) (inl k) = inl (most_less x.timestamp y.timestamp z.timestamp h.0 k)
Earlier-trans x y z (inr h) (inr k) =
    inr (most_trans x.timestamp y.timestamp z.timestamp h.0 k.0, IsBelow-trans _ _ _ h.1 k.1)

Earlier-self : (x : DealClaim) → Earlier x x → ⊥
Earlier-self x (inl h) = let e = less_self x.timestamp in ground (arith, h, e)
Earlier-self x (inr h) = h.1.other refl

earlier_deal-Earlier : (x y : DealClaim) → earlier_deal x y ≡ true → Earlier x y
earlier_deal-Earlier x y h = elim (Bool-cases (ltb_ℤ x.timestamp y.timestamp)) [
  | inl less ↦ inl less
  | inr more ↦ elim (Bool-cases (ltb_ℤ y.timestamp x.timestamp)) [
    | inl later ↦ absurd (ground (arith, h, more, later))
    | inr same ↦ inr (
      same,
      record {
        at_most = ground (arith, h, more, same);
        other =
            λ e. let one = (bytes_eq_iff x.deal y.deal).1 e in ground (arith, h, more, same, one);
      },
    )
  ]
]

Earlier-earlier_deal : (x y : DealClaim) → Earlier x y → earlier_deal x y ≡ true
Earlier-earlier_deal x y (inl h) = rw h refl
Earlier-earlier_deal x y (inr (h, below)) = elim (Bool-cases (ltb_ℤ x.timestamp y.timestamp)) [
  | inl less ↦ rw less refl
  | inr more ↦ elim (Bool-cases (bytes_eq x.deal y.deal)) [
    | inl same ↦ absurd (below.other ((bytes_eq_iff x.deal y.deal).0 same))
    | inr differ ↦ rw (more, h, below.at_most, differ) refl
  ]
]

IsLate-Earlier :
    (best c : DealClaim) (ys : List DealClaim)
    → Earlier c best
    → All (IsLate best) ys
    → All (IsLate c) ys
IsLate-Earlier best c [] h all = tt
IsLate-Earlier best c (y ∷ ys) h all =
    (λ e. all.0 (Earlier-trans y c best e h), IsLate-Earlier best c ys h all.1)

All-front :
    (P : DealClaim → Type 0) (xs ys : List DealClaim) → All P (xs ++ ys) → All P xs × All P ys
All-front P [] ys h = (tt, h)
All-front P (x ∷ xs) ys h = let (a, b) = All-front P xs ys h.1 in ((h.0, a), b)

-- The search has seen `before ++ best ∷ seen`, whose deal at the position `k` is the best one.
pub min_from-Picked :
    (cs all before seen : List DealClaim) (best : DealClaim) (i k : ℕ)
    → all ≡ before ++ ((best ∷ seen) ++ cs)
    → k ≡ length before
    → i ≡ length before + suc (length seen)
    → All (IsLate best) (before ++ seen)
    → Picked all (min_from i (k, best) cs).0
unfolding min_from
min_from-Picked [] all before seen best i k whole at next late = record {
  before = before;
  first = best;
  after = seen;
  whole = whole ∙ ap (λ l. before ++ l) (append-nil (best ∷ seen));
  position = at;
  least = late;
}
min_from-Picked (c ∷ cs) all before seen best i k whole at next late =
    elim (Bool-cases (earlier_deal c best)) [
      | inl sooner ↦
          let less = earlier_deal-Earlier c best sooner in
          let (front, back) = All-front (IsLate best) before seen late in
          let own : IsLate c best = λ e. Earlier-self best (Earlier-trans best c best e less) in
          let late' =
            append-All (IsLate c) before (best ∷ seen) (IsLate-Earlier best c before less front)
              (own, IsLate-Earlier best c seen less back) in
          rw (min_from, sooner)
            (min_from-Picked cs all (before ++ (best ∷ seen)) [] c (suc i) i
              (whole ∙ sym (append_assoc before (best ∷ seen) (c ∷ cs)))
              (next ∙ sym (length-append before (best ∷ seen)))
              (omega (arith, next, length-append before (best ∷ seen))) (rw append-nil late'))
      | inr later ↦
          let own : IsLate best c =
            λ e. let yes_it = Earlier-earlier_deal c best e in ground (arith, later, yes_it) in
          let late' =
            rw append_assoc at
              (append-All (IsLate best) (before ++ seen) (c ∷ []) late (own, tt)) in
          rw (min_from, later)
            (min_from-Picked cs all before (seen ++ (c ∷ [])) best (suc i) k
              (whole ∙ ap (λ l. before ++ (best ∷ l)) (sym (append_assoc seen (c ∷ []) cs))) at
              (omega (arith, next, length-append seen (c ∷ []))) late')
    ]
