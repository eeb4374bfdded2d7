-- ===== src/Records/Recognition.antt =====
-- `recognize_deals` of acceptance.cpp: how many deals on one result count.
use free_labour_common_will.Base.{
  ◌≡◌, ◌≤◌, ◌<◌, refl, ℕ, zero, suc, ◌+◌, List, [], ◌∷◌, Bool, true, false, not, ◌&&◌, ◌==◌, length,
  length-append, Bool-cases, inl, inr, arith, if◌then◌else◌, ap, ◌∙◌, Table,
}
use free_labour_common_will.Types.{Hash}
use free_labour_common_will.Records.Acceptance.{
  DealClaim, DealRecognition, deals_of, other_payer, earlier_deal, min_from, record_deals,
  judge_result, judge_results, note_deal,
}

-- How many deals count, and how many have a verdict on what they bought.
abbrev pub counted : DealRecognition → ℕ
counted out = length out.recognized + length out.resold

abbrev pub verdicts : DealRecognition → ℕ
verdicts out =
    length out.recognized
    + length out.resold
    + length out.repeated
    + length out.contested
    + length out.unsound

length-deals_of : (cs : List DealClaim) → length (deals_of cs) ≡ length cs
length-deals_of [] = refl
length-deals_of (c ∷ cs) = omega (arith, length-deals_of cs)

min_from_bound :
    (i k : ℕ) (best : DealClaim) (cs : List DealClaim)
    → k < i
    → (min_from i (k, best) cs).0 < i + length cs
unfolding min_from
min_from_bound i k best [] h = omega (arith, h)
min_from_bound i k best (c ∷ cs) h = elim (Bool-cases (earlier_deal c best)) [
  | inl less ↦
      let later = min_from_bound (suc i) i c cs (omega arith) in
      rw (min_from, less) (omega (arith, later))
  | inr more ↦
      let later = min_from_bound (suc i) k best cs (omega (arith, h)) in
      rw (min_from, more) (omega (arith, later))
]

-- 1 if the position `first` is one of `n` from `i` on.
abbrev within : ℕ → ℕ → ℕ → ℕ
within first i zero = 0
within first i (suc n) = (if first == i then 1 else 0) + within first (suc i) n

within_once : (first i n : ℕ) → i ≤ first → first < i + n → within first i n ≡ 1
within_once first i zero h k = absurd (omega arith)
within_once first i (suc n) h k = elim (Bool-cases (first == i)) [
  | inl here ↦
      let none_later = within_past first (suc i) n (ground (arith, here)) in
      rw here (omega (arith, none_later))
  | inr there ↦
      let later = within_once first (suc i) n (ground (arith, there, h)) (omega (arith, k)) in
      rw there (omega (arith, later))
]
  where
    within_past : (first i n : ℕ) → first < i → within first i n ≡ 0
    within_past first i zero h = refl
    within_past first i (suc n) h =
        let other : (first == i) ≡ false = ground (arith, h) in
        let later = within_past first (suc i) n (omega (arith, h)) in
        rw other (omega (arith, later))

note_deal_lem :
    (is_first : Bool) (c : DealClaim) (out : DealRecognition)
    → (counted (note_deal is_first c out) ≡ counted out + (if is_first then 1 else 0))
      × (verdicts (note_deal is_first c out) ≡ verdicts out + 1)
unfolding note_deal
note_deal_lem false c out = (omega arith, omega arith)
note_deal_lem true c out = elim (Bool-cases c.resale) [
  | inl again ↦ rw (again, note_deal) (omega arith, omega arith)
  | inr once ↦ rw (once, note_deal) (omega arith, omega arith)
]

record_deals_lem :
    (first i : ℕ) (cs : List DealClaim) (out : DealRecognition)
    → (counted (record_deals first i cs out) ≡ counted out + within first i (length cs))
      × (verdicts (record_deals first i cs out) ≡ verdicts out + length cs)
unfolding record_deals
record_deals_lem first i [] out = (omega arith, omega arith)
record_deals_lem first i (c ∷ cs) out =
    let (a, b) = note_deal_lem (first == i) c out in
    let (x, y) = record_deals_lem first (suc i) cs (note_deal (first == i) c out) in
    (omega (arith, a, x), omega (arith, b, y))

pub judge_result_first :
    (result : Hash) (c : DealClaim) (cs : List DealClaim) (out : DealRecognition)
    → c.sound ≡ true
    → other_payer c.payer cs ≡ false
    → judge_result result (c ∷ cs) out ≡ record_deals (min_from 1 (0, c) cs).0 0 (c ∷ cs) out
unfolding judge_result
judge_result_first result c cs out sound one =
    third _ _ _ c.sound (other_payer c.payer cs) sound one
  where
    third :
        (x y z : DealRecognition) (b b' : Bool)
        → b ≡ true
        → b' ≡ false
        → (if not b then x else if b' then y else z) ≡ z
    third x y z true true e f = absurd (ground (arith, f))
    third x y z true false e f = refl
    third x y z false b' e f = absurd (ground (arith, e))

-- judge_result adds as many entries to the lists of verdicts as there are deals on the result, and one
-- entry to the lists of deals that count if the result is sound and all deals are of one payer, and
-- none otherwise.
pub judge_result-once :
    (result : Hash) (c : DealClaim) (cs : List DealClaim) (out : DealRecognition)
    → (verdicts (judge_result result (c ∷ cs) out) ≡ verdicts out + length (c ∷ cs))
      × (counted (judge_result result (c ∷ cs) out)
          ≡ counted out + (if c.sound && not (other_payer c.payer cs) then 1 else 0))
unfolding judge_result
judge_result-once result c cs out =
    let deals = length-deals_of (c ∷ cs) in
    elim (Bool-cases c.sound) [
      | inr broken ↦
          rw (judge_result, broken)
            (let l = length-append (deals_of (c ∷ cs)) out.unsound in
              (omega (arith, l, deals), omega arith))
      | inl sound ↦ elim (Bool-cases (other_payer c.payer cs)) [
        | inl two ↦
            rw (judge_result, sound, two)
              (let l = length-append (deals_of (c ∷ cs)) out.contested in
                (omega (arith, l, deals), omega arith))
        | inr one ↦
            let first : ℕ = (min_from 1 (0, c) cs).0 in
            let (x, y) = record_deals_lem first 0 (c ∷ cs) out in
            let bound = min_from_bound 1 0 c cs (omega arith) in
            let inside =
              within_once first 0 (length (c ∷ cs)) (omega arith) (omega (arith, bound)) in
            let whole = judge_result_first result c cs out sound one in
            let flag : ◌≡◌ {A = ℕ} (if c.sound && not (other_payer c.payer cs) then 1 else 0) 1 =
              rw (sound, one) refl in
            (ap verdicts whole ∙ y, omega (arith, ap counted whole, x, inside, flag))
      ]
    ]

judge_result_empty : (result : Hash) (out : DealRecognition) → judge_result result [] out ≡ out
unfolding judge_result
judge_result_empty result out = refl

at_most_one : (b : Bool) → (if b then 1 else 0) ≤ 1
at_most_one true = omega arith
at_most_one false = omega arith

-- The deals that count are at most as many as the results.
pub judge_results-once :
    (by_result : Table (List DealClaim)) (out : DealRecognition)
    → counted (judge_results by_result out) ≤ counted out + length by_result
unfolding judge_results
judge_results-once [] out = omega arith
judge_results-once ((result, []) ∷ rest) out =
    let same : judge_result result [] out ≡ out = judge_result_empty result out in
    rw same (omega (arith, judge_results-once rest out))
judge_results-once ((result, c ∷ cs) ∷ rest) out =
    let (x, y) = judge_result-once result c cs out in
    let later = judge_results-once rest (judge_result result (c ∷ cs) out) in
    let one : (if c.sound && not (other_payer c.payer cs) then 1 else 0) ≤ 1 =
      at_most_one (c.sound && not (other_payer c.payer cs)) in
    omega (arith, y, later, one)
