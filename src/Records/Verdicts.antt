-- ===== src/Records/Verdicts.antt =====
-- `recognize_deals` of acceptance.cpp: the verdict on the deals on one result.
use free_labour_common_will.Base.{
  ℕ, suc, ◌+◌, ◌<◌, ◌≤◌, ◌≡◌, ◌≢◌, refl, sym, ap, ◌∙◌, List, [], ◌∷◌, ◌++◌, length, All, Has, true,
  false, ◌==◌, ==_self, bytes_eq, bytes_eq_iff, Bool-cases, ◌⊎◌, inl, inr, arith, if◌then◌else◌,
}
use free_labour_common_will.Types.{UserId, Hash}
use free_labour_common_will.Records.Acceptance.{
  DealClaim, DealRecognition, deals_of, other_payer, min_from, note_deal, record_deals,
  judge_result,
}
use free_labour_common_will.Records.Recognition.{judge_result_first}
use free_labour_common_will.Records.Earliest.{IsLate, min_from-Picked}

-- The hashes of some deals, inserted one by one.
abbrev pub inserted : List DealClaim → List Hash → List Hash
inserted [] set = set
inserted (c ∷ cs) set = inserted cs (c.deal ∷ set)

-- The one deal that counts, as new or as a resale, and the others, which repeat it.
abbrev pub credited : DealClaim → List DealClaim → DealRecognition → DealRecognition
credited first others out = record out {
  recognized = if first.resale then out.recognized else first.deal ∷ out.recognized;
  resold = if first.resale then first.deal ∷ out.resold else out.resold;
  repeated = inserted others out.repeated;
}

-- What becomes of the deals on a result.
pub data Judged (result : Hash) (c : DealClaim) (cs : List DealClaim) (out new : DealRecognition)
    : Type 0 where
  judged_unsound :
      c.sound ≡ false
      → new ≡ record out {
        unsound_results = result ∷ out.unsound_results;
        unsound = deals_of (c ∷ cs) ++ out.unsound;
      }
      → Judged result c cs out new
  judged_oversold :
      (other : DealClaim)
      → c.sound ≡ true
      → Has other cs
      → other.payer ≢ c.payer
      → new ≡ record out {
        oversold = result ∷ out.oversold;
        contested = deals_of (c ∷ cs) ++ out.contested;
      }
      → Judged result c cs out new
  judged_bought :
      (before : List DealClaim) (first : DealClaim) (after : List DealClaim)
      → c.sound ≡ true
      → All (λ (y : DealClaim). y.payer ≡ c.payer) cs
      → c ∷ cs ≡ before ++ (first ∷ after)
      → All (IsLate first) (before ++ after)
      → new ≡ credited first (before ++ after) out
      → Judged result c cs out new

one_payer :
    (payer : UserId) (cs : List DealClaim)
    → other_payer payer cs ≡ false
    → All (λ (y : DealClaim). y.payer ≡ payer) cs
one_payer payer [] h = tt
one_payer payer (c ∷ cs) h =
    let same = bytes_eq_iff c.payer payer in
    (same.0 (ground arith), one_payer payer cs (ground arith))

two_payers :
    (payer : UserId) (cs : List DealClaim)
    → other_payer payer cs ≡ true
    → (other : DealClaim) × (Has other cs × (other.payer ≢ payer))
two_payers payer [] h = absurd (ground (arith, h))
two_payers payer (c ∷ cs) h = elim (Bool-cases (bytes_eq c.payer payer)) [
  | inl same ↦
      let (other, (there, differ)) = two_payers payer cs (ground (arith, h, same)) in
      (other, (inr there, differ))
  | inr differ ↦ (
    c,
    (inl refl, λ e. let one = (bytes_eq_iff c.payer payer).1 e in ground (arith, differ, one)),
  )
]

record_deals-append :
    (k i : ℕ) (xs ys : List DealClaim) (out : DealRecognition)
    → record_deals k i (xs ++ ys) out ≡ record_deals k (i + length xs) ys (record_deals k i xs out)
unfolding record_deals
record_deals-append k i [] ys out =
    let e : i ≡ i + 0 = omega arith in ap (λ n. record_deals k n ys out) e
record_deals-append k i (x ∷ xs) ys out =
    let e : suc i + length xs ≡ i + suc (length xs) = omega arith in
    record_deals-append k (suc i) xs ys (note_deal (k == i) x out)
    ∙ ap (λ n. record_deals k n ys (record_deals k (suc i) xs (note_deal (k == i) x out))) e

-- Deals at other positions than that of the first one repeat it.
record_deals-repeated :
    (k i : ℕ) (cs : List DealClaim) (out : DealRecognition)
    → (k < i) ⊎ (i + length cs ≤ k)
    → record_deals k i cs out ≡ record out { repeated = inserted cs out.repeated }
unfolding record_deals note_deal
record_deals-repeated k i [] out h = refl
record_deals-repeated k i (c ∷ cs) out h =
    let other : (k == i) ≡ false = elim h [
      | inl less ↦ ground (arith, less)
      | inr more ↦ ground (arith, more)
    ] in
    let later : (k < suc i) ⊎ (suc i + length cs ≤ k) = elim h [
      | inl less ↦ inl (omega (arith, less))
      | inr more ↦ inr (omega (arith, more))
    ] in
    rw other
      (record_deals-repeated k (suc i) cs (record out { repeated = c.deal ∷ out.repeated }) later)

noted :
    (k : ℕ) (after : List DealClaim) (first : DealClaim) (out : DealRecognition)
    → record_deals k (suc k) after (note_deal true first out) ≡ credited first after out
unfolding note_deal
noted k after first out =
    record_deals-repeated k (suc k) after (note_deal true first out) (inl (omega arith))
    ∙ (elim (Bool-cases first.resale) [ inl again ↦ rw again refl | inr new ↦ rw new refl ])

inserted-append :
    (xs ys : List DealClaim) (set : List Hash)
    → inserted (xs ++ ys) set ≡ inserted ys (inserted xs set)
inserted-append [] ys set = refl
inserted-append (x ∷ xs) ys set = inserted-append xs ys (x.deal ∷ set)

-- The round over all deals counts the one at the position, and repeats the others.
record_deals-credited :
    (k : ℕ) (before after : List DealClaim) (first : DealClaim) (out : DealRecognition)
    → k ≡ length before
    → record_deals k 0 (before ++ (first ∷ after)) out ≡ credited first (before ++ after) out
unfolding record_deals
record_deals-credited k before after first out at =
    let repeats : DealRecognition = record out { repeated = inserted before out.repeated } in
    let here : 0 + length before ≡ k = omega (arith, at) in
    record_deals-append k 0 before (first ∷ after) out
    ∙ ap (record_deals k (0 + length before) (first ∷ after))
        (record_deals-repeated k 0 before out (inr (omega (arith, at))))
    ∙ ap (λ n. record_deals k n (first ∷ after) repeats) here
    ∙ (rw (==_self k) (noted k after first repeats))
    ∙ ap (λ set. record (credited first after out) { repeated = set })
        (sym (inserted-append before after out.repeated))

-- judge_result on one or more deals gives them one of three verdicts. If the result is unsound, all
-- of them are unsound. If it is sound and another deal has another payer than the first one, all are
-- contested, and the result is oversold. If it is sound and all are of one payer, there is a deal that
-- no other is earlier than, by time and then by hash: it counts, as resold if it is a resale and as
-- recognized otherwise, and all the others are repeated. Nothing else changes.
pub judge_result-Judged :
    (result : Hash) (c : DealClaim) (cs : List DealClaim) (out : DealRecognition)
    → Judged result c cs out (judge_result result (c ∷ cs) out)
unfolding judge_result
judge_result-Judged result c cs out = elim (Bool-cases c.sound) [
  | inr broken ↦ judged_unsound broken (rw broken refl)
  | inl sound ↦ elim (Bool-cases (other_payer c.payer cs)) [
    | inl two ↦
        let (other, (there, differ)) = two_payers c.payer cs two in
        judged_oversold other sound there differ (rw (sound, two) refl)
    | inr one ↦
        let p = min_from-Picked cs (c ∷ cs) [] [] c 1 0 refl refl refl tt in
        judged_bought p.before p.first p.after sound (one_payer c.payer cs one) p.whole p.least (
          judge_result_first result c cs out sound one
          ∙ ap (λ l. record_deals (min_from 1 (0, c) cs).0 0 l out) p.whole
          ∙ record_deals-credited _ p.before p.after p.first out p.position)
  ]
]
