-- ===== src/Examples/Deals.antt =====
-- A deal and the replies to it, the spends of a bill, and the deals on one result. The doubles are
-- natural numbers.
use free_labour_common_will.Base.{
  ◌≡◌, ℕ, ◌+◌, ◌-◌, List, [], ◌∷◌, ◌++◌, Option, some, none, true, false, Bool, leb, ltb, pos, All,
  ◌⊎◌,
}
use free_labour_common_will.Types.{zero_hash, Hash}
use free_labour_common_will.Records.Types.{Doubles, Ref, Transfer}
use free_labour_common_will.Records.Settlement.{ObservedReply, accepted}
use free_labour_common_will.Records.Bill.{BillSpend, check_bill, unique, sort_spends, Fault}
use free_labour_common_will.Records.Thread.{
  IsThread, IsFromPurse, hashes_onto, check_bill-IsCovered,
}
use free_labour_common_will.Records.Acceptance.{DealClaim, nothing_yet, judge_result}
use free_labour_common_will.Records.Verdicts.{Judged, judge_result-Judged}

abbrev whole_hours : Doubles
whole_hours = record {
  Double = ℕ;
  zero_units = 0;
  add = λ a b. a + b;
  sub = λ a b. a - b;
  at_most = λ a b. leb a b;
  exceeds = λ a b. ltb b a;
  tolerance = 0;
}

abbrev buyer : Hash
buyer = 1 ∷ []

abbrev seller : Hash
seller = 2 ∷ []

abbrev deal : Transfer whole_hours
deal = record {
  from = buyer;
  to = seller;
  to_node = 3;
  origins = [];
  accept = none;
  settles = none;
  timestamp = pos 10;
  emission = none;
  until = some (pos 20);
}

abbrev deal_ref : Ref
deal_ref = record { chain = buyer; hash = 9 ∷ [] }

abbrev reply_at : ℕ → Bool → ObservedReply
reply_at index agreed = record {
  reply = record { deal = deal_ref; accepted = agreed; note = []; timestamp = pos 15 };
  author = seller;
  node = 3;
  index = index;
  since = pos 12;
}

-- The later word comes first to the reader.
abbrev replies : List ObservedReply
replies = reply_at 7 false ∷ reply_at 4 true ∷ []

abbrev spend_at : ℕ → Option Ref → BillSpend whole_hours
spend_at index prev = record {
  hash = index ∷ [];
  node = 3;
  index = index;
  timestamp = pos 5;
  units = 1;
  prev = prev;
  move = false;
  answer = accepted;
  until = pos 9;
  stands = true;
  frozen = false;
}

-- The third spend does not name the second.
abbrev spends : List (BillSpend whole_hours)
spends =
    spend_at 2 (some (record { chain = seller; hash = 1 ∷ [] }))
    ∷ spend_at 1 none
    ∷ spend_at 3 none
    ∷ []

check_bill-IsCovered_example :
    (front : List (BillSpend whole_hours)) × (back : List (BillSpend whole_hours)) × (unique
        whole_hours
        (sort_spends whole_hours spends)
      ≡ front ++ back)
    × ((check_bill whole_hours seller 3 10 (some 0) spends).backed
        ≡ hashes_onto whole_hours front [])
    × ((check_bill whole_hours seller 3 10 (some 0) spends).unbacked
        ≡ hashes_onto whole_hours back [])
    × IsThread whole_hours seller none front
    × All (IsFromPurse whole_hours 3 (some 0)) front
    × ((back ≡ [])
        ⊎ ((fault : Fault) × ((check_bill whole_hours seller 3 10 (some 0) spends).fault
              ≡ some fault)))
check_bill-IsCovered_example = check_bill-IsCovered whole_hours seller 3 10 (some 0) spends

abbrev claim_at : ℕ → DealClaim
claim_at n = record {
  deal = n ∷ [];
  work = zero_hash;
  payer = buyer;
  timestamp = pos n;
  addressed = true;
  sound = true;
  portion = none;
  resale = false;
  settled = true;
}

judge_result-Judged_example :
    Judged zero_hash
      (claim_at 8)
      (claim_at 6 ∷ [])
      nothing_yet
      (judge_result zero_hash (claim_at 8 ∷ claim_at 6 ∷ []) nothing_yet)
judge_result-Judged_example =
    judge_result-Judged zero_hash (claim_at 8) (claim_at 6 ∷ []) nothing_yet
