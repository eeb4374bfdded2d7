-- ===== src/Records/Acceptance.antt =====
-- modules/records/include/records/acceptance.h and modules/records/src/acceptance.cpp: which deals
-- on a work's result count. A set is the list of what was inserted; a `std::map` is a table in the
-- order of its keys.
use free_labour_common_will.Base.{
  ℕ, suc, ℤ, ltb_ℤ, List, [], ◌∷◌, ◌++◌, Option, none, some, Bool, true, false, not, ◌&&◌, ◌||◌,
  ◌==◌, bytes_eq, bytes_le, if◌then◌else◌, Table, map,
}
use free_labour_common_will.Types.{UserId, Hash}

pub record DealClaim : Type 0 where
  pub deal : Hash
  pub work : Hash
  pub payer : UserId
  pub timestamp : ℤ
  pub addressed : Bool
  pub sound : Bool
  pub portion : Option Hash
  pub resale : Bool
  pub settled : Bool

pub record DealRecognition : Type 0 where
  pub recognized : List Hash
  pub resold : List Hash
  pub repeated : List Hash
  pub contested : List Hash
  pub unsound : List Hash
  pub unaddressed : List Hash
  pub unsettled : List Hash
  pub oversold : List Hash
  pub unsound_results : List Hash

abbrev pub nothing_yet : DealRecognition
nothing_yet = record {
  recognized = [];
  resold = [];
  repeated = [];
  contested = [];
  unsound = [];
  unaddressed = [];
  unsettled = [];
  oversold = [];
  unsound_results = [];
}

module _ {V : Type 0} where
  -- `map.emplace(key, value)`: an entry that is there stays.
  unfoldable pub emplace : Table V → List ℕ → V → Table V
  emplace [] key v = (key, v) ∷ []
  emplace ((k, old) ∷ rest) key v =
      let later = emplace rest key v in
      if bytes_eq k key
      then (k, old) ∷ rest
      else if bytes_le key k
      then (key, v) ∷ (k, old) ∷ rest
      else (k, old) ∷ later

  -- `map[key]` changed by `change`; a missing entry is `empty` before.
  unfoldable pub change_at : Table V → List ℕ → V → (V → V) → Table V
  change_at [] key empty change = (key, change empty) ∷ []
  change_at ((k, old) ∷ rest) key empty change =
      let later = change_at rest key empty change in
      if bytes_eq k key
      then (k, change old) ∷ rest
      else if bytes_le key k
      then (key, change empty) ∷ (k, old) ∷ rest
      else (k, old) ∷ later

-- `by_work[c.work].emplace(c.deal, &c)`, over the claims.
unfoldable pub group_by_work : List DealClaim → Table (Table DealClaim) → Table (Table DealClaim)
unfolding emplace change_at
group_by_work [] by_work = by_work
group_by_work (c ∷ rest) by_work =
    group_by_work rest (change_at by_work c.work [] (λ deals. emplace deals c.deal c))

-- The result that a deal bought.
abbrev pub result_of : DealClaim → Hash
result_of c = elim c.portion [ none ↦ c.work | some portion ↦ portion ]

abbrev pub is_portion : DealClaim → Bool
is_portion c = elim c.portion [ none ↦ false | some portion ↦ true ]

-- The loop's variables over the deals of one work.
pub record Sorted : Type 0 where
  pub by_result : Table (List DealClaim)
  pub whole : Bool
  pub portions : Bool
  pub out : DealRecognition

unfoldable pub sort_deals : Table DealClaim → Sorted → Sorted
unfolding change_at
sort_deals [] s = s
sort_deals ((hash, c) ∷ rest) s =
    let out = s.out in
    let counted : Sorted = record s {
      portions = is_portion c || s.portions;
      whole = not (is_portion c) || s.whole;
      by_result = change_at s.by_result (result_of c) [] (λ cs. cs ++ (c ∷ []));
    } in
    let next : Sorted =
      if not c.addressed
      then record s { out = record out { unaddressed = hash ∷ out.unaddressed } }
      else if not c.settled
      then record s { out = record out { unsettled = hash ∷ out.unsettled } }
      else counted in
    sort_deals rest next

abbrev pub deals_of : List DealClaim → List Hash
deals_of cs = map (λ c. c.deal) cs

-- Another payer than that of the first deal.
abbrev pub other_payer : UserId → List DealClaim → Bool
other_payer payer [] = false
other_payer payer (c ∷ cs) = not (bytes_eq c.payer payer) || other_payer payer cs

-- `x->timestamp != y->timestamp ? x->timestamp < y->timestamp : x->deal < y->deal`.
abbrev pub earlier_deal : DealClaim → DealClaim → Bool
earlier_deal x y =
    if ltb_ℤ x.timestamp y.timestamp
    then true
    else if ltb_ℤ y.timestamp x.timestamp
    then false
    else bytes_le x.deal y.deal && not (bytes_eq x.deal y.deal)

-- `std::min_element`, as the position of the first least one and the deal there.
unfoldable pub min_from : ℕ → ℕ × DealClaim → List DealClaim → ℕ × DealClaim
min_from i best [] = best
min_from i best (c ∷ cs) = min_from (suc i) (if earlier_deal c best.1 then (i, c) else best) cs

-- The verdict on a deal of the one buyer of a result: the first one counts, the others repeat it.
unfoldable pub note_deal : Bool → DealClaim → DealRecognition → DealRecognition
note_deal is_first c out =
    if not is_first
    then record out { repeated = c.deal ∷ out.repeated }
    else if c.resale
    then record out { resold = c.deal ∷ out.resold }
    else record out { recognized = c.deal ∷ out.recognized }

-- The deals from position `i` on; the one at position `first` is the first.
unfoldable pub record_deals : ℕ → ℕ → List DealClaim → DealRecognition → DealRecognition
unfolding note_deal
record_deals first i [] out = out
record_deals first i (c ∷ cs) out = record_deals first (suc i) cs (note_deal (first == i) c out)

-- One result and the deals on it.
unfoldable pub judge_result : Hash → List DealClaim → DealRecognition → DealRecognition
unfolding min_from record_deals
judge_result result [] out = out
judge_result result (c ∷ cs) out =
    let all = c ∷ cs in
    if not c.sound
    then record out {
      unsound_results = result ∷ out.unsound_results;
      unsound = deals_of all ++ out.unsound;
    }
    else if other_payer c.payer cs
    then record out { oversold = result ∷ out.oversold; contested = deals_of all ++ out.contested }
    else record_deals (min_from 1 (0, c) cs).0 0 all out

unfoldable pub judge_results : Table (List DealClaim) → DealRecognition → DealRecognition
unfolding judge_result
judge_results [] out = out
judge_results ((result, cs) ∷ rest) out = judge_results rest (judge_result result cs out)

abbrev pub contest_all : Table (List DealClaim) → List Hash → List Hash
contest_all [] contested = contested
contest_all ((result, cs) ∷ rest) contested = contest_all rest (deals_of cs ++ contested)

unfoldable pub judge_work : Hash → Sorted → DealRecognition
unfolding judge_results
judge_work work s =
    let out = s.out in
    if s.whole && s.portions
    then record out {
      oversold = work ∷ out.oversold;
      contested = contest_all s.by_result out.contested;
    }
    else judge_results s.by_result out

unfoldable pub judge_works : Table (Table DealClaim) → DealRecognition → DealRecognition
unfolding sort_deals judge_work
judge_works [] out = out
judge_works ((work, deals) ∷ rest) out =
    let start : Sorted = record { by_result = []; whole = false; portions = false; out = out } in
    judge_works rest (judge_work work (sort_deals deals start))

unfoldable pub recognize_deals : List DealClaim → DealRecognition
unfolding group_by_work judge_works
recognize_deals claims = judge_works (group_by_work claims []) nothing_yet
