-- ===== src/Records/Bill.antt =====
-- modules/records/include/records/settlement.h and the second half of
-- modules/records/src/settlement.cpp: which spends of a bill it covers. A fault's text is its constructor.
use free_labour_common_will.Base.{
  ℕ, ℤ, ltb_ℤ, List, [], ◌∷◌, Option, none, some, Bool, true, false, not, ◌&&◌, ◌||◌, ◌==◌, ltb,
  leb, bytes_eq, bytes_le, if◌then◌else◌,
}
use free_labour_common_will.Types.{UserId, Hash}
use free_labour_common_will.Records.Types.{Doubles, Ref}
use free_labour_common_will.Records.Settlement.{Answer, no_answer, accepted, refused}

pub data Fault : Type 0 where
  deposit_is_frozen wrong_purse before_arrival missing_previous torn_thread over_spent : Fault

-- `std::set<Hash>`, as the list of what was inserted.
abbrev pub count : List Hash → Hash → Bool
count [] h = false
count (x ∷ xs) h = bytes_eq x h || count xs h

-- `!s.prev || s.prev->chain != holder_ || s.prev->hash != *last_`.
unfoldable pub torn : UserId → Hash → Option Ref → Bool
torn holder last none = true
torn holder last (some prev) = not (bytes_eq prev.chain holder) || not (bytes_eq prev.hash last)

-- `arrived_ && s.index <= *arrived_`.
abbrev pub came_before : Option ℕ → ℕ → Bool
came_before none index = false
came_before (some arrived) index = leb index arrived

-- `next_timestamp && *next_timestamp > s.until`.
abbrev pub spent_past : Option ℤ → ℤ → Bool
spent_past none until = false
spent_past (some next) until = ltb_ℤ until next

module _ (D : Doubles) where
  pub record BillSpend : Type 0 where
    pub hash : Hash
    pub node : ℕ
    pub index : ℕ
    pub timestamp : ℤ
    pub units : D.Double
    pub prev : Option Ref
    pub move : Bool
    pub answer : Answer
    pub until : ℤ
    pub stands : Bool
    pub frozen : Bool

  pub record BillState : Type 0 where
    pub credited : D.Double
    pub consumed : D.Double
    pub backed : List Hash
    pub unbacked : List Hash
    pub fault : Option Fault

  unfoldable pub remaining : BillState → D.Double
  remaining st = D.sub st.credited st.consumed

  pub record BillRun : Type 0 where
    pub holder : UserId
    pub purse : ℕ
    pub arrived : Option ℕ
    pub last : Option Hash
    pub broken : Bool
    pub st : BillState

  unfoldable pub bill_run : UserId → ℕ → D.Double → Option ℕ → BillRun
  bill_run holder purse credited arrived = record {
    holder = holder;
    purse = purse;
    arrived = arrived;
    last = none;
    broken = false;
    st = record {
      credited = credited;
      consumed = D.zero_units;
      backed = [];
      unbacked = [];
      fault = none;
    };
  }

  -- The thread's fault at the first spend, and at a later one.
  unfoldable pub thread_fault : BillRun → BillSpend → Option Fault
  unfolding torn
  thread_fault run s = elim run.last [
    | none ↦ elim s.prev [ none ↦ none | some prev ↦ some missing_previous ]
    | some last ↦ if torn run.holder last s.prev then some torn_thread else none
  ]

  unfoldable pub fault_of : BillRun → BillSpend → Option Fault
  unfolding thread_fault remaining
  fault_of run s =
      let covered =
        if D.exceeds s.units (D.add (remaining run.st) D.tolerance)
        then some over_spent
        else none in
      let thread = elim (thread_fault run s) as (λ f. Option Fault) [
        | none ↦ covered
        | some fault ↦ some fault
      ] in
      if s.frozen
      then some deposit_is_frozen
      else if not (s.node == run.purse)
      then some wrong_purse
      else if came_before run.arrived s.index
      then some before_arrival
      else thread

  -- `BillRun::judge`.
  unfoldable pub judge : BillRun → BillSpend → BillRun × Bool
  unfolding fault_of
  judge run s =
      let after : BillRun × Bool = elim (fault_of run s) [
        | some fault ↦ (
          record run {
            broken = true;
            st = record run.st { fault = some fault; unbacked = s.hash ∷ run.st.unbacked };
          },
          false,
        )
        | none ↦ (
          record run { last = some s.hash; st = record run.st { backed = s.hash ∷ run.st.backed } },
          true,
        )
      ] in
      if run.broken
      then (record run { st = record run.st { unbacked = s.hash ∷ run.st.unbacked } }, false)
      else after

  unfoldable pub is_dead : BillSpend → Option ℤ → Bool
  is_dead s next_timestamp =
      let unanswered : Bool = elim s.answer [
        | refused ↦ true
        | no_answer ↦ spent_past next_timestamp s.until
        | accepted ↦ false
      ] in
      not s.stands || not s.move && unanswered

  -- `BillRun::settle`.
  unfoldable pub settle : BillRun → BillSpend → Option ℤ → BillRun
  unfolding is_dead
  settle run s next_timestamp =
      if not (count run.st.backed s.hash) || is_dead s next_timestamp
      then run
      else record run { st = record run.st { consumed = D.add run.st.consumed s.units } }

  -- `a.index != b.index ? a.index < b.index : a.hash < b.hash`, or the two are equal.
  abbrev pub not_after : BillSpend → BillSpend → Bool
  not_after a b = if a.index == b.index then bytes_le a.hash b.hash else ltb a.index b.index

  abbrev pub insert_spend : BillSpend → List BillSpend → List BillSpend
  insert_spend a [] = a ∷ []
  insert_spend a (b ∷ bs) =
      let later = insert_spend a bs in if not_after a b then a ∷ b ∷ bs else b ∷ later

  unfoldable pub sort_spends : List BillSpend → List BillSpend
  sort_spends [] = []
  sort_spends (a ∷ rest) = insert_spend a (sort_spends rest)

  -- `std::unique`: of neighbours with one hash, the first is kept.
  unfoldable pub unique_from : BillSpend → List BillSpend → List BillSpend
  unique_from a [] = a ∷ []
  unique_from a (b ∷ bs) =
      let dropped = unique_from a bs in
      let kept = unique_from b bs in if bytes_eq a.hash b.hash then dropped else a ∷ kept

  unfoldable pub unique : List BillSpend → List BillSpend
  unfolding unique_from
  unique [] = []
  unique (a ∷ rest) = unique_from a rest

  abbrev pub next_time : List BillSpend → Option ℤ
  next_time [] = none
  next_time (s ∷ rest) = some s.timestamp

  -- The loop of `check_bill`.
  unfoldable pub run_spends : BillRun → List BillSpend → BillRun
  unfolding judge settle
  run_spends run [] = run
  run_spends run (s ∷ rest) =
      let judged = judge run s in
      run_spends (if judged.1 then settle judged.0 s (next_time rest) else judged.0) rest

  unfoldable pub check_bill : UserId → ℕ → D.Double → Option ℕ → List BillSpend → BillState
  unfolding run_spends sort_spends unique bill_run
  check_bill holder purse credited arrived spends =
      (run_spends (bill_run holder purse credited arrived) (unique (sort_spends spends))).st
