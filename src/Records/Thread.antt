-- ===== src/Records/Thread.antt =====
-- `check_bill` of settlement.cpp: the spends that a bill covers are one thread, up to the first break.
use free_labour_common_will.Base.{
  ◌≡◌, refl, ℕ, List, [], ◌∷◌, ◌++◌, Option, none, some, true, false, not, ◌||◌, bytes_eq_iff,
  Bool-cases, Option-cases, inl, inr, ◌⊎◌, arith, All, ap, ℤ,
}
use free_labour_common_will.Types.{UserId, Hash}
use free_labour_common_will.Records.Types.{Doubles, Ref}
use free_labour_common_will.Records.Bill.{
  Fault, BillSpend, BillRun, bill_run, torn, thread_fault, came_before, fault_of, judge, settle,
  is_dead, count, next_time, run_spends, check_bill, sort_spends, unique,
}

module _ (D : Doubles) where
  -- The hashes of spends, the newest first, in front of earlier ones.
  abbrev pub hashes_onto : List (BillSpend D) → List Hash → List Hash
  hashes_onto [] earlier = earlier
  hashes_onto (s ∷ rest) earlier = hashes_onto rest (s.hash ∷ earlier)

  -- Every spend names the one before it in the holder's chain, the first one none.
  abbrev pub IsThread : UserId → Option Hash → List (BillSpend D) → Type 0
  IsThread holder last [] = Unit
  IsThread holder none (s ∷ rest) = (s.prev ≡ none) × IsThread holder (some s.hash) rest
  IsThread holder (some last) (s ∷ rest) =
      (s.prev ≡ some (record { chain = holder; hash = last })) × IsThread holder (some s.hash) rest

  -- A spend from the purse the bill came to, after it came, of paper that is not frozen.
  pub record IsFromPurse (purse : ℕ) (arrived : Option ℕ) (s : BillSpend D) : Type 0 where
    pub free : s.frozen ≡ false
    pub here : s.node ≡ purse
    pub later : came_before arrived s.index ≡ false

  torn_lem :
      (holder : UserId) (last : Hash) (prev : Option Ref)
      → torn holder last prev ≡ false
      → prev ≡ some (record { chain = holder; hash = last })
  unfolding torn
  torn_lem holder last none e = absurd (ground (arith, e))
  torn_lem holder last (some prev) e =
      let c : prev.chain ≡ holder = (bytes_eq_iff prev.chain holder).0 (ground (arith, e)) in
      let h : prev.hash ≡ last = (bytes_eq_iff prev.hash last).0 (ground (arith, e)) in
      λ t. some (record { chain = c t; hash = h t })

  thread_fault-IsThread :
      (run : BillRun D) (s : BillSpend D) (rest : List (BillSpend D))
      → thread_fault D run s ≡ none
      → IsThread run.holder (some s.hash) rest
      → IsThread run.holder run.last (s ∷ rest)
  unfolding thread_fault
  thread_fault-IsThread run s rest e after = elim (Option-cases run.last) [
    | inl first ↦ elim (Option-cases s.prev) [
      | inl nothing ↦ rw first (nothing, after)
      | inr (p, g) ↦ absurd (ground (arith, e, first, g))
    ]
    | inr (last, f) ↦
        let whole : torn run.holder last s.prev ≡ false = ground (arith, e, f) in
        rw f (torn_lem run.holder last s.prev whole, after)
  ]

  fault_of-IsFromPurse :
      (run : BillRun D) (s : BillSpend D)
      → fault_of D run s ≡ none
      → IsFromPurse run.purse run.arrived s × (thread_fault D run s ≡ none)
  unfolding fault_of
  fault_of-IsFromPurse run s e = elim (Option-cases (thread_fault D run s)) [
    | inr (f, g) ↦ absurd (ground (arith, e, g))
    | inl sound ↦ (
      record { free = ground (arith, e); here = ground (arith, e); later = ground (arith, e) },
      sound,
    )
  ]

  -- The states after a spend past the break, at the break, and one that is covered.
  abbrev past_break : BillRun D → BillSpend D → BillRun D
  past_break run s = record run { st = record run.st { unbacked = s.hash ∷ run.st.unbacked } }

  abbrev at_break : BillRun D → BillSpend D → Fault → BillRun D
  at_break run s fault = record run {
    broken = true;
    st = record run.st { fault = some fault; unbacked = s.hash ∷ run.st.unbacked };
  }

  abbrev covering : BillRun D → BillSpend D → D.Double → BillRun D
  covering run s consumed = record run {
    last = some s.hash;
    broken = false;
    st = record run.st { backed = s.hash ∷ run.st.backed; consumed = consumed };
  }

  judge_broken :
      (run : BillRun D) (s : BillSpend D)
      → run.broken ≡ true
      → judge D run s ≡ (past_break run s, false)
  unfolding judge
  judge_broken run s e = rw (judge, e) refl

  judge_fault :
      (run : BillRun D) (s : BillSpend D) (fault : Fault)
      → run.broken ≡ false
      → fault_of D run s ≡ some fault
      → judge D run s ≡ (at_break run s fault, false)
  unfolding judge
  judge_fault run s fault e f = rw (judge, e, f) refl

  judge_sound :
      (run : BillRun D) (s : BillSpend D)
      → run.broken ≡ false
      → fault_of D run s ≡ none
      → judge D run s ≡ (covering run s run.st.consumed, true)
  unfolding judge
  judge_sound run s e f =
      rw (judge, e, f) (λ t. (record (covering run s run.st.consumed) { broken = e t }, true))

  settle_cases :
      (run : BillRun D) (s : BillSpend D) (consumed : D.Double) (next : Option ℤ)
      → (total : D.Double) × (settle D (covering run s consumed) s next ≡ covering run s total)
  unfolding settle
  settle_cases run s consumed next =
      elim (Bool-cases
        (not (count (covering run s consumed).st.backed s.hash) || is_dead D s next)) [
          | inl dead ↦ (consumed, rw (settle, dead) refl)
          | inr held ↦ (D.add consumed s.units, rw (settle, held) refl)
        ]

  -- The loop from a sound spend on, and from one that is not covered on.
  run_spends_sound :
      (run : BillRun D) (s : BillSpend D) (rest : List (BillSpend D))
      → run.broken ≡ false
      → fault_of D run s ≡ none
      → (total : D.Double) × (run_spends D run (s ∷ rest)
          ≡ run_spends D (covering run s total) rest)
  unfolding run_spends
  run_spends_sound run s rest e f =
      let (total, g) = settle_cases run s run.st.consumed (next_time D rest) in
      (total, rw (judge_sound run s e f) (λ t. run_spends D (g t) rest))

  run_spends_fault :
      (run : BillRun D) (s : BillSpend D) (rest : List (BillSpend D)) (fault : Fault)
      → run.broken ≡ false
      → fault_of D run s ≡ some fault
      → run_spends D run (s ∷ rest) ≡ run_spends D (at_break run s fault) rest
  unfolding run_spends
  run_spends_fault run s rest fault e f = rw (judge_fault run s fault e f) refl

  run_spends_past :
      (run : BillRun D) (s : BillSpend D) (rest : List (BillSpend D))
      → run.broken ≡ true
      → run_spends D run (s ∷ rest) ≡ run_spends D (past_break run s) rest
  unfolding run_spends
  run_spends_past run s rest e = rw (judge_broken run s e) refl

  run_spends_end : (run : BillRun D) → run_spends D run [] ≡ run
  unfolding run_spends
  run_spends_end run = refl

  -- Past the break, every spend is unbacked, and the first fault stays.
  run_spends_broken :
      (run : BillRun D) (rest : List (BillSpend D))
      → run.broken ≡ true
      → ((run_spends D run rest).st.backed ≡ run.st.backed)
        × ((run_spends D run rest).st.unbacked ≡ hashes_onto rest run.st.unbacked)
        × ((run_spends D run rest).st.fault ≡ run.st.fault)
  run_spends_broken run [] e = rw (run_spends_end run) (refl, refl, refl)
  run_spends_broken run (s ∷ rest) e =
      rw (run_spends_past run s rest e) (run_spends_broken (past_break run s) rest e)

  -- How the loop over `spends` ends, from `run` in `after`.
  pub record IsCovered (run after : BillRun D) (front back : List (BillSpend D)) : Type 0 where
    pub backed : after.st.backed ≡ hashes_onto front run.st.backed
    pub unbacked : after.st.unbacked ≡ hashes_onto back run.st.unbacked
    pub thread : IsThread run.holder run.last front
    pub own : All (IsFromPurse run.purse run.arrived) front
    pub stopped : (back ≡ []) ⊎ ((fault : Fault) × (after.st.fault ≡ some fault))

  run_spends_lem :
      (run : BillRun D) (spends : List (BillSpend D))
      → run.broken ≡ false
      → (front : List (BillSpend D)) × (back : List (BillSpend D)) × (spends ≡ front ++ back)
        × IsCovered run (run_spends D run spends) front back
  run_spends_lem run [] e = (
    [],
    [],
    refl,
    rw (run_spends_end run)
        (record { backed = refl; unbacked = refl; thread = tt; own = tt; stopped = inl refl }),
  )
  run_spends_lem run (s ∷ rest) e = elim (Option-cases (fault_of D run s)) [
    | inr (fault, f) ↦
        let (b, u, g) = run_spends_broken (at_break run s fault) rest refl in
        (
          [],
          s ∷ rest,
          refl,
          rw (run_spends_fault run s rest fault e f) (record {
            backed = b;
            unbacked = u;
            thread = tt;
            own = tt;
            stopped = inr (fault, g);
          }),
        )
    | inl f ↦
        let (total, g) = run_spends_sound run s rest e f in
        let (front, back, split, c) = run_spends_lem (covering run s total) rest refl in
        let (own, sound) = fault_of-IsFromPurse run s f in
        (
          s ∷ front,
          back,
          ap (λ l. s ∷ l) split,
          rw g (record {
            backed = c.backed;
            unbacked = c.unbacked;
            thread = thread_fault-IsThread run s front sound c.thread;
            own = (own, c.own);
            stopped = c.stopped;
          }),
        )
  ]

  -- check_bill splits the sorted spends, without repeated neighbours, in two parts: those of the first
  -- are backed, come from the purse of the bill after it came and are not frozen, and each names the
  -- one before it in the holder's chain; those of the second are unbacked, and if there is one, a
  -- fault is named.
  pub check_bill-IsCovered :
      (holder : UserId) (purse : ℕ) (credited : D.Double) (arrived : Option ℕ)
      (spends : List (BillSpend D))
      → (front : List (BillSpend D)) × (back : List (BillSpend D)) × (unique D
            (sort_spends D spends)
          ≡ front ++ back)
        × ((check_bill D holder purse credited arrived spends).backed ≡ hashes_onto front [])
        × ((check_bill D holder purse credited arrived spends).unbacked ≡ hashes_onto back [])
        × IsThread holder none front
        × All (IsFromPurse purse arrived) front
        × ((back ≡ [])
            ⊎ ((fault : Fault) × ((check_bill D holder purse credited arrived spends).fault
                  ≡ some fault)))
  unfolding check_bill bill_run
  check_bill-IsCovered holder purse credited arrived spends =
      let (front, back, split, c) =
        run_spends_lem (bill_run D holder purse credited arrived) (unique D (sort_spends D spends))
          refl in
      (front, back, split, c.backed, c.unbacked, c.thread, c.own, c.stopped)
