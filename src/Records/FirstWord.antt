-- ===== src/Records/FirstWord.antt =====
-- `answer_of` of settlement.cpp: the first word of the purse that is paid is final.
use free_labour_common_will.Base.{◌≡◌, ◌≤◌, ℕ, ◌+◌, List, Option, some, true, get_elem?, ◌⊎◌}
use free_labour_common_will.Records.Types.{Doubles, Ref, Transfer}
use free_labour_common_will.Records.Settlement.{ObservedReply, answers}

module _ (D : Doubles) (deal : Transfer D) (deal_ref : Ref) where
  -- No answer among `rs` stands before `r` in its branch.
  abbrev pub IsLeast : List ObservedReply → ObservedReply → Type 0
  IsLeast rs r =
      (j : ℕ) (other : ObservedReply)
      → get_elem? rs j ≡ some other
      → answers D deal deal_ref other ≡ true
      → r.index ≤ other.index

  -- What `first` is after the loop over `rs` that starts at position `i` with `before`.
  record IsFirst (i : ℕ) (rs : List ObservedReply) (before : Option (ℕ × ObservedReply)) (k : ℕ)
      (r : ObservedReply) : Type 0 where
    stands :
        (before ≡ some (k, r))
        ⊎ ((j : ℕ) × (get_elem? rs j ≡ some r) × (k ≡ i + j) × (answers D deal deal_ref r ≡ true))
    least : IsLeast rs r
    kept : (m : ℕ) (best : ObservedReply) → before ≡ some (m, best) → r.index ≤ best.index

  abbrev pair : ℕ → ObservedReply → Option (ℕ × ObservedReply)
  pair i x = some (i, x)
