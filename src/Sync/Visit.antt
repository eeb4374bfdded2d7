-- ===== src/Sync/Visit.antt =====
-- `visit_child` and `visit_children` of the cache's search: what a round does to its state.
use free_labour_common_will.Base.{
  ◌≡◌, ◌≤◌, refl, sym, ℕ, ◌+◌, ◌*◌, List, [], ◌∷◌, length, none, some, bytes_eq, bytes_eq_iff,
  bytes_eq_self, Table, find, Bool-cases, Option-cases, inl, inr, ◌⊎◌, arith, All, Has,
}
use free_labour_common_will.Types.{Hash}
use free_labour_common_will.Sync.Cache.{Composition, Visit, visit_child, visit_children}
use free_labour_common_will.Sync.Arrival.{find_newer, visited_before}
use free_labour_common_will.Sync.Climb.{IsVisited, IsTree, IsChild}

-- 1 for a hash that `parent_of` does not have yet.
abbrev pub missing : Table Hash → Hash → ℕ
missing parent_of k = elim (find parent_of k) [ none ↦ 1 | some parent ↦ 0 ]

-- How many children of the table are not met yet, counted as often as they occur.
abbrev pub unmet : Table Composition → Table Hash → ℕ
unmet [] parent_of = 0
unmet ((k, comp) ∷ rest) parent_of =
    missing parent_of comp.left_child + missing parent_of comp.right_child + unmet rest parent_of

pub unmet_bound :
    (compositions : Table Composition) (parent_of : Table Hash)
    → unmet compositions parent_of ≤ 2 * length compositions
unmet_bound [] parent_of = omega arith
unmet_bound ((k, comp) ∷ rest) parent_of =
    let a : missing parent_of comp.left_child ≤ 1 = missing_bound parent_of comp.left_child in
    let b : missing parent_of comp.right_child ≤ 1 = missing_bound parent_of comp.right_child in
    omega (arith, unmet_bound rest parent_of)
  where
    missing_bound : (parent_of : Table Hash) (k : Hash) → missing parent_of k ≤ 1
    missing_bound parent_of k = elim (Option-cases (find parent_of k)) [
      | inl e ↦ rw (e, missing) (omega arith)
      | inr (parent, e) ↦ rw (e, missing) (omega arith)
    ]

missing_less :
    (parent_of : Table Hash) (child cur k : Hash)
    → missing ((child, cur) ∷ parent_of) k ≤ missing parent_of k
missing_less parent_of child cur k = elim (Bool-cases (bytes_eq child k)) [
  | inl same ↦ rw (same, missing) (omega arith)
  | inr other ↦ rw (other, missing) (omega arith)
]

missing_once :
    (parent_of : Table Hash) (child cur : Hash)
    → find parent_of child ≡ none
    → missing ((child, cur) ∷ parent_of) child + 1 ≤ missing parent_of child
missing_once parent_of child cur fresh = rw (bytes_eq_self child, fresh, missing) (omega arith)

unmet_less :
    (compositions : Table Composition) (parent_of : Table Hash) (child cur : Hash)
    → unmet compositions ((child, cur) ∷ parent_of) ≤ unmet compositions parent_of
unmet_less [] parent_of child cur = omega arith
unmet_less ((k, comp) ∷ rest) parent_of child cur =
    let a = missing_less parent_of child cur comp.left_child in
    let b = missing_less parent_of child cur comp.right_child in
    omega (arith, a, b, unmet_less rest parent_of child cur)

-- An entry for a child of the table leaves one fewer.
unmet_once :
    (compositions : Table Composition) (parent_of : Table Hash) (key child cur : Hash)
    (comp : Composition)
    → find compositions key ≡ some comp
    → IsChild child comp
    → find parent_of child ≡ none
    → unmet compositions ((child, cur) ∷ parent_of) + 1 ≤ unmet compositions parent_of
unmet_once [] parent_of key child cur comp e side fresh = absurd (ground (arith, e))
unmet_once ((k, c) ∷ rest) parent_of key child cur comp e side fresh =
    let a = missing_less parent_of child cur c.left_child in
    let b = missing_less parent_of child cur c.right_child in
    let once = missing_once parent_of child cur fresh in
    elim (Bool-cases (bytes_eq k key)) [
      | inl same ↦
          let c_eq : c ≡ comp = ground (arith, e) in
          let l = unmet_less rest parent_of child cur in
          elim side [
            | inl p ↦
                let q : child ≡ c.left_child = rw c_eq p in
                let one : missing ((child, cur) ∷ parent_of) c.left_child + 1
                    ≤ missing parent_of c.left_child =
                  rw (← q) once in
                omega (arith, one, b, l)
            | inr p ↦
                let q : child ≡ c.right_child = rw c_eq p in
                let one : missing ((child, cur) ∷ parent_of) c.right_child + 1
                    ≤ missing parent_of c.right_child =
                  rw (← q) once in
                omega (arith, a, one, l)
          ]
      | inr other ↦
          let later : find rest key ≡ some comp = ground (arith, e) in
          omega (arith, a, b, unmet_once rest parent_of key child cur comp later side fresh)
    ]

module _ (compositions : Table Composition) (target : Hash) where
  -- What is known of the search when it has reached `v`.
  pub record IsSearch (v : Visit) : Type 0 where
    pub tree : IsTree compositions target v.parent_of
    pub met : All (IsVisited target v.parent_of) v.stack

  -- What holds between two states of the search: nothing is forgotten, what is new is on the
  -- stack, and the work left does not grow.
  pub record IsLater (old new : Visit) : Type 0 where
    pub keep : (k v : Hash) → find old.parent_of k ≡ some v → find new.parent_of k ≡ some v
    pub stays : (k : Hash) → Has k old.stack → Has k new.stack
    pub fresh :
        (k : Hash)
        → IsVisited target new.parent_of k
        → IsVisited target old.parent_of k ⊎ Has k new.stack
    pub work :
        length new.stack + unmet compositions new.parent_of
        ≤ length old.stack + unmet compositions old.parent_of

  pub IsVisited-keep :
      (old new : Table Hash) (k : Hash)
      → ((k v : Hash) → find old k ≡ some v → find new k ≡ some v)
      → IsVisited target old k
      → IsVisited target new k
  IsVisited-keep old new k keep (inl e) = inl e
  IsVisited-keep old new k keep (inr (v, e)) = inr (v, keep k v e)

  IsVisited-All :
      (old new : Table Hash) (ks : List Hash)
      → ((k v : Hash) → find old k ≡ some v → find new k ≡ some v)
      → All (IsVisited target old) ks
      → All (IsVisited target new) ks
  IsVisited-All old new [] keep all = tt
  IsVisited-All old new (k ∷ ks) keep (one, all) =
      (IsVisited-keep old new k keep one, IsVisited-All old new ks keep all)

  IsLater-trans : (a b c : Visit) → IsLater a b → IsLater b c → IsLater a c
  IsLater-trans a b c p q = record {
    keep = λ k v e. q.keep k v (p.keep k v e);
    stays = λ k h. q.stays k (p.stays k h);
    fresh = λ k h. elim (q.fresh k h) [
      | inr on ↦ inr on
      | inl before ↦ elim (p.fresh k before) [ inl old ↦ inl old | inr on ↦ inr (q.stays k on) ]
    ];
    work = let a = p.work in let b = q.work in omega (arith, a, b);
  }

  pub IsLater-refl : (v : Visit) → IsLater v v
  IsLater-refl v = record {
    keep = λ k u e. e;
    stays = λ k h. h;
    fresh = λ k h. inl h;
    work = omega arith;
  }

  -- The state with a child that is new.
  abbrev pushed : Hash → Hash → Visit → Visit
  pushed cur child v = record { parent_of = (child, cur) ∷ v.parent_of; stack = child ∷ v.stack }

  visit_child_known :
      (cur child parent : Hash) (v : Visit)
      → find v.parent_of child ≡ some parent
      → visit_child cur child v ≡ v
  unfolding visit_child
  visit_child_known cur child parent v e = rw (e, visit_child) refl

  visit_child_new :
      (cur child : Hash) (v : Visit)
      → find v.parent_of child ≡ none
      → visit_child cur child v ≡ pushed cur child v
  unfolding visit_child
  visit_child_new cur child v e = rw (e, visit_child) refl

  pushed-IsLater :
      (cur child : Hash) (comp : Composition) (v : Visit)
      → find compositions cur ≡ some comp
      → IsChild child comp
      → find v.parent_of child ≡ none
      → IsLater v (pushed cur child v)
  pushed-IsLater cur child comp v e side new = record {
    keep = find_newer v.parent_of child cur new;
    stays = λ k h. inr h;
    fresh = λ k h. elim (Bool-cases (bytes_eq child k)) [
      | inl same ↦ inr (inl (sym ((bytes_eq_iff child k).0 same)))
      | inr other ↦ inl (visited_before target v.parent_of k child cur other h)
    ];
    work =
        let once = unmet_once compositions v.parent_of cur child cur comp e side new in
        omega (arith, once);
  }

  -- One child of `cur`, which was met before.
  visit_child_lem :
      (cur child : Hash) (comp : Composition) (v : Visit)
      → find compositions cur ≡ some comp
      → IsChild child comp
      → IsVisited target v.parent_of cur
      → IsSearch v
      → IsSearch (visit_child cur child v)
        × IsLater v (visit_child cur child v)
        × IsVisited target (visit_child cur child v).parent_of child
  visit_child_lem cur child comp v e side met s = elim (Option-cases (find v.parent_of child)) [
    | inr (parent, f) ↦
        rw (visit_child_known cur child parent v f) (s, IsLater-refl v, inr (parent, f))
    | inl f ↦
        let on = pushed-IsLater cur child comp v e side f in
        let found : find (pushed cur child v).parent_of child ≡ some cur =
          rw (bytes_eq_self child) refl in
        let next : IsSearch (pushed cur child v) = record {
          tree = (f, met, (comp, e, side), s.tree);
          met = (
            inr (cur, found),
            IsVisited-All v.parent_of (pushed cur child v).parent_of v.stack on.keep s.met,
          );
        } in
        rw (visit_child_new cur child v f) (next, on, inr (cur, found))
  ]

  -- Both children of `cur`.
  pub visit_children_lem :
      (cur : Hash) (comp : Composition) (v : Visit)
      → find compositions cur ≡ some comp
      → IsVisited target v.parent_of cur
      → IsSearch v
      → IsSearch (visit_children cur comp v)
        × IsLater v (visit_children cur comp v)
        × IsVisited target (visit_children cur comp v).parent_of comp.left_child
        × IsVisited target (visit_children cur comp v).parent_of comp.right_child
  unfolding visit_children
  visit_children_lem cur comp v e met s =
      let (s1, l1, left) = visit_child_lem cur comp.left_child comp v e (inl refl) met s in
      let met1 = IsVisited-keep _ _ cur l1.keep met in
      let (s2, l2, right) = visit_child_lem cur comp.right_child comp _ e (inr refl) met1 s1 in
      (s2, IsLater-trans _ _ _ l1 l2, IsVisited-keep _ _ comp.left_child l2.keep left, right)
