-- ===== src/Examples/Stores.antt =====
-- Two databases that keep LMDB's promises: a table that can be written, and one with a single key.
use free_labour_common_will.Base.{
  ◌≡◌, refl, ℕ, List, [], ◌∷◌, Bool, true, false, Option, none, some, bytes_eq, bytes_eq_iff,
  bytes_eq_self, bytes_le, bytes_le_self, Bool-cases, Option-cases, inl, inr, arith, Table, find,
  assign, find-assign_same, find-assign_other, if◌then◌else◌,
}
use free_labour_common_will.Lmdb.Interface.{
  Lmdb, LmdbLaws, Got, value, not_found, stored, key_exist, put_failed, at_key, past_end,
  seek_failed, Present,
}

abbrev found_value : Option (List ℕ) → Got
found_value none = not_found
found_value (some v) = value v

abbrev is_some : Option (List ℕ) → Bool
is_some none = false
is_some (some v) = true

-- Its cursors fail, which LMDB allows.
abbrev pub table_db : Lmdb
table_db = record {
  Db = Table (List ℕ);
  get = λ db k. found_value (find db k);
  put = λ flag db k v.
      if flag
      then (if is_some (find db k) then key_exist else stored (assign db k v))
      else stored (assign db k v);
  set_range = λ db k. seek_failed;
  prev = λ db k. seek_failed;
  last = λ db. seek_failed;
  scan = λ db. db;
  begins = λ db. true;
  opens_cursor = λ db. true;
  commits = λ db. true;
}

table_put :
    (flag : Bool) (db db' : Table (List ℕ)) (k v : List ℕ)
    → table_db.put flag db k v ≡ stored db'
    → assign db k v ≡ db'
table_put true db db' k v e = elim (Bool-cases (is_some (find db k))) [
  | inl old ↦ absurd (ground (arith, e))
  | inr new ↦ ground (arith, e)
]
table_put false db db' k v e = ground (arith, e)

pub table_laws : LmdbLaws table_db
table_laws = record {
  get_stored =
      λ flag db db' k v e. rw (← table_put flag db db' k v e, find-assign_same db k v) refl;
  get_other = λ flag db db' k v k' e apart.
      let other : bytes_eq k k' ≡ false = elim (Bool-cases (bytes_eq k k')) [
        | inl same ↦ absurd (apart ((bytes_eq_iff k k').0 same))
        | inr different ↦ different
      ] in
      rw (← table_put flag db db' k v e, find-assign_other db k v k' other) refl;
  no_overwrite = λ db db' k v w e there. elim (Option-cases (find db k)) [
    | inl free ↦ absurd (ground (arith, there))
    | inr (x, taken) ↦ absurd (ground (arith, e))
  ];
  exists_only = λ db k v e. elim (Option-cases (find db k)) [
    | inl free ↦ absurd (ground (arith, e))
    | inr (x, taken) ↦ (x, rw taken refl)
  ];
  set_range_at = λ db k k' e. absurd (ground (arith, e));
  set_range_end = λ db k e. absurd (ground (arith, e));
  prev_at = λ db k k' e. absurd (ground (arith, e));
  prev_end = λ db k e. absurd (ground (arith, e));
  last_at = λ db k' e. absurd (ground (arith, e));
  last_end = λ db e. absurd (ground (arith, e));
}

-- A database with one key, that cannot be written.
module _ (only : List ℕ) where
  abbrev pub single_db : Lmdb
  single_db = record {
    Db = Unit;
    get = λ db k. if bytes_eq only k then value [] else not_found;
    put = λ flag db k v. put_failed;
    set_range = λ db k. if bytes_le k only then at_key only else past_end;
    prev = λ db k. if bytes_le k only then past_end else at_key only;
    last = λ db. at_key only;
    scan = λ db. (only, []) ∷ [];
    begins = λ db. true;
    opens_cursor = λ db. true;
    commits = λ db. true;
  }

  single_there : (db : Unit) → Present single_db db only
  single_there db = ([], rw (bytes_eq_self only) refl)

  pub single_only : (db : Unit) (k : List ℕ) → Present single_db db k → only ≡ k
  single_only db k (v, e) = elim (Bool-cases (bytes_eq only k)) [
    | inl same ↦ (bytes_eq_iff only k).0 same
    | inr other ↦ absurd (ground (arith, e))
  ]

  pub single_laws : LmdbLaws single_db
  single_laws = record {
    get_stored = λ flag db db' k v e. absurd (ground (arith, e));
    get_other = λ flag db db' k v k' e apart. absurd (ground (arith, e));
    no_overwrite = λ db db' k v w e there. absurd (ground (arith, e));
    exists_only = λ db k v e. absurd (ground (arith, e));
    set_range_at = λ db k k' e. elim (Bool-cases (bytes_le k only)) [
      | inr above ↦ absurd (ground (arith, e))
      | inl below ↦
          let same : only ≡ k' = ground (arith, e) in
          (rw (← same) below, λ x px h. rw (← same, single_only db x px) (bytes_le_self x))
    ];
    set_range_end = λ db k e x px. elim (Bool-cases (bytes_le k only)) [
      | inr above ↦ rw (← single_only db x px) above
      | inl below ↦ absurd (ground (arith, e))
    ];
    prev_at = λ db k k' e. elim (Bool-cases (bytes_le k only)) [
      | inl below ↦ absurd (ground (arith, e))
      | inr above ↦
          let same : only ≡ k' = ground (arith, e) in
          rw (← same) (single_there db, above, λ x px h. rw (single_only db x px) (bytes_le_self x))
    ];
    prev_end = λ db k e x px. elim (Bool-cases (bytes_le k only)) [
      | inl below ↦ rw (← single_only db x px) below
      | inr above ↦ absurd (ground (arith, e))
    ];
    last_at = λ db k' e.
        let same : only ≡ k' = ground (arith, e) in
        rw (← same) (single_there db, λ x px. rw (single_only db x px) (bytes_le_self x));
    last_end = λ db e. absurd (ground (arith, e));
  }
