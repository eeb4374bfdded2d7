-- ===== src/SealManager/Witnessed.antt =====
-- What `compute_witnessed_time` finds.
use free_labour_common_will.Base.{
  All, ap, sym, ◌∙◌, ℤ, ◌≡◌, refl, List, [], ◌∷◌, Has, true, false, Option, none, some, arith, inl,
  inr, ◌⊎◌, ltb_ℤ, ◌≤ℤ◌, Bool-cases,
}
use free_labour_common_will.Types.{Block, BlockAddress, MergePayload, merge, type_eq}
use free_labour_common_will.Types.Outcome.{
  Result, ok, err, Result-cases, crypto_error, signature_error, chain_integrity_error,
  timestamp_error, node_not_found, block_not_found, storage_error, serialization_error,
  invalid_argument_error, revocation_error, length_error, out_of_bounds,
}
use free_labour_common_will.Serializer.Decode.{decode, dec_merge_payload}
use free_labour_common_will.SealManager.{
  witnesses, visit, visit_all, earlier, after_payload, compute_witnessed_time,
}
use free_labour_common_will.Storage.{IStorage}

-- A MERGE block that took a tip of the branch at the index or behind it.
pub record IsWitness (address : BlockAddress) (b : Block) : Type 0 where
  pub kind : type_eq b.kind merge ≡ true
  pub payload : MergePayload
  pub decoded : decode dec_merge_payload b.payload ≡ ok payload
  pub takes : witnesses address payload ≡ true

-- `best` is a bound: no time where there is none, and a time that is not after `ts` otherwise.
abbrev pub AtMost : Option ℤ → ℤ → Type 0
AtMost none ts = ⊥
AtMost (some t) ts = t ≤ℤ ts

payload_cases :
    (address : BlockAddress) (best next : Option ℤ) (ts : ℤ) (r : Result MergePayload)
    → after_payload address best ts r ≡ ok next
    → ((next ≡ best) × ((mp : MergePayload) → r ≡ ok mp → witnesses address mp ≡ false))
      ⊎ ((mp : MergePayload) × (r ≡ ok mp)
          × (witnesses address mp ≡ true)
          × (next ≡ some (earlier ts best)))
payload_cases address best next ts (ok mp) h = elim (Bool-cases (witnesses address mp)) [
  | inl takes ↦ inr (mp, refl, takes, ground (arith, takes))
  | inr passes ↦
      inl (ground (arith, passes), λ other e. let same : mp ≡ other = cc in rw (← same) passes)
]
payload_cases address best next ts (err serialization_error) h =
    inl (ground arith, λ mp e. absurd (ground arith))
payload_cases address best next ts (err crypto_error) h = absurd (ground arith)
payload_cases address best next ts (err signature_error) h = absurd (ground arith)
payload_cases address best next ts (err chain_integrity_error) h = absurd (ground arith)
payload_cases address best next ts (err timestamp_error) h = absurd (ground arith)
payload_cases address best next ts (err (node_not_found i)) h = absurd (ground arith)
payload_cases address best next ts (err (block_not_found a)) h = absurd (ground arith)
payload_cases address best next ts (err storage_error) h = absurd (ground arith)
payload_cases address best next ts (err invalid_argument_error) h = absurd (ground arith)
payload_cases address best next ts (err revocation_error) h = absurd (ground arith)
payload_cases address best next ts (err length_error) h = absurd (ground arith)
payload_cases address best next ts (err out_of_bounds) h = absurd (ground arith)

visit_cases :
    (address : BlockAddress) (best next : Option ℤ) (b : Block)
    → visit address best b ≡ ok next
    → ((next ≡ best) × (IsWitness address b → ⊥))
      ⊎ (IsWitness address b × (next ≡ some (earlier b.timestamp_claimed best)))
unfolding visit
visit_cases address best next b h = elim (Bool-cases (type_eq b.kind merge)) [
  | inr other ↦ inl (ground (arith, other), λ w. let k = w.kind in ground (arith, other, k))
  | inl kind ↦
      elim (payload_cases address best next b.timestamp_claimed (decode dec_merge_payload b.payload)
        (ground (arith, kind))) [
          | inl (same, passes) ↦ inl (
            same,
            λ w. let t = w.takes in let p = passes w.payload w.decoded in ground (arith, t, p),
          )
          | inr (mp, e, takes, new) ↦
              inr (record { kind = kind; payload = mp; decoded = e; takes = takes }, new)
        ]
]

earlier_bounds : (best : Option ℤ) (ts : ℤ) → earlier ts best ≤ℤ ts
earlier_bounds none ts = omega arith
earlier_bounds (some t) ts = ground arith

earlier_keeps : (best : Option ℤ) (ts other : ℤ) → AtMost best other → earlier ts best ≤ℤ other
earlier_keeps none ts other h = absurd h
earlier_keeps (some t) ts other h = ground arith

visit_keeps :
    (address : BlockAddress) (best next : Option ℤ) (b : Block)
    → visit address best b ≡ ok next
    → (ts : ℤ) → AtMost best ts
    → AtMost next ts
visit_keeps address best next b h ts m = elim (visit_cases address best next b h) [
  | inl (same, _) ↦ rw same m
  | inr (w, new) ↦ rw new (earlier_keeps best b.timestamp_claimed ts m)
]

visit_bounds :
    (address : BlockAddress) (best next : Option ℤ) (b : Block)
    → visit address best b ≡ ok next
    → IsWitness address b
    → AtMost next b.timestamp_claimed
visit_bounds address best next b h w = elim (visit_cases address best next b h) [
  | inl (_, passes) ↦ absurd (passes w)
  | inr (_, new) ↦ rw new (earlier_bounds best b.timestamp_claimed)
]

all_keep :
    (address : BlockAddress) (best last : Option ℤ) (bs : List Block)
    → visit_all address best bs ≡ ok last
    → (ts : ℤ) → AtMost best ts
    → AtMost last ts
unfolding visit_all
all_keep address best last [] h ts m = let same : last ≡ best = cc in rw same m
all_keep address best last (b ∷ bs) h ts m = elim (Result-cases (visit address best b)) [
  | inr (x, e) ↦ absurd (ground (arith, e))
  | inl (next, e) ↦
      all_keep address next last bs (ground (arith, e)) ts (visit_keeps address best next b e ts m)
]

all_bounds :
    (address : BlockAddress) (best last : Option ℤ) (bs : List Block)
    → visit_all address best bs ≡ ok last
    → All (λ b. IsWitness address b → AtMost last b.timestamp_claimed) bs
unfolding visit_all
all_bounds address best last [] h = tt
all_bounds address best last (b ∷ bs) h = elim (Result-cases (visit address best b)) [
  | inr (x, e) ↦ absurd (ground (arith, e))
  | inl (next, e) ↦
      let rest : visit_all address next bs ≡ ok last = ground (arith, e) in
      (
        λ w.
            all_keep address next last bs rest b.timestamp_claimed
              (visit_bounds address best next b e w),
        all_bounds address next last bs rest,
      )
]

-- A block of the list that witnesses the address at the time `t`.
pub record WitnessedAt (address : BlockAddress) (t : ℤ) (bs : List Block) : Type 0 where
  pub block : Block
  pub stored : Has block bs
  pub witness : IsWitness address block
  pub time : block.timestamp_claimed ≡ t

abbrev behind :
    {address : BlockAddress} {t : ℤ} {bs : List Block} (b : Block)
    → WitnessedAt address t bs
    → WitnessedAt address t (b ∷ bs)
behind b w = record { block = w.block; stored = inr w.stored; witness = w.witness; time = w.time }

earlier_cases :
    (best : Option ℤ) (ts : ℤ) → (earlier ts best ≡ ts) ⊎ (best ≡ some (earlier ts best))
earlier_cases none ts = inl refl
earlier_cases (some t) ts = elim (Bool-cases (ltb_ℤ ts t)) [
  | inl before ↦ inl (rw before refl)
  | inr not_before ↦ inr (rw not_before refl)
]

all_found :
    (address : BlockAddress) (best : Option ℤ) (t : ℤ) (bs : List Block)
    → visit_all address best bs ≡ ok (some t)
    → (best ≡ some t) ⊎ WitnessedAt address t bs
unfolding visit_all
all_found address best t [] h = inl cc
all_found address best t (b ∷ bs) h = elim (Result-cases (visit address best b)) [
  | inr (x, e) ↦ absurd (ground (arith, e))
  | inl (next, e) ↦ elim (all_found address next t bs (ground (arith, e))) [
    | inr later ↦ inr (behind b later)
    | inl now ↦ elim (visit_cases address best next b e) [
      | inl (same, _) ↦ inl (sym same ∙ now)
      | inr (w, new) ↦ elim (earlier_cases best b.timestamp_claimed) [
        | inr kept ↦ inl (kept ∙ sym new ∙ now)
        | inl taken ↦
            let time : earlier b.timestamp_claimed best ≡ t = cc in
            inr (record { block = b; stored = inl refl; witness = w; time = sym taken ∙ time })
      ]
    ]
  ]
]

-- Where `compute_witnessed_time` gives a time, it is the time of a stored external MERGE block that took
-- a tip of the branch at the index or behind it; and in any case no such block has an earlier time than
-- the result, which is then there.
pub compute_witnessed_time-least :
    (st : IStorage) (s : st.Store) (address : BlockAddress) (best : Option ℤ) (bs : List Block)
    → st.external_blocks s ≡ ok bs
    → compute_witnessed_time st s address ≡ ok best
    → ((t : ℤ) → best ≡ some t → WitnessedAt address t bs)
      × All (λ b. IsWitness address b → AtMost best b.timestamp_claimed) bs
unfolding compute_witnessed_time
compute_witnessed_time-least st s address best bs stored h =
    let run : visit_all address none bs ≡ ok best = ground (arith, stored) in
    (
      λ t e. elim (all_found address none t bs (run ∙ ap ok e)) [
        | inl n ↦ absurd (ground (arith, n))
        | inr w ↦ w
      ],
      all_bounds address none best bs run,
    )
