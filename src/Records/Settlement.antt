-- ===== src/Records/Settlement.antt =====
-- modules/records/include/records/settlement.h and the first half of
-- modules/records/src/settlement.cpp: the seller's answer to a deal, and a buyback's own conditions.
use free_labour_common_will.Base.{
  ℕ, suc, ℤ, ltb_ℤ, List, [], ◌∷◌, Option, none, some, Bool, true, false, not, ◌&&◌, ◌||◌, ◌==◌,
  ltb, bytes_eq, if◌then◌else◌,
}
use free_labour_common_will.Types.{UserId}
use free_labour_common_will.Records.Types.{
  Doubles, Ref, ref_eq, Buyback, DealReply, OriginQty, Transfer, Redemption,
}

pub data Answer : Type 0 where
  no_answer accepted refused : Answer

pub record ObservedReply : Type 0 where
  pub reply : DealReply
  pub author : UserId
  pub node : ℕ
  pub index : ℕ
  pub since : ℤ

pub record DealAnswer : Type 0 where
  pub answer : Answer
  pub reply : Option ℕ

pub data DealStatus : Type 0 where
  pending_deal accepted_deal refused_deal expired_deal : DealStatus

-- `std::max`.
abbrev pub max_ℤ : ℤ → ℤ → ℤ
max_ℤ a b = if ltb_ℤ a b then b else a

module _ (D : Doubles) where
  -- A reply to this deal, from the purse that is paid.
  unfoldable pub answers : Transfer D → Ref → ObservedReply → Bool
  answers deal deal_ref r =
      ref_eq r.reply.deal deal_ref && bytes_eq r.author deal.to && r.node == deal.to_node

  -- `!first || r.index < replies[*first].index`.
  abbrev pub precedes : ObservedReply → Option (ℕ × ObservedReply) → Bool
  precedes r none = true
  precedes r (some (i, best)) = ltb r.index best.index

  -- The loop over the replies from position `i` on: `first`, with the reply that stands there.
  unfoldable pub first_from :
      Transfer D
      → Ref
      → ℕ
      → List ObservedReply
      → Option (ℕ × ObservedReply)
      → Option (ℕ × ObservedReply)
  unfolding answers
  first_from deal deal_ref i [] first = first
  first_from deal deal_ref i (r ∷ rest) first =
      first_from deal deal_ref (suc i) rest
        (if answers deal deal_ref r && precedes r first then some (i, r) else first)

  -- `!deal.until || std::max(r.reply.timestamp, r.since) > *deal.until`.
  unfoldable pub too_late : Transfer D → ObservedReply → Bool
  too_late deal r = elim deal.until [
    | none ↦ true
    | some until ↦ ltb_ℤ until (max_ℤ r.reply.timestamp r.since)
  ]

  unfoldable pub answer_of : Transfer D → Ref → List ObservedReply → DealAnswer
  unfolding first_from too_late
  answer_of deal deal_ref replies = elim (first_from deal deal_ref 0 replies none) [
    | none ↦ record { answer = no_answer; reply = none }
    | some (i, r) ↦
        if too_late deal r
        then record { answer = no_answer; reply = none }
        else record { answer = (if r.reply.accepted then accepted else refused); reply = some i }
  ]

  unfoldable pub deal_status : Transfer D → Answer → ℤ → DealStatus
  deal_status deal accepted now = accepted_deal
  deal_status deal refused now = refused_deal
  deal_status deal no_answer now = elim deal.until [
    | none ↦ pending_deal
    | some until ↦ if ltb_ℤ until now then expired_deal else pending_deal
  ]

  abbrev pub own_paper : Transfer D → List (OriginQty D) → Bool
  own_paper deal [] = true
  own_paper deal (o ∷ rest) =
      let others = own_paper deal rest in
      if not (bytes_eq o.issuer deal.to) && not (bytes_eq o.issuer deal.from) then false else others

  unfoldable pub pre_accepted : Transfer D → Bool
  pre_accepted deal = elim deal.origins [ [] ↦ false | o ∷ rest ↦ own_paper deal (o ∷ rest) ]

  -- The deposit that a purchase asks for.
  abbrev pub deposit_of : Transfer D → Option Buyback
  deposit_of purchase = elim purchase.accept [
    | none ↦ none
    | some a ↦ elim a.buyback [ none ↦ none | some b ↦ if b.deposit then some b else none ]
  ]

  unfoldable pub bill_credit_of : List (OriginQty D) → UserId → D.Double → D.Double
  bill_credit_of [] issuer units = units
  bill_credit_of (o ∷ rest) issuer units =
      bill_credit_of rest issuer (if bytes_eq o.issuer issuer then D.add units o.units else units)

  unfoldable pub bill_credit : Transfer D → UserId → D.Double
  unfolding bill_credit_of
  bill_credit src issuer = bill_credit_of src.origins issuer D.zero_units

  abbrev pub names : Option Ref → Ref → Bool
  names none ref = false
  names (some src) ref = ref_eq src ref

  abbrev pub is_none : Option Ref → Bool
  is_none none = true
  is_none (some src) = false

  -- `own` after the loop, or `none` where it returns false.
  unfoldable pub own_returned : Transfer D → Ref → List (OriginQty D) → D.Double → Option D.Double
  own_returned deal purchase_ref [] own = some own
  own_returned deal purchase_ref (o ∷ rest) own =
      let skipped = own_returned deal purchase_ref rest own in
      let added = own_returned deal purchase_ref rest (D.add own o.units) in
      if bytes_eq o.issuer deal.to || names o.src purchase_ref
      then skipped
      else if not (bytes_eq o.issuer deal.from) || not (is_none o.src)
      then none
      else added

  unfoldable pub pre_accepted_buyback : Transfer D → Ref → Transfer D → Bool
  unfolding pre_accepted own_returned bill_credit
  pre_accepted_buyback deal purchase_ref purchase = elim (deposit_of purchase) [
    | none ↦ pre_accepted deal
    | some b ↦ elim deal.origins [
      | [] ↦ false
      | o ∷ rest ↦ elim (own_returned deal purchase_ref (o ∷ rest) D.zero_units) [
        | none ↦ false
        | some own ↦ D.at_most own (D.add (bill_credit purchase deal.from) D.tolerance)
      ]
    ]
  ]

  unfoldable pub deposit_frozen : Transfer D → ℤ → Bool → Bool
  deposit_frozen purchase spend_timestamp bought_back = elim (deposit_of purchase) [
    | none ↦ false
    | some b ↦ not bought_back && not (ltb_ℤ b.until spend_timestamp)
  ]

  unfoldable pub is_reversal : Redemption D → UserId → Bool
  is_reversal rd author = bytes_eq rd.transfer.chain author
