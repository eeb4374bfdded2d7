-- ===== src/Records/Types.antt =====
-- modules/records/include/records/types.h: the records of an exchange. A text is the list of its
-- bytes. The type `double` and what the source computes with it are parameters.
use free_labour_common_will.Base.{
  ℕ, ℤ, List, Option, Bool, ◌&&◌, bytes_eq, ◌≡◌, ◌↔◌, true, arith, bytes_eq_iff,
}
use free_labour_common_will.Types.{UserId, Hash}

-- `double`: +, -, <=, >, and the constants 0 and 1e-9.
pub record Doubles : Type 1 where
  pub Double : Type 0
  pub zero_units : Double
  pub add : Double → Double → Double
  pub sub : Double → Double → Double
  pub at_most : Double → Double → Bool
  pub exceeds : Double → Double → Bool
  pub tolerance : Double

pub record Ref : Type 0 where
  pub chain : UserId
  pub hash : Hash

abbrev pub ref_eq : Ref → Ref → Bool
ref_eq a b = bytes_eq a.chain b.chain && bytes_eq a.hash b.hash

pub ref_eq_iff : (a b : Ref) → (ref_eq a b ≡ true) ↔ (a ≡ b)
ref_eq_iff a b = ground (arith, bytes_eq_iff a.chain b.chain, bytes_eq_iff a.hash b.hash)

pub record BlockPath : Type 0 where
  pub chain : UserId
  pub node : ℕ
  pub block : ℕ
  pub hash : Hash

pub record Buyback : Type 0 where
  pub to : UserId
  pub until : ℤ
  pub wear : Bool
  pub deposit : Bool

pub record DealReply : Type 0 where
  pub deal : Ref
  pub accepted : Bool
  pub note : List ℕ
  pub timestamp : ℤ

module _ (D : Doubles) where
  pub record AcceptanceNorm : Type 0 where
    pub agg : UserId
    pub date : ℤ
    pub weight : D.Double

  pub record AcceptanceAxis : Type 0 where
    pub axis : BlockPath
    pub units : D.Double

  pub record Acceptance : Type 0 where
    pub work : Ref
    pub quality : List ℕ
    pub hours_raw : D.Double
    pub labor_units : D.Double
    pub carried_units : Option D.Double
    pub norm : Option AcceptanceNorm
    pub axes : List AcceptanceAxis
    pub like : Option Ref
    pub release : Option Ref
    pub buyback : Option Buyback

  pub record OriginQty : Type 0 where
    pub issuer : UserId
    pub units : D.Double
    pub src : Option Ref
    pub prev : Option Ref

  pub record EmissionLink : Type 0 where
    pub seq : ℕ
    pub prev : Option Ref
    pub debt_after : D.Double

  pub record Transfer : Type 0 where
    pub from : UserId
    pub to : UserId
    pub to_node : ℕ
    pub origins : List OriginQty
    pub accept : Option Acceptance
    pub settles : Option Ref
    pub timestamp : ℤ
    pub emission : Option EmissionLink
    pub until : Option ℤ

  pub record Redemption : Type 0 where
    pub transfer : Ref
    pub units : D.Double
    pub link : EmissionLink
    pub timestamp : ℤ
