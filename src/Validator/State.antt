-- ===== src/Validator/State.antt =====
-- The results of modules/blockchain/include/blockchain/validator.h.
use free_labour_common_will.Base.{ℤ, Option, List}
use free_labour_common_will.Types.{PublicKey, BlockAddress}

pub record RevocationState : Type 0 where
  pub compromised_since : ℤ
  pub replacement_pubkey : Option PublicKey
  pub latest : BlockAddress

pub data BranchRevocationState : Type 0 where
  active frozen replaced : BranchRevocationState

pub data BlockRevocationStatus : Type 0 where
  clean suspect invalid_after_replacement : BlockRevocationStatus

pub record BranchRevocationStatus : Type 0 where
  pub state : BranchRevocationState
  pub revocation : Option RevocationState
  pub blocks : List BlockRevocationStatus
  pub next_key : Option PublicKey
