-- ===== src/Accounts.antt =====
-- The remaining accounts of an instruction: `AccountInfo` with its owner and what its bytes
-- deserialise to, which is Anchor's work (`try_deserialize` checks the account's discriminator).
use tickersix.Base.{Option, some, none, Bool, true, false}
use tickersix.Runtime.{Key}
use tickersix.State.{RoundAsset, PriceAttestation}

pub data AccountData : Type 0 where
  empty : AccountData
  round_asset_data : RoundAsset → AccountData
  attestation_data : PriceAttestation → AccountData
  other_data : AccountData

pub record AccountInfo : Type 0 where
  pub key : Key
  pub owner : Key
  pub data_of : AccountData

-- `RoundAsset::try_deserialize`.
abbrev pub as_round_asset : AccountData → Option RoundAsset
as_round_asset (round_asset_data a) = some a
as_round_asset _ = none

-- `PriceAttestation::try_deserialize`.
abbrev pub as_attestation : AccountData → Option PriceAttestation
as_attestation (attestation_data a) = some a
as_attestation _ = none

-- `data_is_empty()`.
abbrev pub data_is_empty : AccountData → Bool
data_is_empty empty = true
data_is_empty _ = false
