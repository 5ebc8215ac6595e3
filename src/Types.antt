-- ===== src/Types.antt =====
-- core/silkworm/types/transaction.hpp, block.hpp and receipt.hpp: the data of blocks; their RLP in the children. Addresses,
-- hashes, 256-bit integers, blooms and the nonce of a header are numbers.
pub mod Fields
pub mod Headers
pub mod HeaderRoundTrip
pub mod Lists
pub mod AccessLists
pub mod Transactions
pub mod Decoding
pub mod TransactionFields
pub mod TransactionRoundTrip
pub mod Senders
pub mod Receipts
use silkworm.Common.{ℕ, Bool, Option, List, Bytes}
use silkworm.State.Types.{Log}

pub record AccessListEntry : Type 0 where
  pub account : ℕ
  pub storage_keys : List ℕ

-- kEip2930TransactionType
abbrev pub eip2930_transaction_type : ℕ
eip2930_transaction_type = 1

pub record Transaction : Type 0 where
  pub type : Option ℕ
  pub nonce : ℕ
  pub gas_price : ℕ
  pub gas_limit : ℕ
  pub to : Option ℕ
  pub value : ℕ
  pub bytes : Bytes
  pub odd_y_parity : Bool
  pub chain_id : Option ℕ
  pub r : ℕ
  pub s : ℕ
  pub access_list : List AccessListEntry
  pub from : Option ℕ

pub record BlockHeader : Type 0 where
  pub parent_hash : ℕ
  pub ommers_hash : ℕ
  pub beneficiary : ℕ
  pub state_root : ℕ
  pub transactions_root : ℕ
  pub receipts_root : ℕ
  pub logs_bloom : ℕ
  pub difficulty : ℕ
  pub number : ℕ
  pub gas_limit : ℕ
  pub gas_used : ℕ
  pub timestamp : ℕ
  pub extra_data : Bytes
  pub mix_hash : ℕ
  pub nonce : ℕ

pub record BlockBody : Type 0 where
  pub transactions : List Transaction
  pub ommers : List BlockHeader

pub record Block : Type 0 where
  pub transactions : List Transaction
  pub ommers : List BlockHeader
  pub header : BlockHeader

pub record Receipt : Type 0 where
  pub type : Option ℕ
  pub success : Bool
  pub cumulative_gas_used : ℕ
  pub bloom : ℕ
  pub logs : List Log
