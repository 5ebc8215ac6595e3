-- ===== src/State/Types.antt =====
-- The data of core/silkworm/state/intra_block_state.hpp, delta.hpp and object.hpp, and of
-- core/silkworm/types/log.hpp. An address, a 32-byte word and a 256-bit balance are numbers; a hash
-- map is an association list. The journal has its newest entry first.
use silkworm.Common.{ℕ, Option, List, [], Map, Bytes}
use silkworm.Account.{Account}

pub record Object : Type 0 where
  pub initial : Option Account
  pub current : Option Account

pub record CommittedValue : Type 0 where
  pub initial : ℕ
  pub original : ℕ

pub record Storage : Type 0 where
  pub committed : Map CommittedValue
  pub current : Map ℕ

abbrev pub new_storage : Storage
new_storage = record { committed = []; current = [] }

pub record Log : Type 0 where
  pub address : ℕ
  pub topics : List ℕ
  pub bytes : Bytes

abbrev pub new_log : Log
new_log = record { address = 0; topics = []; bytes = [] }

-- One constructor for each subclass of `Delta`.
pub data Delta : Type 0 where
  create : ℕ → Delta
  update : ℕ → Object → Delta
  suicide : ℕ → Delta
  touch : ℕ → Delta
  storage_change : ℕ → ℕ → ℕ → Delta
  storage_wipe : ℕ → Storage → Delta
  storage_create : ℕ → Delta
  storage_access : ℕ → ℕ → Delta
  account_access : ℕ → Delta

-- The readers of `StateBuffer` that the block state calls.
pub record StateBuffer : Type 0 where
  pub read_account : ℕ → Option Account
  pub read_code : ℕ → Bytes
  pub read_storage : ℕ → ℕ → ℕ → ℕ
  pub previous_incarnation : ℕ → ℕ

pub record IntraBlockState : Type 0 where
  pub db : StateBuffer
  pub objects : Map Object
  pub storage : Map Storage
  pub code : Map Bytes
  pub journal : List Delta
  pub self_destructs : List ℕ
  pub logs : List Log
  pub touched : List ℕ
  pub refund : ℕ
  pub accessed_addresses : List ℕ
  pub accessed_storage_keys : Map (List ℕ)

-- The constructor of `IntraBlockState`.
abbrev pub new_state : StateBuffer → IntraBlockState
new_state db = record {
  db = db;
  objects = [];
  storage = [];
  code = [];
  journal = [];
  self_destructs = [];
  logs = [];
  touched = [];
  refund = 0;
  accessed_addresses = [];
  accessed_storage_keys = [];
}

pub record Snapshot : Type 0 where
  pub journal_size : ℕ
  pub log_size : ℕ
  pub refund : ℕ
