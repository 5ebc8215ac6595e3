-- ===== src/Types/Senders.antt =====
-- `recover` of core/silkworm/crypto/ecdsa.cpp and Transaction::recover_sender of types/transaction.cpp.
-- Keccak-256 and the recovery of a key by libsecp256k1 are parameters.
use silkworm.Common.{
  ℕ, ◌%◌, ◌^◌, Bool, true, false, not, ◌||◌, Option, none, some, List, [], ◌∷◌, ◌++◌, ◌==◌,
  if◌then◌else◌, length, drop, Bytes,
}
use silkworm.Types.{Transaction, Block}
use silkworm.Rlp.Endian.{to_be}
use silkworm.Types.Transactions.{encode_transaction}

module _ (keccak256 : Bytes → ℕ) (recover_key : Bytes → Bytes → Bool → Option Bytes) where
  unfoldable pub recover : Bytes → Bytes → Bool → Option Bytes
  recover message signature odd_y_parity =
      if not (length message == 32) || not (length signature == 64)
      then none
      else recover_key message signature odd_y_parity

  -- The low 20 bytes of the hash of the key behind its first byte.
  abbrev pub sender_of : Option Bytes → Option ℕ
  sender_of none = none
  sender_of (some key) = some (keccak256 (drop 1 key) % 2 ^ 160)

  unfoldable pub recover_sender : Transaction → Transaction
  unfolding recover encode_transaction to_be
  recover_sender txn =
      let rlp = encode_transaction [] txn true false in
      let hash = to_be 32 (keccak256 rlp) in
      let signature = to_be 32 txn.r ++ to_be 32 txn.s in
      record txn { from = sender_of (recover hash signature txn.odd_y_parity) }

  unfoldable pub recover_all : List Transaction → List Transaction
  unfolding recover_sender
  recover_all [] = []
  recover_all (txn ∷ txns) = recover_sender txn ∷ recover_all txns

  unfoldable pub recover_senders : Block → Block
  unfolding recover_all
  recover_senders block = record block { transactions = recover_all block.transactions }
