-- ===== src/Lib.antt =====
-- Silkworm is an Ethereum node in C++. Its core library (core/silkworm) keeps the state of the
-- block that is executed, encodes the data of the chain, and validates and executes blocks; the
-- database layer (db/silkworm) and the commands (cmd) store and drive them. This development models
-- the core's block state, the codecs, the rules of the chain, the calls of the virtual machine, and the
-- loop that executes a block.
--
-- core/silkworm/state: State. `IntraBlockState` is the class of intra_block_state.hpp: its maps of
-- objects and storage, its journal and its substate. A method that changes the block state takes
-- the state and returns the new one, and a reader that fills a cache (get_balance, get_storage)
-- returns its answer with the state. `StateBuffer` is the interface of buffer.hpp, as the functions
-- that read the database. A hash map is an association list (Common/Maps); the journal, a
-- std::vector whose end is the newest entry, is a list with the newest entry first, and a snapshot
-- holds its length. `Delta` has a constructor for each subclass of `Delta` in delta.hpp, `revert` is
-- their virtual method. Journal, Accounts, Contracts, Slots, Commit and Writing hold the methods;
-- View says what a client can see of a state; Script lists the calls between a snapshot and its
-- revert, with nested ones; the other children hold proofs.
--
-- core/silkworm/rlp: Rlp. An output string is an argument that the encoder extends, as in the code.
-- A decoder takes the input and returns the value with the rest of the input, one of the errors of
-- `DecodingResult`, or `stuck` where the code reads outside its input. Endian, Encode, Decode and
-- Result hold the code; Codec is the interface of an element codec, which the vector codec takes.
-- decode_all has the length of the payload as fuel, which is enough since an element takes a byte.
--
-- core/silkworm/types: Account is the account and Account/Storage its database form. Types has the
-- transaction, the header and the block. Types/Headers, AccessLists, Transactions and Decoding have
-- their RLP, in which the calls of `encode` behind a list's header are a list of writers
-- (Types/Fields), Types/Senders the recovery of a sender, and Types/Receipts the RLP of logs and
-- receipts and the bloom filter.
--
-- core/silkworm/chain and crypto/ecdsa: Chain. Config is the fork schedule, Gas the intrinsic gas,
-- Difficulty the difficulty of a block, Signature the two encodings of a signature's parity and
-- the range test, Roots the hashes that a header holds of its block, and Validity the checks of
-- transactions, headers, ommers and blocks.
--
-- core/silkworm/execution/evm: Evm. Calls has EVM::call, EVM::create and EVM::execute of a code, Steps
-- what they do around it, Host the methods of EvmHost, and Run all of them together: the interpreter
-- (evmone, or another machine of the EVMC interface) is a parameter that gives for a message and a
-- code a `Behaviour`, the tree of the host calls that it makes, and run_host serves them on the block
-- state. A call of another contract
-- goes one level deeper; nested_call has the number of levels that are left as fuel. EVMC allows 1024
-- of them, and an interpreter that keeps to this limit is never stopped by the fuel. Gas, an int64_t,
-- is given by the 64 bits of its two's complement (less_signed of Chain/Words compares two of them).
-- The caches of analyses and of execution states, which only save time, are left out. Contracts has
-- the precompiled contracts.
--
-- core/silkworm/execution/processor: Processor, the gas and the rewards of a block. The virtual
-- machine is a parameter of Processor/Execution, which Processor/Machine fills with Evm/Run.
--
-- Machine integers: a number of w bits is a natural number, and the code's wrap-around is written
-- out with `% 2 ^ w` (Chain/Words has the operations). The intx library is not in the repository: its
-- arithmetic on uint128, uint256 and uint512 is arithmetic modulo a power of two, `clz` counts
-- leading zeros and `bswap` reverses bytes, as it documents. Addresses and hashes are numbers.
--
-- Parameters (the records Hashing of Chain/Roots, Externals of Evm/Steps and Machine of
-- Processor/Execution, and arguments of Evm/Contracts and Types/Senders) stand for Keccak-256, SHA-256,
-- RIPEMD-160 and BLAKE2, for the bloom filter in the loop over a block (Types/Receipts has its code),
-- for the root that the class HashBuilder makes of the entries of a trie, for Ethash, libsecp256k1 and
-- GMP, and for the interpreter. Of the interpreter, the theorems on gas need that it ends with no
-- more gas than it got, and the one on the levels that it calls one level deeper each time and not
-- beyond 1024, as EVMC documents; of GMP, that a power is reduced. ChainReader is the part of
-- `StateBuffer` that reads headers and bodies.
--
-- Not modelled: tries (HashBuilder of core/silkworm/trie, db/silkworm/trie), the RLP of bodies, the
-- precompiled contracts on the curve alt_bn128, the in-memory state buffer, the database and ETL
-- layers, the commands and the WASM and Telegram interfaces, which are mostly calls of other
-- libraries, and the vendored hashing code.
pub mod Account
pub mod Chain
pub mod Common
pub mod Evm
pub mod Examples
pub mod Processor
pub mod Rlp
pub mod State
pub mod Types
