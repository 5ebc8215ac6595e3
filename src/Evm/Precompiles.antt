-- ===== src/Evm/Precompiles.antt =====
-- core/silkworm/execution/precompiled.hpp: which addresses are contracts of the machine itself.
use silkworm.Common.{
  ℕ, zero, suc, Bool, not, ◌&&◌, Option, none, some, List, [], ◌∷◌, ◌==◌, leb, if◌then◌else◌, Bytes,
}
use silkworm.Chain.Config.{byzantium, istanbul}

pub record Contract : Type 0 where
  pub gas : Bytes → ℕ → ℕ
  pub run : Bytes → Option Bytes

abbrev pub num_of_frontier_contracts : ℕ
num_of_frontier_contracts = 4

abbrev pub num_of_byzantium_contracts : ℕ
num_of_byzantium_contracts = 8

abbrev pub num_of_istanbul_contracts : ℕ
num_of_istanbul_contracts = 9

unfoldable pub number_of_precompiles : ℕ → ℕ
number_of_precompiles rev =
    if leb istanbul rev
    then num_of_istanbul_contracts
    else if leb byzantium rev
    then num_of_byzantium_contracts
    else num_of_frontier_contracts

-- An address whose only byte is the last, from 1 to the number of contracts.
unfoldable pub is_precompiled : ℕ → ℕ → Bool
unfolding number_of_precompiles
is_precompiled rev address = not (address == 0) && leb address (number_of_precompiles rev)

-- `kContracts[num - 1]`
unfoldable pub contract_at : List Contract → ℕ → Option Contract
contract_at [] i = none
contract_at (c ∷ cs) zero = some c
contract_at (c ∷ cs) (suc i) = contract_at cs i
