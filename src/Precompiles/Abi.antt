-- ===== src/Precompiles/Abi.antt =====
-- What the precompiles of chain/precompiles use of the EVM libraries: the parsed ABI, the values of a
-- call, and `cmn.SetupABI`.
use energychain_node.Prelude.{Bool, Option, none, some, List, Bytes}
use energychain_node.Outcome.{Outcome, ok, err}

-- An argument of a call, by its Go type.
pub data Arg : Type 0 where
  string address : Bytes → Arg
  other : Arg

pub record Abi : Type 1 where
  pub Contract : Type 0
  -- `MethodById`: the name of the method with the selector
  pub method_by_id : Bytes → Option Bytes
  -- `cmn.SetupABI`, on the test for transactions, the contract and whether the call is read-only: the
  -- name of the method and the arguments
  pub setup_abi : (Bytes → Bool) → Contract → Bool → Option (Bytes × List Arg)

pub data Error : Type 0 where
  setup_failed unknown_method wrong_arity missing_arg not_string not_address pack_failed : Error

-- `method.Outputs.Pack`, whose failure is an error.
abbrev pub packed : Option Bytes → Outcome Error Bytes
packed none = err pack_failed
packed (some bytes) = ok bytes
