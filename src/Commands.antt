-- ===== src/Commands.antt =====
-- The messages that the commands of chain/x/*/client/cli/tx.go make of their arguments. A command
-- gives none if cobra refuses the number of arguments, if there is no sender, or on an error.
use energychain_node.Prelude.{
  ℕ, suc, zero, ◌&&◌, Option, none, some, List, [], ◌∷◌, Bytes, length, leb, if◌then◌else◌,
}
use energychain_node.Prelude.Int.{ℤ, pos, eqb_ℤ}
use energychain_node.Outcome.{Outcome, ok}
use energychain_node.Energy.Types.{BatchItem, MsgSubmitEnergyData, MsgBatchSubmit}
use energychain_node.Energy.Client.{trim_space, normalise_hex, ItemsError}
use energychain_node.Identity.Types.{MsgRegisterIdentity, MsgUpdateIdentity, MsgRevokeIdentity}
use energychain_node.Oracle.Types.{MsgSubmitData, MsgAddOracle, MsgRemoveOracle}
use energychain_node.Audit.Types.{MsgRecordAudit}

-- `args[i]`, and the empty string for one that may be left out.
abbrev pub arg : ℕ → List Bytes → Bytes
arg i [] = []
arg zero (a ∷ args) = a
arg (suc i) (a ∷ args) = arg i args

-- `cobra.RangeArgs`, then the sender of `client.GetClientTxContext`.
abbrev pub run {ℓ} :
    {Msg : Type ℓ} → ℕ → ℕ → Option Bytes → List Bytes → (Bytes → Option Msg) → Option Msg
run lo hi none args message = none
run lo hi (some from) args message =
    if leb lo (length args) && leb (length args) hi then message from else none

unfoldable pub submit_energy_command : Option Bytes → List Bytes → Option MsgSubmitEnergyData
submit_energy_command from args = run 2 3 from args λ submitter. some (record {
  submitter = submitter;
  category = arg 0 args;
  data_hash = normalise_hex (arg 1 args);
  metadata = arg 2 args;
})

-- The items are what `parseBatchItems` makes of the flag.
unfoldable pub batch_submit_command :
    Option Bytes → List Bytes → Outcome ItemsError (List BatchItem) → Option MsgBatchSubmit
batch_submit_command from args parsed = run 2 2 from args λ submitter. elim parsed [
  | ok items ↦ some (record {
    submitter = submitter;
    category = arg 0 args;
    items = items;
    merkle_root = normalise_hex (arg 1 args);
  })
  | _ ↦ none
]

unfoldable pub register_command : Option Bytes → List Bytes → Option MsgRegisterIdentity
register_command from args = run 3 4 from args λ creator. some (record {
  creator = creator;
  address = trim_space (arg 0 args);
  name = arg 1 args;
  role = arg 2 args;
  metadata = arg 3 args;
})

unfoldable pub update_command : Option Bytes → List Bytes → Option MsgUpdateIdentity
update_command from args = run 2 3 from args λ creator. some (record {
  creator = creator;
  address = trim_space (arg 0 args);
  name = arg 1 args;
  metadata = arg 2 args;
})

unfoldable pub revoke_command : Option Bytes → List Bytes → Option MsgRevokeIdentity
revoke_command from args = run 1 2 from args λ creator.
    some (record { creator = creator; address = trim_space (arg 0 args); reason = arg 1 args })

-- The time is that of the flag, or `time.Now()` where the flag is 0.
unfoldable pub submit_data_command : Option Bytes → List Bytes → ℤ → ℤ → Option MsgSubmitData
submit_data_command from args flag now = run 2 3 from args λ submitter. some (record {
  submitter = submitter;
  category = trim_space (arg 0 args);
  value = trim_space (arg 1 args);
  metadata = arg 2 args;
  timestamp = if eqb_ℤ flag (pos 0) then now else flag;
})

unfoldable pub add_oracle_command : Option Bytes → List Bytes → List Bytes → Option MsgAddOracle
add_oracle_command from args categories = run 1 2 from args λ authority. some (record {
  authority = authority;
  oracle_address = trim_space (arg 0 args);
  name = arg 1 args;
  authorized_categories = categories;
})

unfoldable pub remove_oracle_command : Option Bytes → List Bytes → Option MsgRemoveOracle
remove_oracle_command from args =
    run 1 1 from args
      λ authority. some (record { authority = authority; oracle_address = trim_space (arg 0 args) })

unfoldable pub record_command : Option Bytes → List Bytes → Option MsgRecordAudit
record_command from args = run 3 4 from args λ creator. some (record {
  creator = creator;
  event_type = trim_space (arg 0 args);
  target = trim_space (arg 1 args);
  action = trim_space (arg 2 args);
  content = arg 3 args;
})
