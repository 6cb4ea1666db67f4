-- ===== src/Identity/Memory.antt =====
-- A keeper of chain/x/identity on collections that are lists in memory, with an empty state and a
-- message, for the theorems at concrete inputs.
use energychain_node.Prelude.{refl, true, [], Bytes, codes, list_eq, ℕ_eq, pair_eq, unit_eq, ◌≡◌}
use energychain_node.Prelude.Int.{pos}
use energychain_node.Outcome.{ok}
use energychain_node.Sdk.Context.{Context}
use energychain_node.Sdk.Memory.{store}
use energychain_node.Identity.Types.{Params, MsgRegisterIdentity, MsgRevokeIdentity}
use energychain_node.Identity.State.{Keeper, State}
use energychain_node.Identity.Lifecycle.{IsConsistent}
use energychain_node.Identity.Keeper as IdentityKeeper
use energychain_node.Identity.MsgServer.{is_admin, register_identity, revoke_identity}
use energychain_node.Identity.Lifecycle.Handlers.{done, registered, Steps-keeps}

instance abbrev pub identity_memory : Keeper
identity_memory = record {
  authority = codes "gov";
  valid_address = λ _. true;
  params = store (Unit {0}) Params;
  identities = store Bytes _;
  by_role = store (Bytes × Bytes) (Unit {0});
}

abbrev pub empty_state : State
empty_state = record {
  params = identity_memory.params.empty;
  identities = identity_memory.identities.empty;
  by_role = identity_memory.by_role.empty;
  events = [];
}

pub empty_state-IsConsistent : IsConsistent empty_state
empty_state-IsConsistent = record { keyed = λ a i g. cc; roles = λ r a g. cc }

abbrev pub block : Context
block = record { block_height = pos 7; block_time = pos 1700; tx_bytes = [] }

abbrev pub join : MsgRegisterIdentity
join = record {
  creator = codes "gov";
  address = codes "alice";
  name = codes "Alice";
  role = codes "producer";
  metadata = [];
}

abbrev pub leave : MsgRevokeIdentity
leave = record { creator = codes "gov"; address = codes "alice"; reason = codes "moved" }

abbrev pub joined : State
joined = (register_identity block join empty_state).1

abbrev pub left : State
left = (revoke_identity block leave joined).1

pub join_accepted : (register_identity block join empty_state).0 ≡ ok tt
unfolding register_identity is_admin IdentityKeeper.get_params IdentityKeeper.is_registered
    IdentityKeeper.set_identity
join_accepted = refl

pub leave_accepted : (revoke_identity block leave joined).0 ≡ ok tt
unfolding register_identity revoke_identity is_admin IdentityKeeper.get_params
    IdentityKeeper.is_registered IdentityKeeper.set_identity IdentityKeeper.get_identity
leave_accepted = refl

pub joined-IsConsistent : IsConsistent joined
joined-IsConsistent =
    (Steps-keeps empty_state joined empty_state-IsConsistent
      (registered block join empty_state joined (done joined))).0
