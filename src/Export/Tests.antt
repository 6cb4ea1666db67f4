-- ===== src/Export/Tests.antt =====
-- Tests and concrete instances for chain/export.go, on stores in memory. An address in text is the
-- address behind a v; the distribution module counts its calls.
use energychain_node.Prelude.{
  ℕ, ◌+◌, ◌≡◌, refl, ap, inl, inr, arith, Bool, true, false, Option, none, some, List, [], ◌∷◌, map,
  Bytes, In, codes, eqb, eq_iff, list_eq, ℕ_eq, if◌then◌else◌,
}
use energychain_node.Prelude.Int.{ℤ, pos}
use energychain_node.Outcome.{ok}
use energychain_node.Sdk.Store.{found}
use energychain_node.Sdk.Memory.{Table, store, lookup_complete}
use energychain_node.Export.Keepers.{
  Validator, Redelegation, UnbondingDelegation, SigningInfo, Stores, State, Keepers,
}
use energychain_node.Export.ZeroHeight.{
  reinitialise_validator, reinitialise_validators, prep_for_zero_height_genesis,
  restart_distribution, check_allowed, withdraw_commissions, withdraw_rewards,
  reinitialise_delegations, restart_staking, reset_redelegations, reset_unbonding_delegations,
  restart_validators, reset_signing_infos,
}
use energychain_node.Export.AppState.{Exporter, ExportedApp, export_app_state_and_validators}
use energychain_node.Export.Zeroed.{IsIndexed, IsRestarted, Finishes}
use energychain_node.Export.Unfinished.{RefusesUnknown, IsDecoded, reinitialise_validators-stops}
use energychain_node.Export.Prepared.{IsExport, export_app_state_and_validators-IsRestarted}

instance abbrev stores : Stores
stores = record {
  validators = store Bytes Validator;
  redelegations = store Bytes Redelegation;
  unbonding_delegations = store Bytes UnbondingDelegation;
  signing_infos = store Bytes SigningInfo;
  Distribution = ℕ;
}

abbrev from_text : Bytes → Option Bytes
from_text [] = none
from_text (c ∷ rest) = if eqb c b'v' then some rest else none

abbrev counted : State → ℕ
counted s = s.distribution + 1

abbrev created : ℤ → Bytes → State → Bool × ℕ
created _ a s = elim (stores.validators.get s.validators a) [
  | found _ ↦ (true, counted s)
  | _ ↦ (false, s.distribution)
]

abbrev keys : List (Bytes × Validator) → List Bytes
keys = map (λ e. e.0)

In-keys : (l : List (Bytes × Validator)) (a : Bytes) (v : Validator) → In (a, v) l → In a (keys l)
In-keys [] a v i = elim i [ ]
In-keys (e ∷ l) a v (inl p) = inl (ap (λ (x : Bytes × Validator). x.0) p)
In-keys (e ∷ l) a v (inr i) = inr (In-keys l a v i)

keys_complete :
    (m : Table Bytes Validator) (a : Bytes) (v : Validator)
    → stores.validators.get m a ≡ found v
    → In a (keys m.entries)
keys_complete m a v g = In-keys m.entries a v (lookup_complete m.entries a v g)

instance abbrev keepers : Keepers
keepers = record {
  val_address_from_bech32 = from_text;
  acc_address_from_bech32 = some;
  val_address_string = λ a. b'v' ∷ a;
  redelegation_key = λ r. r.delegator_address;
  unbonding_key = λ u. u.delegator_address;
  all_delegations =
      λ _. some (record { delegator_address = codes "d"; validator_address = codes "vA" } ∷ []);
  withdraw_validator_commission = λ _ _ s. counted s;
  withdraw_delegation_rewards = λ _ _ _ s. counted s;
  before_delegation_created = λ _ _ _ s. (true, counted s);
  after_delegation_modified = λ _ _ _ s. (true, counted s);
  after_validator_created = created;
  delete_all_validator_slash_events = counted;
  delete_all_validator_historical_rewards = counted;
  Coins = ℕ;
  add = λ a b. a + b;
  outstanding_rewards = λ _ _. some 0;
  community_pool = λ _. some 3;
  set_community_pool = λ _ s. some (counted s);
  validator_keys = λ m. keys m.entries;
  validator_keys_complete = keys_complete;
  iterator_closes = λ _. true;
  apply_validator_set_updates = λ _ s. (ok tt, s);
}

abbrev first_validator : Validator
first_validator = record {
  operator = codes "vA";
  unbonding_height = pos 5;
  jailed = false;
  others = [];
}

abbrev second_validator : Validator
second_validator = record first_validator { operator = codes "vB" }

abbrev redelegation : Redelegation
redelegation = record {
  delegator_address = codes "d";
  validator_src_address = codes "vA";
  validator_dst_address = codes "vB";
  entries = record { creation_height = pos 8; others = [] } ∷ [];
}

abbrev running : State
running = record {
  validators = record {
    entries = (codes "A", first_validator) ∷ (codes "B", second_validator) ∷ [];
    unique = (refl, (refl, tt));
  };
  redelegations = record { entries = (codes "d", redelegation) ∷ []; unique = (refl, tt) };
  unbonding_delegations = record { entries = []; unique = tt };
  signing_infos = record {
    entries = (codes "c", record { start_height = pos 6; others = [] }) ∷ [];
    unique = (refl, tt);
  };
  distribution = 0;
}

running-IsIndexed : IsIndexed running
running-IsIndexed = record {
  validators = λ a v g. ground (arith, eq_iff (codes "A") a, eq_iff (codes "B") a);
  redelegations = λ a v g. ground (arith, eq_iff (codes "d") a);
  unbonding_delegations = λ a v g. cc;
}

abbrev plain_exporter : Exporter
plain_exporter = record {
  GenesisState = ℕ;
  ValidatorSet = List Bytes;
  ConsensusParams = Unit {0};
  export_genesis_for_modules = λ s _. some s.distribution;
  marshal_indent = λ n. some (n ∷ []);
  write_validators = λ s. (keys s.validators.entries, true);
  consensus_params = λ _. tt;
}

-- The app that the export of `running` gives, with only A on the list.
abbrev exported : ExportedApp plain_exporter
exported = record {
  app_state = 8 ∷ [];
  validators = codes "B" ∷ codes "A" ∷ [];
  height = pos 0;
  consensus_params = tt;
}

exports :
    (export_app_state_and_validators plain_exporter (pos 9) true (codes "vA" ∷ []) [] running).0
    ≡ ok (exported, none)
unfolding export_app_state_and_validators prep_for_zero_height_genesis restart_distribution
    check_allowed withdraw_commissions withdraw_rewards reinitialise_delegations
    reinitialise_validators restart_staking reset_redelegations reset_unbonding_delegations
    restart_validators reset_signing_infos
exports = refl

-- B is jailed, and A is not.
jails_others :
    (stores.validators.get
        (export_app_state_and_validators plain_exporter
          (pos 9)
          true
          (codes "vA" ∷ [])
          []
          running).1.validators
        (codes "B")
      ≡ found (record second_validator { unbonding_height = pos 0; jailed = true }))
unfolding export_app_state_and_validators prep_for_zero_height_genesis restart_distribution
    check_allowed withdraw_commissions withdraw_rewards reinitialise_delegations
    reinitialise_validators restart_staking reset_redelegations reset_unbonding_delegations
    restart_validators reset_signing_infos
jails_others = refl

export_app_state_and_validators-IsRestarted_example :
    let final =
      (export_app_state_and_validators plain_exporter
        (pos 9)
        true
        (codes "vA" ∷ [])
        []
        running).1 in
    (u : State) × (exported.height ≡ pos 0)
    × IsExport plain_exporter [] final exported
    × IsRestarted (codes "vA" ∷ []) running u
    × Finishes (pos 9) u final
export_app_state_and_validators-IsRestarted_example =
    export_app_state_and_validators-IsRestarted plain_exporter (pos 9) (codes "vA" ∷ []) [] running
      exported none running-IsIndexed exports

created_refuses : RefusesUnknown (pos 0)
created_refuses s a g = ground arith

running-IsDecoded : IsDecoded (pos 0) running
running-IsDecoded a v g = ground (arith, eq_iff (codes "A") a, eq_iff (codes "B") a)

reinitialise_validators-stops_example :
    reinitialise_validators (pos 0) running
    ≡ (ok tt, (reinitialise_validator (pos 0) running (codes "A") first_validator).0)
reinitialise_validators-stops_example =
    reinitialise_validators-stops (pos 0) running (codes "A") first_validator
      ((codes "B", second_validator) ∷ []) created_refuses running-IsDecoded refl
