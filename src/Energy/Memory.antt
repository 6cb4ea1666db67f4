-- ===== src/Energy/Memory.antt =====
-- A keeper of chain/x/energy on collections that are lists in memory, with an empty state and a
-- message, for the theorems at concrete inputs.
use energychain_node.Prelude.{
  refl, [], Bytes, codes, list_eq, ℕ_eq, pair_eq, unit_eq, ◌≡◌, inr, arith,
}
use energychain_node.Prelude.Int.{pos}
use energychain_node.Crypto.{Crypto}
use energychain_node.Sdk.Context.{Context}
use energychain_node.Sdk.Memory.{store, sequence, raw_store}
use energychain_node.Energy.Types.{Params, EnergyData, MsgSubmitEnergyData}
use energychain_node.Energy.State.{Keeper, State}
use energychain_node.Energy.Consistency.{IsConsistent}
use energychain_node.Outcome.{ok}
use energychain_node.Energy.EnergyId.{energy_id}
use energychain_node.Energy.Keeper as EnergyKeeper
use energychain_node.Energy.MsgServer.{submitted_data, submit_energy_data}
use energychain_node.Energy.Acceptance.{IsAdmissible, IsEncodable, submit_energy_data-succeeds}

instance abbrev pub memory : Keeper
memory = record {
  authority = codes "gov";
  params = store (Unit {0}) Params;
  id_sequence = sequence;
  energy_data = store Bytes EnergyData;
  by_category = store (Bytes × Bytes) (Unit {0});
  by_submitter = store (Bytes × Bytes) (Unit {0});
  batches = store Bytes _;
  transient = raw_store;
}

-- The digest of a text is the text.
instance abbrev pub plain : Crypto
plain = record { keccak256 = λ text. text }

abbrev pub empty_state : State
empty_state = record {
  params = memory.params.empty;
  id_sequence = memory.id_sequence.start;
  energy_data = memory.energy_data.empty;
  by_category = memory.by_category.empty;
  by_submitter = memory.by_submitter.empty;
  batches = memory.batches.empty;
  submit_counts = memory.transient.wiped;
  events = [];
}

pub empty_state-IsConsistent : IsConsistent 0 empty_state
empty_state-IsConsistent = record {
  sequence = refl;
  keyed = λ i d g. cc;
  bounded = λ i d m g p. cc;
  categories = λ c i g. cc;
  batches_bounded = λ i b m g p. cc;
  submitters = λ a i g. cc;
}

abbrev pub block : Context
block = record { block_height = pos 7; block_time = pos 1700; tx_bytes = [] }

abbrev pub reading : MsgSubmitEnergyData
reading = record {
  submitter = codes "meter";
  category = codes "solar";
  data_hash = codes "hash";
  metadata = codes "{}";
}

pub reading-IsAdmissible : IsAdmissible block reading empty_state
unfolding EnergyKeeper.is_allowed_submitter EnergyKeeper.get_params EnergyKeeper.submit_count
    EnergyKeeper.stored_count
reading-IsAdmissible = record { allowed = refl; small = inr refl; room = inr (omega arith) }

pub reading-IsEncodable :
    IsEncodable block reading empty_state (submitted_data block reading (energy_id 1))
reading-IsEncodable = record { record_fits = refl; category_fits = refl; submitter_fits = refl }

pub reading_accepted : (submit_energy_data block reading empty_state).0 ≡ ok (energy_id 1)
reading_accepted =
    submit_energy_data-succeeds block reading empty_state 0 1 reading-IsAdmissible refl
      reading-IsEncodable
