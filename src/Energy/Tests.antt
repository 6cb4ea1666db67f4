-- ===== src/Energy/Tests.antt =====
-- The theorems on the energy module at concrete inputs, on collections that are lists in memory.
use energychain_node.Prelude.{
  ℕ, zero, suc, ◌%◌, ◌^◌, ◌≤◌, ◌≡◌, ◌≢◌, ◌↔◌, ◌⊎◌, refl, true, false, some, arith, List, [], ◌∷◌,
  Bytes, codes, length, ◌==◌, list_eq, ℕ_eq, pair_eq, unit_eq, if◌then◌else◌,
}
use energychain_node.Prelude.Int.{pos}
use energychain_node.Outcome.{ok, err}
use energychain_node.Hex.{hex_encode, trim_0x, to_lower}
use energychain_node.Binary.{put_uint64}
use energychain_node.Sdk.Store.{found}
use energychain_node.Energy.Types.{
  default_params, EnergyData, BatchItem, MsgBatchSubmit, MsgUpdateParams, validate,
}
use energychain_node.Energy.EnergyId.{energy_id, parse_energy_id, parse_energy_id-energy_id}
use energychain_node.Energy.State.{State, merkle_root_mismatch}
use energychain_node.Energy.Keeper as EnergyKeeper
use energychain_node.Energy.MsgServer.{
  submitted_data, batch_of, submit_energy_data, batch_submit, submit_items, update_params,
}
use energychain_node.Energy.Invariants.{
  id_sequence_monotonic_invariant, by_category_consistency_invariant, metadata_within_cap_invariant,
}
use energychain_node.Energy.Invariants.Index.{
  IdsBelowSequence, CategoriesHaveRecords, id_sequence_monotonic_invariant-exact,
  by_category_consistency_invariant-exact,
}
use energychain_node.Energy.Consistency.{Progress}
use energychain_node.Energy.Consistency.Handlers.{
  submit_energy_data-consistent, submit_energy_data-stored,
}
use energychain_node.Energy.Consistency.Items.{ItemsStored}
use energychain_node.Energy.Consistency.Batch.{batch_submit-consistent, batch_submit-stored}
use energychain_node.Energy.RateLimit.{limit}
use energychain_node.Energy.RateLimit.Block.{
  Block, done, submitted, updated, IsLimitUpTo, times, accepted-le-limit,
}
use energychain_node.Energy.Acceptance.{submit_energy_data-succeeds}
use energychain_node.Energy.Governance.{
  IsWithinBounds, Replaced, update_params-cases, update_params-breaks_metadata_cap,
}
use energychain_node.Energy.Merkle.Depth.{IsDepth}
use energychain_node.Energy.Merkle.Tree.{tree_root, verify_merkle_root-tree_root}
use energychain_node.Energy.Memory.{
  reading-IsAdmissible, reading-IsEncodable, reading_accepted, memory, plain, empty_state,
  empty_state-IsConsistent, block, reading,
}
use energychain_node.Energy.Merkle.{
  leaf, compute_merkle_root, leaves_from, normalized, verify_merkle_root,
}

submit_energy_data-succeeds_example :
    (submit_energy_data block reading empty_state).0 ≡ ok (energy_id 1)
submit_energy_data-succeeds_example =
    submit_energy_data-succeeds block reading empty_state 0 1 reading-IsAdmissible refl
      reading-IsEncodable

submit_energy_data-consistent_example :
    Progress 0 1 empty_state (submit_energy_data block reading empty_state).1
submit_energy_data-consistent_example =
    submit_energy_data-consistent block reading 0 empty_state empty_state-IsConsistent (omega arith)

submit_energy_data-stored_example :
    (energy_id 1 ≡ energy_id 1)
    × (memory.energy_data.get
          (submit_energy_data block reading empty_state).1.energy_data
          (energy_id 1)
        ≡ found (submitted_data block reading (energy_id 1)))
submit_energy_data-stored_example =
    submit_energy_data-stored block reading 0 empty_state (energy_id 1) empty_state-IsConsistent
      (omega arith) reading_accepted

parse_energy_id-energy_id_example : parse_energy_id (energy_id 1024) ≡ some 1024
parse_energy_id-energy_id_example = parse_energy_id-energy_id 1024 (omega arith)

-- A batch of one item with its root.
abbrev item : BatchItem
item = record { data_hash = codes "abc"; metadata = codes "m" }

abbrev batch : MsgBatchSubmit
batch = record {
  submitter = codes "meter";
  category = codes "wind";
  items = item ∷ [];
  merkle_root = codes "0X0000000000000000616263";
}

batch_accepted : (batch_submit block batch empty_state).0 ≡ ok (energy_id 1, 1)
unfolding batch_submit EnergyKeeper.is_allowed_submitter EnergyKeeper.get_params
    EnergyKeeper.submit_count EnergyKeeper.stored_count EnergyKeeper.check_and_incr_submit_count
    EnergyKeeper.generate_id EnergyKeeper.submit_energy_data EnergyKeeper.submit_batch
    verify_merkle_root leaves_from submit_items leaf compute_merkle_root hex_encode put_uint64
    trim_0x to_lower
batch_accepted = refl

batch_submit-consistent_example : Progress 0 2 empty_state (batch_submit block batch empty_state).1
batch_submit-consistent_example =
    batch_submit-consistent block batch 0 empty_state empty_state-IsConsistent (omega arith)

batch_submit-stored_example :
    (energy_id 1 ≡ energy_id 1)
    × (1 ≡ length batch.items % 2 ^ 32)
    × (memory.batches.get (batch_submit block batch empty_state).1.batches (energy_id 1)
        ≡ found (batch_of block batch (energy_id 1)))
    × ItemsStored block batch 1 batch.items (batch_submit block batch empty_state).1
batch_submit-stored_example =
    batch_submit-stored block batch 0 empty_state (energy_id 1) 1 empty_state-IsConsistent
      (omega arith) batch_accepted

abbrev tighten : MsgUpdateParams
tighten = record {
  authority = codes "gov";
  params = record default_params { max_metadata_size = 128 };
}

limit_fits : IsLimitUpTo 10000 (limit empty_state)
unfolding EnergyKeeper.get_params
limit_fits = omega arith

new_limit_fits : IsLimitUpTo 10000 tighten.params.max_submissions_per_block_per_submitter
new_limit_fits = omega arith

update_accepted : (update_params tighten (submit_energy_data block reading empty_state).1).0 ≡ ok tt
unfolding update_params EnergyKeeper.set_params validate
update_accepted = refl

abbrev limits : List ℕ
limits = tighten.params.max_submissions_per_block_per_submitter ∷ []

-- A submission, and then a change of the parameters.
one_block :
    Block block empty_state
      (codes "meter" ∷ [])
      limits
      (update_params tighten (submit_energy_data block reading empty_state).1).1
one_block =
    submitted empty_state reading (energy_id 1) [] limits _ reading_accepted
      (updated _ tighten [] [] _ update_accepted (done _))

accepted-le-limit_example : times (codes "meter") (codes "meter" ∷ []) ≤ 10000
accepted-le-limit_example =
    accepted-le-limit block (codes "meter") 10000 empty_state
      (update_params tighten (submit_energy_data block reading empty_state).1).1
      (codes "meter" ∷ []) limits (omega arith) limit_fits (new_limit_fits, tt) refl one_block

verify_merkle_root-tree_root_example :
    (d : ℕ) × IsDepth d (length (item ∷ item ∷ item ∷ []))
    × (verify_merkle_root (item ∷ item ∷ item ∷ []) batch.merkle_root ≡ (
        if hex_encode (tree_root d (leaves_from 0 (item ∷ item ∷ item ∷ [])))
          == normalized batch.merkle_root
        then ok tt
        else err merkle_root_mismatch))
verify_merkle_root-tree_root_example =
    verify_merkle_root-tree_root item (item ∷ item ∷ []) batch.merkle_root

-- A store with one record of 200 bytes of metadata, and a change of its limit to 128.
abbrev blanks : ℕ → Bytes
blanks zero = []
blanks (suc n) = 32 ∷ blanks n

abbrev large_record : EnergyData
large_record = record {
  id = codes "custom";
  category = codes "wind";
  submitter = codes "meter";
  data_hash = codes "hash";
  metadata = blanks 200;
  block_height = pos 1;
  timestamp = pos 2;
}

abbrev large_state : State
large_state = record empty_state {
  energy_data = memory.energy_data.put memory.energy_data.empty (codes "custom") large_record;
}

tighten_accepted : (update_params tighten large_state).0 ≡ ok tt
unfolding update_params EnergyKeeper.set_params validate
tighten_accepted = refl

update_params-breaks_metadata_cap_example :
    metadata_within_cap_invariant (update_params tighten large_state).1 ≡ true
update_params-breaks_metadata_cap_example =
    update_params-breaks_metadata_cap large_state tighten (codes "custom") large_record
      tighten_accepted refl refl refl

update_params-cases_example :
    (((update_params tighten large_state).0 ≡ ok tt)
      × (codes "gov" ≡ codes "gov")
      × IsWithinBounds tighten.params
      × Replaced large_state tighten.params (update_params tighten large_state).1)
    ⊎ (((update_params tighten large_state).0 ≢ ok tt)
        × ((update_params tighten large_state).1 ≡ large_state))
update_params-cases_example = update_params-cases large_state tighten

id_sequence_monotonic_invariant-exact_example :
    (id_sequence_monotonic_invariant large_state ≡ false) ↔ IdsBelowSequence large_state
id_sequence_monotonic_invariant-exact_example =
    id_sequence_monotonic_invariant-exact large_state refl

by_category_consistency_invariant-exact_example :
    (by_category_consistency_invariant large_state ≡ false) ↔ CategoriesHaveRecords large_state
by_category_consistency_invariant-exact_example =
    by_category_consistency_invariant-exact large_state refl
