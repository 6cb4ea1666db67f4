-- ===== src/Energy/Keeper.antt =====
-- The methods of chain/x/energy/keeper/keeper.go, less genesis.
use energychain_node.Prelude.{
  listed, ℕ, ◌+◌, ◌%◌, ◌^◌, Bool, true, Option, none, some, List, ◌∷◌, map, Bytes, length, leb, eqb,
  list_eq, ℕ_eq, if◌then◌else◌,
}
use energychain_node.Outcome.{ok, err, panic, Exec, ◌>>◌, save}
use energychain_node.Binary.{put_uint32, uint32}
use energychain_node.Sdk.Store.{found}
use energychain_node.Energy.Types.{Params, default_params, EnergyData, BatchSubmission}
use energychain_node.Energy.EnergyId.{energy_id}
use energychain_node.Energy.State.{
  Keeper, State, Error, submission_limit, store_energy_data, index_by_category, index_by_submitter,
  store_batch, store_params,
}

-- `GetSubmitCountByAddrKey`
abbrev pub submit_count_key : Bytes → Bytes
submit_count_key addr = 0x10 ∷ addr

-- The count under a key of the transient store: 0 unless four bytes are there.
unfoldable pub stored_count : Option Bytes → ℕ
stored_count none = 0
stored_count (some bz) = if leb 4 (length bz) then uint32 bz else 0

module _ ⦃k : Keeper⦄ where
  unfoldable pub get_params : State → Params
  get_params s = elim (k.params.get s.params tt) [ found p ↦ p | _ ↦ default_params ]

  unfoldable pub set_params : Params → Exec Error State (Unit {0})
  set_params p =
      save (k.params.encodes tt p) (λ s. record s { params = k.params.put s.params tt p })
        store_params

  -- `GenerateID`: a failing sequence panics.
  unfoldable pub generate_id : Exec Error State Bytes
  generate_id s = elim (k.id_sequence.next s.id_sequence) [
    | none ↦ (panic, s)
    | some (seq, q) ↦ (ok (energy_id ((seq + 1) % 2 ^ 64)), record s { id_sequence = q })
  ]

  unfoldable pub get_current_id : State → ℕ
  get_current_id s = elim (k.id_sequence.peek s.id_sequence) [ none ↦ 0 | some seq ↦ seq ]

  -- `SetCurrentID`
  unfoldable pub set_current_id : ℕ → Exec Error State (Unit {0})
  set_current_id seq s = elim (k.id_sequence.set s.id_sequence seq) [
    | none ↦ (panic, s)
    | some q ↦ (ok tt, record s { id_sequence = q })
  ]

  -- The three writes of `SubmitEnergyData`.
  abbrev pub save_data : EnergyData → Exec Error State (Unit {0})
  save_data d =
      save (k.energy_data.encodes d.id d)
        (λ s. record s { energy_data = k.energy_data.put s.energy_data d.id d }) store_energy_data

  abbrev pub save_category : EnergyData → Exec Error State (Unit {0})
  save_category d =
      save (k.by_category.encodes (d.category, d.id) tt)
        (λ s. record s { by_category = k.by_category.put s.by_category (d.category, d.id) tt })
        index_by_category

  abbrev pub save_submitter : EnergyData → Exec Error State (Unit {0})
  save_submitter d =
      save (k.by_submitter.encodes (d.submitter, d.id) tt)
        (λ s. record s { by_submitter = k.by_submitter.put s.by_submitter (d.submitter, d.id) tt })
        index_by_submitter

  unfoldable pub submit_energy_data : EnergyData → Exec Error State (Unit {0})
  submit_energy_data d = do save_data d; save_category d; save_submitter d

  unfoldable pub get_energy_data : State → Bytes → Option EnergyData
  get_energy_data s id = elim (k.energy_data.get s.energy_data id) [ found d ↦ some d | _ ↦ none ]

  -- `IterateEnergyData`, `getAllDataUnbounded`: what the walk has visited, also when it ends early.
  unfoldable pub get_all_data_unbounded : State → List EnergyData
  get_all_data_unbounded s = map (λ e. e.1) (k.energy_data.walk s.energy_data)

  unfoldable pub submit_batch : BatchSubmission → Exec Error State (Unit {0})
  submit_batch batch =
      save (k.batches.encodes batch.id batch)
        (λ s. record s { batches = k.batches.put s.batches batch.id batch }) store_batch

  unfoldable pub get_batch : State → Bytes → Option BatchSubmission
  get_batch s id = elim (k.batches.get s.batches id) [ found b ↦ some b | _ ↦ none ]

  unfoldable pub get_all_batches_unbounded : State → List BatchSubmission
  get_all_batches_unbounded s = map (λ e. e.1) (k.batches.walk s.batches)

  unfoldable pub is_allowed_submitter : State → Bytes → Bool
  is_allowed_submitter s address =
      let params = get_params s in
      if params.permissionless then true else listed address params.allowed_submitters

  -- The number of submissions of an address that the current block has counted.
  unfoldable pub submit_count : State → Bytes → ℕ
  submit_count s addr = stored_count (k.transient.get s.submit_counts (submit_count_key addr))

  unfoldable pub check_and_incr_submit_count : Bytes → Exec Error State (Unit {0})
  unfolding submit_count
  check_and_incr_submit_count addr s =
      let limit = (get_params s).max_submissions_per_block_per_submitter in
      let count = submit_count s addr in
      if eqb limit 0 then (ok tt, s) else if leb limit count then (err submission_limit, s) else (
        ok tt,
        record s {
          submit_counts =
              k.transient.set s.submit_counts (submit_count_key addr)
                (put_uint32 ((count + 1) % 2 ^ 32));
        },
      )
