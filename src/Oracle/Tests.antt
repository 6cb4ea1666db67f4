-- ===== src/Oracle/Tests.antt =====
-- The theorems on the oracle module at concrete inputs, on collections that are lists in memory.
use energychain_node.Prelude.{
  subst, sym, ap, ◌∙◌, Bool-cases, ℕ, ◌+◌, ◌≤◌, ◌<◌, ◌≡◌, ◌≢◌, refl, true, false, none, some, List,
  [], ◌∷◌, arith, Bytes, codes, In, inl, inr, listed, leb, ltb, ◌==◌, ◌&&◌, eq_iff, list_eq, ℕ_eq,
  pair_eq, unit_eq, if◌then◌else◌,
}
use energychain_node.Prelude.{inl, ◌∷◌}
use energychain_node.Sdk.OnePage.{one_page}
use energychain_node.Oracle.Queries.{DataHistoryRequest, upper_time, data_history}
use energychain_node.Oracle.Queries.Window.{data_history-within}
use energychain_node.Prelude.Int.{◌≤ℤ◌, pos, ◌≤ℤ◌, ◌+ℤ◌, ◌-ℤ◌, wrap}
use energychain_node.Outcome.{ok}
use energychain_node.Sdk.Store.{found}
use energychain_node.Sdk.Context.{Context}
use energychain_node.Sdk.Memory.{store, lookup_sound, Table}
use energychain_node.Oracle.Types.{Params, OracleInfo, OracleData, MsgSubmitData, is_authorized_for}
use energychain_node.Oracle.State.{Keeper, State}
use energychain_node.Oracle.Keeper as OracleKeeper
use energychain_node.Oracle.MsgServer.{max_drift, submitted_data, submit_data}
use energychain_node.Oracle.Genesis.{validate_genesis, oracle_addresses}
use energychain_node.Oracle.Latest.{IsConsistent, submit_data-recorded, submit_data-within_drift}
use energychain_node.Oracle.Export.{export_genesis-refused}

-- The entries of one category in a range of times.
abbrev within : Bytes → ℕ → ℕ → List ((Bytes × ℕ) × OracleData) → List ((Bytes × ℕ) × OracleData)
within c first last [] = []
within c first last ((key, d) ∷ rest) =
    let later = within c first last rest in
    if key.0 == c && (leb first key.1 && ltb key.1 last) then (key, d) ∷ later else later

within_sound :
    (c : Bytes) (first last : ℕ) (l : List ((Bytes × ℕ) × OracleData)) (key : Bytes × ℕ)
    (d : OracleData)
    → In (key, d) (within c first last l)
    → (key.0 ≡ c) × (first ≤ key.1) × (key.1 < last) × In (key, d) l
within_sound c first last [] key d h = elim h [ ]
within_sound c first last ((j, e) ∷ l) key d h =
    elim (Bool-cases (j.0 == c && (leb first j.1 && ltb j.1 last))) [
      | inr out ↦
          let (same, low, high, there) = within_sound c first last l key d (rw out at h) in
          (same, low, high, inr there)
      | inl inside ↦ elim (rw inside at h) [
        | inr later ↦
            let (same, low, high, there) = within_sound c first last l key d later in
            (same, low, high, inr there)
        | inl p ↦
            let q : key ≡ j = ap (λ (z : (Bytes × ℕ) × OracleData). z.0) p in
            let same : j.0 ≡ c = ground (arith, eq_iff j.0 c) in
            let low : first ≤ j.1 = ground arith in
            let high : j.1 < last = ground arith in
            (
              ap (λ (z : Bytes × ℕ). z.0) q ∙ same,
              subst (λ z. first ≤ z) (sym (ap (λ (z : Bytes × ℕ). z.1) q)) low,
              subst (λ z. z < last) (sym (ap (λ (z : Bytes × ℕ). z.1) q)) high,
              inl p,
            )
      ]
    ]

walk_range_sound :
    (m : Table (Bytes × ℕ) OracleData) (c : Bytes) (first last : ℕ) (key : Bytes × ℕ)
    (d : OracleData)
    → In (key, d) (within c first last m.entries)
    → (key.0 ≡ c)
      × (first ≤ key.1)
      × (key.1 < last)
      × ((store (Bytes × ℕ) OracleData).get m key ≡ found d)
walk_range_sound m c first last key d h =
    let (same, low, high, there) = within_sound c first last m.entries key d h in
    (same, low, high, lookup_sound m.entries key d m.unique there)

instance abbrev memory : Keeper
memory = record {
  authority = codes "gov";
  valid_address = λ _. true;
  params = store (Unit {0}) Params;
  oracles = store Bytes OracleInfo;
  history = store (Bytes × ℕ) OracleData;
  latest_data = store Bytes OracleData;
  walk_range = λ m c first last. within c first last m.entries;
  walk_range_sound = walk_range_sound;
}

abbrev meter : OracleInfo
meter = record {
  address = codes "meter";
  name = codes "Meter";
  active = true;
  authorized_categories = codes "price" ∷ [];
}

-- One oracle and no data.
abbrev start : State
start = record {
  params = memory.params.empty;
  oracles = memory.oracles.put memory.oracles.empty (codes "meter") meter;
  history = memory.history.empty;
  latest_data = memory.latest_data.empty;
  events = [];
}

start-IsConsistent : IsConsistent start
start-IsConsistent = record { categories = λ c d g. cc; recorded = λ c d g. cc }

abbrev block : Context
block = record { block_height = pos 7; block_time = pos 10000; tx_bytes = [] }

abbrev price : MsgSubmitData
price = record {
  submitter = codes "meter";
  category = codes "price";
  value = codes "42";
  metadata = [];
  timestamp = pos 9000;
}

price_accepted : (submit_data block price start).0 ≡ ok tt
unfolding submit_data OracleKeeper.is_authorized_oracle OracleKeeper.get_oracle is_authorized_for
    OracleKeeper.get_params OracleKeeper.set_oracle_data wrap ◌+ℤ◌ ◌-ℤ◌
price_accepted = refl

submit_data-recorded_example :
    (OracleKeeper.is_authorized_oracle start (codes "meter") (codes "price") ≡ true)
    × IsConsistent (submit_data block price start).1
    × (OracleKeeper.get_latest_data (submit_data block price start).1 (codes "price")
        ≡ some (submitted_data block price))
submit_data-recorded_example =
    submit_data-recorded block price start start-IsConsistent price_accepted

drift_is_default : max_drift (OracleKeeper.get_params start) ≡ pos 3600
unfolding OracleKeeper.get_params
drift_is_default = refl

submit_data-within_drift_example :
    (pos 9000 ≤ℤ pos (10000 + 3600)) × (pos 10000 ≤ℤ pos 9000 +ℤ pos 3600)
submit_data-within_drift_example =
    submit_data-within_drift block price start 10000 3600 refl drift_is_default (omega arith)
      (omega arith) price_accepted

abbrev priced : State
priced = (submit_data block price start).1

priced-IsConsistent : IsConsistent priced
priced-IsConsistent = (submit_data-recorded block price start start-IsConsistent price_accepted).1

-- A datapoint whose oracle is gone.
abbrev orphan : OracleData
orphan = record {
  category = codes "price";
  value = codes "41";
  metadata = [];
  timestamp = pos 8000;
  submitter = codes "gone";
  block_height = pos 6;
}

abbrev orphaned : State
orphaned = record start {
  history = memory.history.put memory.history.empty (codes "price", 8000) orphan;
}

not_listed :
    listed (codes "gone") (oracle_addresses (OracleKeeper.get_all_oracles orphaned)) ≡ false
unfolding OracleKeeper.get_all_oracles
not_listed = refl

gone_not_empty : codes "gone" ≢ []
gone_not_empty h = cc

export_genesis-refused_example : validate_genesis (OracleKeeper.export_genesis orphaned) ≢ none
export_genesis-refused_example =
    export_genesis-refused orphaned (codes "price", 8000) orphan refl refl gone_not_empty not_listed

abbrev sunny : OracleData
sunny = record {
  category = codes "price";
  value = codes "7";
  metadata = [];
  timestamp = pos 500;
  submitter = codes "meter";
  block_height = pos 1;
}

abbrev one_point : State
one_point = record start {
  history = memory.history.put memory.history.empty (codes "price", 500) sunny;
}

abbrev any_time : DataHistoryRequest
any_time = record { category = codes "price"; from_time = pos 400; to_time = pos 0 }

prices_found :
    data_history (one_page memory.history (λ e. e.0)) one_point any_time tt ≡ ok (sunny ∷ [], tt)
unfolding data_history
prices_found = refl

data_history-within_example :
    (pos 0 ≤ℤ pos 400)
    × (pos 400 ≤ℤ upper_time (pos 0))
    × ((d : OracleData)
        → In d (sunny ∷ [])
        → (t : ℕ) × (memory.history.get one_point.history (codes "price", t) ≡ found d)
          × (pos 400 ≤ℤ d.timestamp)
          × (d.timestamp ≤ℤ upper_time (pos 0)))
data_history-within_example =
    data_history-within one_point (one_page memory.history (λ e. e.0)) (λ e. refl) any_time tt
      (sunny ∷ []) tt prices_found
