-- ===== src/Audit/Keeper.antt =====
-- The methods of chain/x/audit/keeper/keeper.go, less the queries over the indexes.
use energychain_node.Prelude.{
  ℕ, ◌+◌, ◌%◌, ◌^◌, Bool, Option, none, some, List, [], ◌∷◌, ◌++◌, map, Bytes, length, ltb, leb,
  eqb, if◌then◌else◌,
}
use energychain_node.Prelude.Int.{ℤ, pos, negsuc}
use energychain_node.Outcome.{ok, err, panic, Exec, ◌>>◌, pure, save}
use energychain_node.Binary.{put_uint32, uint32}
use energychain_node.Sdk.Store.{found, walk_until}
use energychain_node.Audit.Types.{Params, AuditLog, GenesisState, default_params}
use energychain_node.Audit.State.{
  Keeper, State, Error, audit_limit, store_log, index_by_actor, index_by_event_type, index_by_time,
  store_params,
}

-- `GetAuditCountByCreatorKey`
abbrev pub audit_count_key : Bytes → Bytes
audit_count_key creator = 0x10 ∷ creator

-- The count under a key of the transient store: 0 unless four bytes are there.
unfoldable pub stored_audits : Option Bytes → ℕ
stored_audits none = 0
stored_audits (some bz) = if leb 4 (length bz) then uint32 bz else 0

-- `timestampToKey`
abbrev pub timestamp_to_key : ℤ → ℕ
timestamp_to_key (pos n) = n
timestamp_to_key (negsuc n) = 0

abbrev pub max_query_results : ℕ
max_query_results = 1000

-- The highest identifier of the logs, from `maxID` on.
unfoldable pub max_id : ℕ → List AuditLog → ℕ
max_id highest [] = highest
max_id highest (l ∷ rest) = max_id (if ltb highest l.id then l.id else highest) rest

module _ ⦃k : Keeper⦄ where
  unfoldable pub get_params : State → Params
  get_params s = elim (k.params.get s.params tt) [ found p ↦ p | _ ↦ default_params ]

  unfoldable pub set_params : Params → Exec Error State (Unit {0})
  set_params p =
      save (k.params.encodes tt p) (λ s. record s { params = k.params.put s.params tt p })
        store_params

  unfoldable pub check_and_incr_audit_count : Bytes → Exec Error State (Unit {0})
  check_and_incr_audit_count addr s =
      let limit = (get_params s).max_audits_per_block_per_creator in
      let count = stored_audits (k.transient.get s.audit_counts (audit_count_key addr)) in
      if eqb limit 0 then (ok tt, s) else if leb limit count then (err audit_limit, s) else (
        ok tt,
        record s {
          audit_counts =
              k.transient.set s.audit_counts (audit_count_key addr)
                (put_uint32 ((count + 1) % 2 ^ 32));
        },
      )

  -- A sequence that cannot be read counts as empty.
  unfoldable pub get_next_id : State → ℕ
  get_next_id s = elim (k.id_sequence.peek s.id_sequence) [
    | none ↦ 1
    | some cur ↦ (cur + 1) % 2 ^ 64
  ]

  unfoldable pub increment_counter : ℕ → Exec Error State (Unit {0})
  increment_counter id s = elim (k.id_sequence.set s.id_sequence id) [
    | none ↦ (panic, s)
    | some q ↦ (ok tt, record s { id_sequence = q })
  ]

  -- The four writes of `RecordAuditLog`.
  abbrev pub save_log : AuditLog → Exec Error State (Unit {0})
  save_log l =
      save (k.logs.encodes l.id l) (λ s. record s { logs = k.logs.put s.logs l.id l }) store_log

  abbrev pub save_actor : AuditLog → Exec Error State (Unit {0})
  save_actor l =
      save (k.by_actor.encodes (l.actor, l.id) tt)
        (λ s. record s { by_actor = k.by_actor.put s.by_actor (l.actor, l.id) tt }) index_by_actor

  abbrev pub save_event_type : AuditLog → Exec Error State (Unit {0})
  save_event_type l =
      save (k.by_event_type.encodes (l.event_type, l.id) tt)
        (λ s. record s {
          by_event_type = k.by_event_type.put s.by_event_type (l.event_type, l.id) tt;
        })
        index_by_event_type

  abbrev pub save_time : AuditLog → Exec Error State (Unit {0})
  save_time l =
      save (k.by_time.encodes (timestamp_to_key l.timestamp, l.id) tt)
        (λ s. record s {
          by_time = k.by_time.put s.by_time (timestamp_to_key l.timestamp, l.id) tt;
        })
        index_by_time

  unfoldable pub record_audit_log : AuditLog → Exec Error State (Unit {0})
  record_audit_log l = do save_log l; save_actor l; save_event_type l; save_time l

  unfoldable pub get_audit_log : State → ℕ → Option AuditLog
  get_audit_log s id = elim (k.logs.get s.logs id) [ found l ↦ some l | _ ↦ none ]

  abbrev pub collect : List AuditLog → ℕ → AuditLog → List AuditLog × Bool
  collect logs _ l = let all = logs ++ l ∷ [] in (all, leb max_query_results (length all))

  unfoldable pub get_all_logs : State → List AuditLog
  get_all_logs s = (walk_until collect [] (k.logs.walk s.logs)).0

  unfoldable pub export_all_logs : State → List AuditLog
  export_all_logs s = map (λ e. e.1) (k.logs.walk s.logs)

  unfoldable pub restore_logs : List AuditLog → Exec Error State (Unit {0})
  restore_logs [] = pure tt
  restore_logs (l ∷ rest) = do record_audit_log l; restore_logs rest

  unfoldable pub init_genesis : GenesisState → Exec Error State (Unit {0})
  unfolding restore_logs max_id
  init_genesis gs = do
    set_params gs.params
    restore_logs gs.logs
    let highest = max_id gs.counter gs.logs in
        if ltb 0 highest then increment_counter highest else pure tt

  unfoldable pub export_genesis : State → GenesisState
  export_genesis s = record {
    params = get_params s;
    logs = export_all_logs s;
    counter = elim (k.id_sequence.peek s.id_sequence) [ none ↦ 0 | some n ↦ n ];
  }
