-- ===== src/Audit/Tests.antt =====
-- The theorems on the audit module at concrete inputs, on collections that are lists in memory.
use energychain_node.Prelude.{
  zero, suc, ◌≤◌, ◌↔◌, ◌⊎◌, false, some, exceeds, ℕ, ◌≡◌, refl, arith, [], Bytes, codes, list_eq,
  ℕ_eq, pair_eq, unit_eq,
}
use energychain_node.Prelude.{inl, ◌∷◌}
use energychain_node.Sdk.Store.{found}
use energychain_node.Sdk.OnePage.{one_page}
use energychain_node.Audit.Queries.{AuditLogsRequest, audit_logs, matches}
use energychain_node.Audit.Queries.Matching.{IsRequested, audit_logs-IsRequested}
use energychain_node.Prelude.Int.{pos}
use energychain_node.Binary.{put_uint32, uint32}
use energychain_node.Outcome.{ok}
use energychain_node.Sdk.Context.{Context}
use energychain_node.Sdk.Memory.{store, sequence, raw_store}
use energychain_node.Audit.Types.{
  Params, AuditLog, MsgRecordAudit, MsgUpdateParams, default_params, validate,
}
use energychain_node.Audit.State.{Keeper, State}
use energychain_node.Audit.Keeper as AuditKeeper
use energychain_node.Audit.MsgServer.{is_allowed_auditor, recorded_log, record_audit, update_params}
use energychain_node.Audit.Invariants.{all_invariants}
use energychain_node.Audit.Ledger as Ledger
use energychain_node.Audit.Ledger.Runs.{Run, recorded, next_block, Run-Represents}
use energychain_node.Audit.Ledger.Runs as Runs
use energychain_node.Audit.Ledger.{Represents}
use energychain_node.Audit.Sound.{all_invariants-exact}
use energychain_node.Audit.Reimport.{IsFresh, init_genesis-export_genesis-Represents}
use energychain_node.Audit.RateLimit.{times, limit}
use energychain_node.Audit.RateLimit.Block.{
  Block, IsLimitUpTo, accepted, updated, done, recorded-le-limit,
}
use energychain_node.Audit.Append.{IsNumbered, record_audit-Appended}

-- The digest of a text is the text.
instance abbrev memory : Keeper
memory = record {
  authority = codes "gov";
  sha256 = λ text. text;
  params = store (Unit {0}) Params;
  id_sequence = sequence;
  logs = store ℕ AuditLog;
  by_actor = store (Bytes × ℕ) (Unit {0});
  by_event_type = store (Bytes × ℕ) (Unit {0});
  by_time = store (ℕ × ℕ) (Unit {0});
  transient = raw_store;
}

abbrev empty_state : State
empty_state = record {
  params = memory.params.empty;
  id_sequence = memory.id_sequence.start;
  logs = memory.logs.empty;
  by_actor = memory.by_actor.empty;
  by_event_type = memory.by_event_type.empty;
  by_time = memory.by_time.empty;
  audit_counts = memory.transient.wiped;
  events = [];
}

empty_state-IsNumbered : IsNumbered 0 empty_state
empty_state-IsNumbered = record { sequence = refl; bounded = λ i l g. cc }

abbrev block : Context
block = record { block_height = pos 7; block_time = pos 1700; tx_bytes = codes "tx" }

abbrev entry : MsgRecordAudit
entry = record {
  creator = codes "auditor";
  event_type = codes "transfer";
  target = codes "bob";
  action = codes "send";
  content = codes "{}";
}

entry_accepted : (record_audit block entry empty_state).0 ≡ ok tt
unfolding record_audit is_allowed_auditor AuditKeeper.get_params
    AuditKeeper.check_and_incr_audit_count AuditKeeper.stored_audits AuditKeeper.get_next_id
    AuditKeeper.record_audit_log AuditKeeper.increment_counter
entry_accepted = refl

-- The second entry follows the first.
abbrev first_state : State
first_state = (record_audit block entry empty_state).1

first_state-IsNumbered : IsNumbered 1 first_state
first_state-IsNumbered =
    (record_audit-Appended block entry 0 empty_state empty_state-IsNumbered (omega arith)
      entry_accepted).numbered

again_accepted : (record_audit block entry first_state).0 ≡ ok tt
unfolding record_audit is_allowed_auditor AuditKeeper.get_params
    AuditKeeper.check_and_incr_audit_count AuditKeeper.stored_audits AuditKeeper.get_next_id
    AuditKeeper.record_audit_log AuditKeeper.increment_counter put_uint32 uint32
again_accepted = refl

abbrev by_auditor : AuditLogsRequest
by_auditor = record {
  actor = codes "auditor";
  event_type = [];
  from_timestamp = pos 1600;
  to_timestamp = pos 0;
}

auditor_found :
    audit_logs (one_page memory.logs (λ _. tt)) block first_state by_auditor tt
    ≡ ok (recorded_log block entry 1 ∷ [], tt)
unfolding audit_logs matches record_audit is_allowed_auditor AuditKeeper.get_params
    AuditKeeper.check_and_incr_audit_count AuditKeeper.stored_audits AuditKeeper.get_next_id
    AuditKeeper.record_audit_log AuditKeeper.increment_counter
auditor_found = refl

audit_logs-IsRequested_example :
    ((id : ℕ) × (memory.logs.get first_state.logs id ≡ found (recorded_log block entry 1)))
    × IsRequested block by_auditor (recorded_log block entry 1)
audit_logs-IsRequested_example =
    audit_logs-IsRequested first_state block (one_page memory.logs (λ _. tt)) by_auditor tt
      (recorded_log block entry 1 ∷ []) tt auditor_found (recorded_log block entry 1) (inl refl)

no_entry : (i : ℕ) (l : AuditLog) → ¬ (Ledger.entry [] i ≡ some l)
no_entry zero l p = cc
no_entry (suc i) l p = cc

-- An empty store represents the empty ledger.
empty_state-Represents : Represents [] empty_state
empty_state-Represents = record {
  sequence = refl;
  logs = λ i l. (λ g. cc, λ p. absurd (no_entry i l p));
  numbers = λ i l p. absurd (no_entry i l p);
  by_actor = λ a i. (λ g. absurd (cc), λ (l, p, _). absurd (no_entry i l p));
  by_event_type = λ a i. (λ g. absurd (cc), λ (l, p, _). absurd (no_entry i l p));
  by_time = λ a i. (λ g. absurd (cc), λ (l, p, _). absurd (no_entry i l p));
}

abbrev next_state : State
next_state =
    (record_audit block entry (record first_state { audit_counts = memory.transient.wiped })).1

next_accepted :
    (record_audit block entry (record first_state { audit_counts = memory.transient.wiped })).0
    ≡ ok tt
unfolding record_audit is_allowed_auditor AuditKeeper.get_params
    AuditKeeper.check_and_incr_audit_count AuditKeeper.stored_audits AuditKeeper.get_next_id
    AuditKeeper.record_audit_log AuditKeeper.increment_counter put_uint32 uint32
next_accepted = refl

-- A recording in each of two blocks.
two_blocks : Run empty_state ((block, entry) ∷ (block, entry) ∷ []) next_state
two_blocks = recorded empty_state block entry ((block, entry) ∷ []) next_state entry_accepted (
    next_block first_state ((block, entry) ∷ []) next_state (
      recorded (record first_state { audit_counts = memory.transient.wiped }) block entry []
        next_state next_accepted (Runs.done next_state)))

Run-Represents_example :
    Represents (recorded_log block entry 1 ∷ recorded_log block entry 2 ∷ []) next_state
    × ((i : ℕ) (l : AuditLog)
        → memory.logs.get empty_state.logs i ≡ found l
        → memory.logs.get next_state.logs i ≡ found l)
Run-Represents_example =
    Run-Represents [] ((block, entry) ∷ (block, entry) ∷ []) empty_state next_state
      empty_state-Represents (omega arith) two_blocks

all_invariants-exact_example : (all_invariants next_state ≡ false) ↔ (
    ((AuditKeeper.get_params next_state).max_data_size ≡ 0)
    ⊎ ((i : ℕ) (l : AuditLog)
        → Ledger.entry (recorded_log block entry 1 ∷ recorded_log block entry 2 ∷ []) i ≡ some l
        → exceeds l.content (AuditKeeper.get_params next_state).max_data_size ≡ false))
all_invariants-exact_example =
    all_invariants-exact (recorded_log block entry 1 ∷ recorded_log block entry 2 ∷ []) next_state
      (Run-Represents [] ((block, entry) ∷ (block, entry) ∷ []) empty_state next_state
        empty_state-Represents (omega arith) two_blocks).0
      refl refl refl

limit_within : IsLimitUpTo 10000 (limit empty_state)
unfolding AuditKeeper.get_params
limit_within = omega arith

abbrev raise : MsgUpdateParams
raise = record {
  authority = codes "gov";
  params = record default_params { max_audits_per_block_per_creator = 200 };
}

raise_accepted : (update_params raise first_state).0 ≡ ok tt
unfolding update_params AuditKeeper.set_params validate
raise_accepted = refl

-- A recording, and then a change of the limit.
one_block :
    Block block empty_state (codes "auditor" ∷ []) (200 ∷ []) (update_params raise first_state).1
one_block =
    accepted empty_state entry [] (200 ∷ []) _ entry_accepted
      (updated first_state raise [] [] _ raise_accepted (done _))

recorded-le-limit_example : times (codes "auditor") (codes "auditor" ∷ []) ≤ 10000
recorded-le-limit_example =
    recorded-le-limit block (codes "auditor") 10000 empty_state (update_params raise first_state).1
      (codes "auditor" ∷ []) (200 ∷ []) (omega arith) limit_within (omega arith) refl one_block

empty_state-IsFresh : IsFresh empty_state
empty_state-IsFresh = record {
  sequence = refl;
  logs = refl;
  by_actor = refl;
  by_event_type = refl;
  by_time = refl;
}

reimported :
    (AuditKeeper.init_genesis (AuditKeeper.export_genesis next_state) empty_state).0 ≡ ok tt
unfolding record_audit is_allowed_auditor AuditKeeper.get_params
    AuditKeeper.check_and_incr_audit_count AuditKeeper.stored_audits AuditKeeper.get_next_id
    AuditKeeper.record_audit_log AuditKeeper.increment_counter put_uint32 uint32
    AuditKeeper.init_genesis AuditKeeper.export_genesis AuditKeeper.export_all_logs
    AuditKeeper.set_params AuditKeeper.restore_logs AuditKeeper.max_id
reimported = refl

init_genesis-export_genesis-Represents_example :
    let s' = (AuditKeeper.init_genesis (AuditKeeper.export_genesis next_state) empty_state).1 in
    Represents (recorded_log block entry 1 ∷ recorded_log block entry 2 ∷ []) s'
    × (AuditKeeper.get_params s' ≡ AuditKeeper.get_params next_state)
init_genesis-export_genesis-Represents_example =
    init_genesis-export_genesis-Represents
      (recorded_log block entry 1 ∷ recorded_log block entry 2 ∷ []) next_state
      (Run-Represents [] ((block, entry) ∷ (block, entry) ∷ []) empty_state next_state
        empty_state-Represents (omega arith) two_blocks).0
      refl empty_state empty_state-IsFresh reimported
