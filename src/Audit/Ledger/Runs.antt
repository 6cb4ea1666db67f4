-- ===== src/Audit/Ledger/Runs.antt =====
-- Runs of messages and blocks of chain/x/audit append to the ledger.
use energychain_node.Prelude.{
  ℕ, suc, ◌+◌, ◌^◌, ◌<◌, ◌≡◌, List, [], ◌∷◌, ◌++◌, inl, inr, arith, length, length-append, ◌==◌,
  eq_iff, ℕ_eq, list_eq, pair_eq, Bool-cases, Option-cases,
}
use energychain_node.Outcome.{ok}
use energychain_node.Sdk.Store.{found}
use energychain_node.Sdk.Context.{Context}
use energychain_node.Audit.Types.{AuditLog, MsgRecordAudit, MsgUpdateParams, validate}
use energychain_node.Audit.State.{Keeper, State}
use energychain_node.Audit.Keeper.{set_params}
use energychain_node.Audit.MsgServer.{recorded_log, record_audit, update_params}
use energychain_node.Audit.Written.{record_audit-Recorded}
use energychain_node.Audit.Ledger.{entry-append, entry_fresh, Represents, Recorded-Represents}

module _ ⦃k : Keeper⦄ where
  -- The messages and blocks that a chain runs, with the recordings among them in order. A message
  -- that fails is no step, since what it wrote is discarded.
  pub data Run : State → List (Context × MsgRecordAudit) → State → Type 0 where
    done : (s : State) → Run s [] s
    recorded :
        (s : State) (ctx : Context) (msg : MsgRecordAudit) (ms : List (Context × MsgRecordAudit))
        (t : State)
        → (record_audit ctx msg s).0 ≡ ok tt
        → Run (record_audit ctx msg s).1 ms t
        → Run s ((ctx, msg) ∷ ms) t
    updated :
        (s : State) (msg : MsgUpdateParams) (ms : List (Context × MsgRecordAudit)) (t : State)
        → (update_params msg s).0 ≡ ok tt
        → Run (update_params msg s).1 ms t
        → Run s ms t
    -- The transient store is wiped.
    next_block :
        (s : State) (ms : List (Context × MsgRecordAudit)) (t : State)
        → Run (record s { audit_counts = k.transient.wiped }) ms t
        → Run s ms t

  -- The ledger with the recordings behind it.
  abbrev pub append_all : List AuditLog → List (Context × MsgRecordAudit) → List AuditLog
  append_all ls [] = ls
  append_all ls ((ctx, msg) ∷ ms) =
      append_all (ls ++ recorded_log ctx msg (suc (length ls)) ∷ []) ms

  update_params-Represents :
      (ls : List AuditLog) (msg : MsgUpdateParams) (s : State)
      → Represents ls s
      → Represents ls (update_params msg s).1
  unfolding update_params set_params
  update_params-Represents ls msg s r = elim (Bool-cases (msg.authority == k.authority)) [
    | inr other ↦ rw (update_params, other) r
    | inl same ↦ elim (Option-cases (validate msg.params)) [
      | inr (e, bad) ↦ rw (update_params, same, bad) r
      | inl valid ↦ elim (Bool-cases (k.params.encodes tt msg.params)) [
        | inr bad ↦ rw (update_params, same, valid, bad) r
        | inl fits ↦
            rw (update_params, same, valid, fits)
              (record {
                sequence = r.sequence;
                logs = r.logs;
                numbers = r.numbers;
                by_actor = r.by_actor;
                by_event_type = r.by_event_type;
                by_time = r.by_time;
              })
      ]
    ]
  ]

  -- From a store that represents a ledger, with numbers left for what is recorded, every run of
  -- messages and blocks ends in a store that represents the ledger with the recorded logs behind it,
  -- in order: the store holds exactly these logs, each under its number, with exactly their index
  -- entries, and no log is changed or removed.
  pub Run-Represents :
      (ls : List AuditLog) (ms : List (Context × MsgRecordAudit)) (s t : State)
      → Represents ls s
      → length ls + length ms < 2 ^ 64
      → Run s ms t
      → Represents (append_all ls ms) t
        × ((i : ℕ) (l : AuditLog) → k.logs.get s.logs i ≡ found l → k.logs.get t.logs i ≡ found l)
  Run-Represents ls ms s t r room (done _) = (r, λ i l g. g)
  Run-Represents ls ms s t r room (recorded _ ctx msg rest _ accepted run) =
      let l = recorded_log ctx msg (suc (length ls)) in
      let x = record_audit-Recorded ctx msg (length ls) s r.sequence (omega arith) accepted in
      let r' = Recorded-Represents ctx msg ls s (record_audit ctx msg s).1 r x in
      let (all, kept) =
        Run-Represents (ls ++ l ∷ []) rest (record_audit ctx msg s).1 t r'
          (omega (arith, length-append ls (l ∷ []))) run in
      (
        all,
        λ i y g. kept i y (
            (r'.logs i y).1 (
              ground (
                arith,
                (r.logs i y).0 g,
                entry-append ls l i,
                eq_iff (suc (length ls)) i,
                entry_fresh ls i,
              ))),
      )
  Run-Represents ls ms s t r room (updated _ msg _ _ accepted run) =
      let (all, kept) =
        Run-Represents ls ms (update_params msg s).1 t (update_params-Represents ls msg s r) room
          run in
      (
        all,
        λ i l g. kept i l (((update_params-Represents ls msg s r).logs i l).1 ((r.logs i l).0 g)),
      )
  Run-Represents ls ms s t r room (next_block _ _ _ run) =
      Run-Represents ls ms (record s { audit_counts = k.transient.wiped }) t
        (record {
          sequence = r.sequence;
          logs = r.logs;
          numbers = r.numbers;
          by_actor = r.by_actor;
          by_event_type = r.by_event_type;
          by_time = r.by_time;
        })
        room run
