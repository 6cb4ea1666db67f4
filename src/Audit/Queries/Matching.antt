-- ===== src/Audit/Queries/Matching.antt =====
-- The answers of `AuditLogs` of chain/x/audit/keeper/query_server.go.
use energychain_node.Prelude.{
  ℕ, ◌≡◌, ◌⊎◌, refl, none, List, [], Bytes, In, true, false, ◌&&◌, ◌||◌, not, Bool-cases, inl, inr,
  ◌==◌, list_eq, ℕ_eq, arith, eq-cases, Bool,
}
use energychain_node.Prelude.Int.{ℤ, ◌≤ℤ◌, ltb_ℤ}
use energychain_node.Outcome.{ok}
use energychain_node.Sdk.Context.{Context}
use energychain_node.Sdk.Store.{found}
use energychain_node.Sdk.Paging.{Paging, answer-In}
use energychain_node.Audit.Types.{AuditLog}
use energychain_node.Audit.State.{Keeper, State}
use energychain_node.Audit.Queries.{
  AuditLogsRequest, has_time_range, upper_time, matches, paginating_failed, audit_logs,
}

-- What the request asks of a log: an empty filter and an absent range ask nothing.
pub record IsRequested (ctx : Context) (req : AuditLogsRequest) (log : AuditLog) : Type 0 where
  pub actor : (req.actor ≡ []) ⊎ (log.actor ≡ req.actor)
  pub event_type : (req.event_type ≡ []) ⊎ (log.event_type ≡ req.event_type)
  pub range :
      (has_time_range req ≡ false)
      ⊎ ((req.from_timestamp ≤ℤ log.timestamp) × (log.timestamp ≤ℤ upper_time ctx req))

passes_filter :
    (wanted value : Bytes)
    → not (wanted == []) && not (value == wanted) ≡ false
    → (wanted ≡ []) ⊎ (value ≡ wanted)
passes_filter wanted value h = elim (eq-cases wanted []) [
  | inl e ↦ inl e
  | inr (a, _) ↦ elim (eq-cases value wanted) [
    | inl e ↦ inr e
    | inr (b, _) ↦ absurd (cc (rw (a, b) at h))
  ]
]

passes_range :
    (on : Bool) (from to t : ℤ)
    → on && (ltb_ℤ t from || ltb_ℤ to t) ≡ false
    → (on ≡ false) ⊎ ((from ≤ℤ t) × (t ≤ℤ to))
passes_range false from to t h = inl refl
passes_range true from to t h = inr (ground arith)

matches-IsRequested :
    (ctx : Context) (req : AuditLogsRequest) (id : ℕ) (log : AuditLog)
    → matches ctx req id log ≡ true
    → IsRequested ctx req log
unfolding matches
matches-IsRequested ctx req id log h =
    elim (Bool-cases (not (req.actor == []) && not (log.actor == req.actor))) [
      | inl bad ↦ absurd (cc (rw (matches, bad) at h))
      | inr a ↦
          elim (Bool-cases (not (req.event_type == []) && not (log.event_type == req.event_type))) [
            | inl bad ↦ absurd (cc (rw (matches, a, bad) at h))
            | inr e ↦
                elim (Bool-cases (
                  has_time_range req
                  && (ltb_ℤ log.timestamp req.from_timestamp
                      || ltb_ℤ (upper_time ctx req) log.timestamp))) [
                        | inl bad ↦ absurd (cc (rw (matches, a, e, bad) at h))
                        | inr t ↦ record {
                          actor = passes_filter req.actor log.actor a;
                          event_type = passes_filter req.event_type log.event_type e;
                          range =
                              passes_range (has_time_range req) req.from_timestamp
                                (upper_time ctx req) log.timestamp t;
                        }
                      ]
          ]
    ]

module _ ⦃k : Keeper⦄ where
  -- A query of the logs that succeeds answers with stored logs that have the actor and the event type
  -- that the request names, where it names one, and a time in its range, where it has one.
  pub audit_logs-IsRequested :
      (s : State) (ctx : Context) (paging : Paging k.logs (Unit {0})) (req : AuditLogsRequest)
      (page : paging.Request) (ls : List AuditLog) (next : paging.Response)
      → audit_logs paging ctx s req page ≡ ok (ls, next)
      → (l : AuditLog) → In l ls
      → ((id : ℕ) × (k.logs.get s.logs id ≡ found l)) × IsRequested ctx req l
  unfolding audit_logs
  audit_logs-IsRequested s ctx paging req page ls next done l i =
      elim (Bool-cases (has_time_range req && ltb_ℤ (upper_time ctx req) req.from_timestamp)) [
        | inl bad ↦ absurd (cc (rw (audit_logs, bad) at done))
        | inr good ↦
            let (id, v, e, there, kept, _) =
              answer-In k.logs paging s.logs none page (matches ctx req) paginating_failed
                (λ e. e.1) ls next l (rw (audit_logs, good) at done) i in
            rw e ((id, there), matches-IsRequested ctx req id v kept)
      ]
