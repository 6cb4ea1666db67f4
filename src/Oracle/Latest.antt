-- ===== src/Oracle/Latest.antt =====
-- The history and the latest values of chain/x/oracle/keeper agree.
use energychain_node.Prelude.{
  subst, ℕ, ◌+◌, ◌^◌, ◌<◌, ◌≡◌, ◌≢◌, refl, sym, ap, ◌∙◌, true, false, ◌&&◌, some, inl, inr, arith,
  Bytes, exceeds, ltb, eq_refl, eq-cases, list_eq, ℕ_eq, pair_eq, Bool-cases,
}
use energychain_node.Prelude.Int.{
  pos, ◌≤ℤ◌, ◌+ℤ◌, ◌-ℤ◌, ltb_ℤ, wrap, wrap-add, wrap-sub, -ℤ_parts, +ℤ_parts,
}
use energychain_node.Outcome.{ok, ◌>>◌}
use energychain_node.Sdk.Store.{found}
use energychain_node.Sdk.Walk.{count_fault-exact}
use energychain_node.Sdk.Context.{Context, Event}
use energychain_node.Oracle.Types.{OracleData, MsgSubmitData}
use energychain_node.Oracle.State.{Keeper, State}
use energychain_node.Oracle.Keeper as OracleKeeper
use energychain_node.Oracle.Keeper.{timestamp_to_key}
use energychain_node.Oracle.MsgServer.{
  max_drift, submitted_data, submitted_event, emit, submit_data,
}
use energychain_node.Oracle.Invariants.{drifted, latest_data_consistency_invariant}

module _ ⦃k : Keeper⦄ where
  -- The latest value of a category is of that category, and the history has it at its time.
  pub record IsConsistent (s : State) : Type 0 where
    pub categories :
        (c : Bytes) (d : OracleData) → k.latest_data.get s.latest_data c ≡ found d → d.category ≡ c
    pub recorded :
        (c : Bytes) (d : OracleData)
        → k.latest_data.get s.latest_data c ≡ found d
        → k.history.get s.history (c, timestamp_to_key d.timestamp) ≡ found d

  -- A datapoint is in both collections, and nothing else of them has changed.
  pub record Recorded (d : OracleData) (s s' : State) : Type 0 where
    pub history_fits : k.history.encodes (d.category, timestamp_to_key d.timestamp) d ≡ true
    pub latest_fits : k.latest_data.encodes d.category d ≡ true
    pub history : s'.history ≡ k.history.put s.history (d.category, timestamp_to_key d.timestamp) d
    pub latest : s'.latest_data ≡ k.latest_data.put s.latest_data d.category d

  written_in_both :
      (s : State) (d : OracleData) (e : Event)
      → ((OracleKeeper.set_oracle_data d >> emit e) s).0 ≡ ok tt
      → Recorded d s ((OracleKeeper.set_oracle_data d >> emit e) s).1
  unfolding OracleKeeper.set_oracle_data
  written_in_both s d e done =
      elim (Bool-cases (k.history.encodes (d.category, timestamp_to_key d.timestamp) d)) [
        | inr bad ↦ absurd (cc (rw bad at done))
        | inl fits ↦ elim (Bool-cases (k.latest_data.encodes d.category d)) [
          | inr bad ↦ absurd (cc (rw (fits, bad) at done))
          | inl good ↦
              rw (fits, good)
                (record { history_fits = fits; latest_fits = good; history = refl; latest = refl })
        ]
      ]

  module _ (s s' : State) (d : OracleData) (x : Recorded d s s') where
    latest_there : k.latest_data.get s'.latest_data d.category ≡ found d
    latest_there = rw x.latest (k.latest_data.get-put_self s.latest_data d.category d x.latest_fits)

    history_there : k.history.get s'.history (d.category, timestamp_to_key d.timestamp) ≡ found d
    history_there = rw x.history (
        k.history.get-put_self s.history (d.category, timestamp_to_key d.timestamp) d
          x.history_fits)

    same_latest :
        (c : Bytes) (e : OracleData)
        → d.category ≡ c
        → k.latest_data.get s'.latest_data c ≡ found e
        → d ≡ e
    same_latest c e p g = cc (latest_there, ap (k.latest_data.get s'.latest_data) p, g)

    other_latest :
        (c : Bytes)
        → d.category ≢ c
        → k.latest_data.get s'.latest_data c ≡ k.latest_data.get s.latest_data c
    other_latest c ne =
        rw x.latest (k.latest_data.get-put_ne s.latest_data d.category d c x.latest_fits ne)

    other_history :
        (c : Bytes) (t : ℕ)
        → d.category ≢ c
        → k.history.get s'.history (c, t) ≡ k.history.get s.history (c, t)
    other_history c t ne = rw x.history (
        k.history.get-put_ne s.history (d.category, timestamp_to_key d.timestamp) d (c, t)
          x.history_fits (λ p. ne (ap (λ (q : Bytes × ℕ). q.0) p)))

    Recorded-IsConsistent : IsConsistent s → IsConsistent s'
    Recorded-IsConsistent h = record {
      categories = λ c e g. elim (eq-cases d.category c) [
        | inl p ↦ ap (λ z. z.category) (sym (same_latest c e p g)) ∙ p
        | inr (_, ne) ↦ h.categories c e (sym (other_latest c ne) ∙ g)
      ];
      recorded = λ c e g. elim (eq-cases d.category c) [
        | inl p ↦
            subst (λ z. k.history.get s'.history (c, timestamp_to_key z.timestamp) ≡ found z)
              (same_latest c e p g)
              (subst (λ z. k.history.get s'.history (z, timestamp_to_key d.timestamp) ≡ found d) p
                history_there)
        | inr (_, ne) ↦
            other_history c (timestamp_to_key e.timestamp) ne
            ∙ h.recorded c e (sym (other_latest c ne) ∙ g)
      ];
    }

  -- The guards that a successful submission has passed.
  record Accepted (ctx : Context) (msg : MsgSubmitData) (s : State) : Type 0 where
    authorized : OracleKeeper.is_authorized_oracle s msg.submitter msg.category ≡ true
    not_future :
        ltb_ℤ (wrap (ctx.block_time +ℤ max_drift (OracleKeeper.get_params s))) msg.timestamp ≡ false
    not_past :
        ltb_ℤ msg.timestamp (wrap (ctx.block_time -ℤ max_drift (OracleKeeper.get_params s))) ≡ false
    stored : Recorded (submitted_data ctx msg) s (submit_data ctx msg s).1

  submit_data-Accepted :
      (ctx : Context) (msg : MsgSubmitData) (s : State)
      → (submit_data ctx msg s).0 ≡ ok tt
      → Accepted ctx msg s
  unfolding submit_data
  submit_data-Accepted ctx msg s done =
      let p = OracleKeeper.get_params s in
      elim (Bool-cases (OracleKeeper.is_authorized_oracle s msg.submitter msg.category)) [
        | inr other ↦ absurd (cc (rw other at done))
        | inl may ↦
            elim (Bool-cases
              (ltb 0 p.max_metadata_size && exceeds msg.metadata p.max_metadata_size)) [
                | inl large ↦ absurd (cc (rw (may, large) at done))
                | inr small ↦
                    elim (Bool-cases (ltb_ℤ (wrap (ctx.block_time +ℤ max_drift p)) msg.timestamp)) [
                      | inl future ↦ absurd (cc (rw (may, small, future) at done))
                      | inr soon ↦
                          elim (Bool-cases
                            (ltb_ℤ msg.timestamp (wrap (ctx.block_time -ℤ max_drift p)))) [
                              | inl past ↦ absurd (cc (rw (may, small, soon, past) at done))
                              | inr late ↦ record {
                                authorized = may;
                                not_future = soon;
                                not_past = late;
                                stored =
                                    rw (may, small, soon, late)
                                      (written_in_both s (submitted_data ctx msg)
                                        (submitted_event msg)
                                        (rw (may, small, soon, late) at done));
                              }
                            ]
                    ]
              ]
      ]

  -- A submission that succeeds on a consistent store is one of an authorized oracle, leaves a
  -- consistent store, and is the latest value of its category.
  pub submit_data-recorded :
      (ctx : Context) (msg : MsgSubmitData) (s : State)
      → IsConsistent s
      → (submit_data ctx msg s).0 ≡ ok tt
      → (OracleKeeper.is_authorized_oracle s msg.submitter msg.category ≡ true)
        × IsConsistent (submit_data ctx msg s).1
        × (OracleKeeper.get_latest_data (submit_data ctx msg s).1 msg.category
            ≡ some (submitted_data ctx msg))
  unfolding OracleKeeper.get_latest_data
  submit_data-recorded ctx msg s h done =
      let a = submit_data-Accepted ctx msg s done in
      let t = (submit_data ctx msg s).1 in
      (
        a.authorized,
        Recorded-IsConsistent s t (submitted_data ctx msg) a.stored h,
        rw (OracleKeeper.get_latest_data, latest_there s t (submitted_data ctx msg) a.stored) refl,
      )

  -- A submission that succeeds has a time within the drift of the time of the block, where both are
  -- below 2 ^ 62.
  pub submit_data-within_drift :
      (ctx : Context) (msg : MsgSubmitData) (s : State) (time drift : ℕ)
      → ctx.block_time ≡ pos time
      → max_drift (OracleKeeper.get_params s) ≡ pos drift
      → time < 2 ^ 62
      → drift < 2 ^ 62
      → (submit_data ctx msg s).0 ≡ ok tt
      → (msg.timestamp ≤ℤ pos (time + drift)) × (pos time ≤ℤ msg.timestamp +ℤ pos drift)
  submit_data-within_drift ctx msg s time drift now bound time_fits drift_fits done =
      let a = submit_data-Accepted ctx msg s done in
      let soon : ltb_ℤ (pos (time + drift)) msg.timestamp ≡ false =
        rw (now, bound, wrap-add time drift time_fits drift_fits) at a.not_future in
      let late : ltb_ℤ msg.timestamp (pos time -ℤ pos drift) ≡ false =
        rw (now, bound, wrap-sub time drift time_fits drift_fits) at a.not_past in
      (
        ground arith,
        ground (arith, -ℤ_parts (pos time) (pos drift), +ℤ_parts msg.timestamp (pos drift)),
      )

  -- On a consistent store whose walk of the latest values ends without an error, the check of the
  -- latest values passes.
  pub latest_data_consistency_invariant-passes :
      (s : State)
      → IsConsistent s
      → k.latest_data.walk_fails s.latest_data ≡ false
      → latest_data_consistency_invariant s ≡ false
  unfolding latest_data_consistency_invariant
  latest_data_consistency_invariant-passes s h ends =
      (count_fault-exact (drifted s) k.latest_data s.latest_data ends).1 (λ c d g.
        rw (drifted, h.recorded c d g) (ground (arith, eq_refl d.value, eq_refl d.submitter)))
