-- ===== src/Audit/Reimport.antt =====
-- An export of chain/x/audit that is imported again gives the same ledger.
use energychain_node.Prelude.{
  subst, ℕ, ◌≤◌, ◌≡◌, ◌↔◌, refl, sym, ap, ◌∙◌, true, false, none, some, List, inl, inr, arith, In,
  In-map, In-map_intro, All, All-intro, length, ltb, Bool-cases, if◌then◌else◌, list_eq, ℕ_eq,
  pair_eq,
}
use energychain_node.Outcome.{Outcome, ok, Exec, continue_inv, pure}
use energychain_node.Sdk.Store.{found}
use energychain_node.Sdk.PutAll.{put_all}
use energychain_node.Audit.Types.{Params, AuditLog}
use energychain_node.Audit.State.{Keeper, State, Error}
use energychain_node.Audit.Keeper as AuditKeeper
use energychain_node.Audit.Keeper.{
  max_id, export_all_logs, export_genesis, init_genesis, timestamp_to_key, get_params,
}
use energychain_node.Audit.Written.{Aside, counter_set}
use energychain_node.Audit.Ledger.{entry, Represents, Indexes, entry_fresh}
use energychain_node.Audit.Restore.{
  max_id_bounded, Restored, restore_logs-Restored, logs_restored, index_restored, actor_key,
  event_type_key, time_key,
}

module _ ⦃k : Keeper⦄ where
  -- Nothing has been written.
  pub record IsFresh (s : State) : Type 0 where
    pub sequence : s.id_sequence ≡ k.id_sequence.start
    pub logs : s.logs ≡ k.logs.empty
    pub by_actor : s.by_actor ≡ k.by_actor.empty
    pub by_event_type : s.by_event_type ≡ k.by_event_type.empty
    pub by_time : s.by_time ≡ k.by_time.empty

  params_put :
      (p : Params) (s : State)
      → IsFresh s
      → (AuditKeeper.set_params p s).0 ≡ ok tt
      → IsFresh (AuditKeeper.set_params p s).1
        × (k.params.encodes tt p ≡ true)
        × ((AuditKeeper.set_params p s).1.params ≡ k.params.put s.params tt p)
  unfolding AuditKeeper.set_params
  params_put p s fresh done = elim (Bool-cases (k.params.encodes tt p)) [
    | inr bad ↦ absurd (cc (rw (AuditKeeper.set_params, bad) at done))
    | inl fits ↦
        rw (AuditKeeper.set_params, fits)
          (
            record {
              sequence = fresh.sequence;
              logs = fresh.logs;
              by_actor = fresh.by_actor;
              by_event_type = fresh.by_event_type;
              by_time = fresh.by_time;
            },
            refl,
            refl,
          )
  ]

  params_found :
      (p : Params) (s u : State)
      → k.params.encodes tt p ≡ true
      → u.params ≡ k.params.put s.params tt p
      → get_params u ≡ p
  unfolding get_params
  params_found p s u fits e =
      rw (get_params, ap (λ m. k.params.get m tt) e ∙ k.params.get-put_self s.params tt p fits) refl

  module _ (ls : List AuditLog) (s : State) (r : Represents ls s)
      (ends : k.logs.walk_fails s.logs ≡ false) where
    exported_exactly : (l : AuditLog) → In l (export_all_logs s) ↔ (entry ls l.id ≡ some l)
    unfolding export_all_logs
    exported_exactly l = (
      λ i.
          let (e, there, p) = In-map (λ (x : ℕ × AuditLog). x.1) (k.logs.walk s.logs) l i in
          let at : entry ls e.0 ≡ some e.1 =
            (r.logs e.0 e.1).0 (k.logs.walk_sound s.logs e.0 e.1 there) in
          subst (λ x. entry ls x.id ≡ some x) (sym p) (ap (entry ls) (r.numbers e.0 e.1 at) ∙ at),
      λ e.
          In-map_intro (λ (x : ℕ × AuditLog). x.1) (k.logs.walk s.logs) (l.id, l)
            (k.logs.walk_complete s.logs l.id l ends ((r.logs l.id l).1 e)),
    )

    below_length : All (λ l. l.id ≤ length ls) (export_all_logs s)
    below_length =
        All-intro (λ l. l.id ≤ length ls) (export_all_logs s)
          (λ l i. elim (Bool-cases (ltb (length ls) l.id)) [
            | inl above ↦ absurd (cc ((exported_exactly l).0 i, entry_fresh ls l.id (ground arith)))
            | inr below ↦ ground arith
          ])

    abbrev set_highest : ℕ → Exec Error State (Unit {0})
    set_highest highest = if ltb 0 highest then AuditKeeper.increment_counter highest else pure tt

    -- What the last step of an import makes of restored collections.
    module _ (s0 t : State) (fresh : IsFresh s0) (x : Restored (export_all_logs s) s0 t) where
      numbered_restored :
          (u : State)
          → Aside t u
          → k.id_sequence.peek u.id_sequence ≡ some (length ls)
          → Represents ls u
      numbered_restored u a peek =
          let vs = export_all_logs s in
          record {
            sequence = peek;
            logs = λ i l.
                subst (λ m. (k.logs.get m i ≡ found l) ↔ (entry ls i ≡ some l))
                  (sym (a.logs ∙ x.logs ∙ ap (put_all k.logs (λ y. y.id) (λ y. y) vs) fresh.logs))
                  (logs_restored ls vs exported_exactly r.numbers k.logs i l x.fits_logs);
            numbers = r.numbers;
            by_actor =
                subst (Indexes k.by_actor (λ l. l.actor) ls)
                  (sym (
                    a.by_actor
                    ∙ x.by_actor
                    ∙ ap (put_all k.by_actor actor_key (λ _. tt) vs) fresh.by_actor))
                  (index_restored ls vs exported_exactly r.numbers k.by_actor (λ l. l.actor)
                    x.fits_actors);
            by_event_type =
                subst (Indexes k.by_event_type (λ l. l.event_type) ls)
                  (sym (
                    a.by_event_type
                    ∙ x.by_event_type
                    ∙ ap (put_all k.by_event_type event_type_key (λ _. tt) vs) fresh.by_event_type))
                  (index_restored ls vs exported_exactly r.numbers k.by_event_type
                    (λ l. l.event_type) x.fits_event_types);
            by_time =
                subst (Indexes k.by_time (λ l. timestamp_to_key l.timestamp) ls)
                  (sym (
                    a.by_time
                    ∙ x.by_time
                    ∙ ap (put_all k.by_time time_key (λ _. tt) vs) fresh.by_time))
                  (index_restored ls vs exported_exactly r.numbers k.by_time
                    (λ l. timestamp_to_key l.timestamp) x.fits_times);
          }

      finished :
          (set_highest (length ls) t).0 ≡ ok tt
          → Represents ls (set_highest (length ls) t).1
            × ((set_highest (length ls) t).1.params ≡ s0.params)
      finished done = elim (Bool-cases (ltb 0 (length ls))) [
        | inr none_there ↦ rw none_there (
          numbered_restored t
              (record {
                logs = refl;
                by_actor = refl;
                by_event_type = refl;
                by_time = refl;
                params = refl;
              })
              (ap k.id_sequence.peek (x.sequence ∙ fresh.sequence)
                ∙ k.id_sequence.peek-start
                ∙ ap some (ground arith)),
          x.params,
        )
        | inl some_there ↦
            let (peek, aside) = counter_set (length ls) t (rw some_there at done) in
            rw some_there (numbered_restored _ aside peek, aside.params ∙ x.params)
      ]

    -- An export of a store that represents a ledger, and whose walk of the logs ends without an
    -- error, imported into a store in which nothing has been written, gives a store that represents
    -- the same ledger, with the same parameters, if the import succeeds.
    pub init_genesis-export_genesis-Represents :
        (s0 : State)
        → IsFresh s0
        → (init_genesis (export_genesis s) s0).0 ≡ ok tt
        → let s' = (init_genesis (export_genesis s) s0).1 in
          Represents ls s' × (get_params s' ≡ get_params s)
    unfolding init_genesis export_genesis
    init_genesis-export_genesis-Represents s0 fresh done =
        let p = get_params s in
        let vs = export_all_logs s in
        let s1 = (AuditKeeper.set_params p s0).1 in
        let s2 = (AuditKeeper.restore_logs vs s1).1 in
        let highest : ℕ =
          max_id (elim (k.id_sequence.peek s.id_sequence) [ none ↦ 0 | some n ↦ n ]) vs in
        let highest_is : highest ≡ length ls =
          rw r.sequence (max_id_bounded (length ls) vs below_length) in
        let (_, first, rest, same) = continue_inv (AuditKeeper.set_params p s0) _ tt done in
        let (_, second, last, same') = continue_inv (AuditKeeper.restore_logs vs s1) _ tt rest in
        let (still_fresh, encoded, put) = params_put p s0 fresh first in
        let x = restore_logs-Restored vs s1 second in
        let (ledger, params) =
          finished s1 s2 still_fresh x
            (subst (λ h. (set_highest h s2).0 ≡ ok tt) highest_is last) in
        subst
          (λ (o : Outcome Error (Unit {0}) × State).
            Represents ls o.1 × (get_params o.1 ≡ get_params s))
          (sym (same ∙ same' ∙ ap (λ h. set_highest h s2) highest_is))
          (ledger, params_found p s0 _ encoded (params ∙ put))
