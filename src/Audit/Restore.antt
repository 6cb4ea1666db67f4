-- ===== src/Audit/Restore.antt =====
-- `InitGenesis` of chain/x/audit/keeper/keeper.go restores what `ExportGenesis` wrote.
use energychain_node.Prelude.{
  subst, ℕ, ◌≤◌, ◌≡◌, ◌↔◌, refl, sym, ap, ◌∙◌, some, List, [], ◌∷◌, inl, inr, arith, Bytes, In, All,
  ltb, Eq, ℕ_eq, list_eq, pair_eq, if◌then◌else◌,
}
use energychain_node.Outcome.{Outcome, ok, continue_inv}
use energychain_node.Sdk.Store.{Store, found}
use energychain_node.Sdk.PutAll.{put_all, Fits, put_all-found, put_all-one_value}
use energychain_node.Audit.Types.{AuditLog}
use energychain_node.Audit.State.{Keeper, State, Error}
use energychain_node.Audit.Keeper as AuditKeeper
use energychain_node.Audit.Keeper.{
  timestamp_to_key, max_id, export_all_logs, export_genesis, init_genesis,
}
use energychain_node.Audit.Written.{Written, record_audit_log-Written}
use energychain_node.Audit.Ledger.{entry, Indexes}

pub max_id_bounded : (h : ℕ) (l : List AuditLog) → All (λ x. x.id ≤ h) l → max_id h l ≡ h
unfolding max_id
max_id_bounded h [] all = refl
max_id_bounded h (x ∷ l) (below, all) =
    let same : (if ltb h x.id then x.id else h) ≡ h = ground arith in
    ap (λ y. max_id y l) same ∙ max_id_bounded h l all

module _ ⦃k : Keeper⦄ where
  abbrev pub actor_key : AuditLog → Bytes × ℕ
  actor_key l = (l.actor, l.id)

  abbrev pub event_type_key : AuditLog → Bytes × ℕ
  event_type_key l = (l.event_type, l.id)

  abbrev pub time_key : AuditLog → ℕ × ℕ
  time_key l = (timestamp_to_key l.timestamp, l.id)

  -- The logs are put into the collections, one after another.
  pub record Restored (vs : List AuditLog) (s s' : State) : Type 0 where
    pub fits_logs : Fits k.logs (λ l. l.id) (λ l. l) vs
    pub fits_actors : Fits k.by_actor actor_key (λ _. tt) vs
    pub fits_event_types : Fits k.by_event_type event_type_key (λ _. tt) vs
    pub fits_times : Fits k.by_time time_key (λ _. tt) vs
    pub logs : s'.logs ≡ put_all k.logs (λ l. l.id) (λ l. l) vs s.logs
    pub by_actor : s'.by_actor ≡ put_all k.by_actor actor_key (λ _. tt) vs s.by_actor
    pub by_event_type :
        s'.by_event_type ≡ put_all k.by_event_type event_type_key (λ _. tt) vs s.by_event_type
    pub by_time : s'.by_time ≡ put_all k.by_time time_key (λ _. tt) vs s.by_time
    pub params : s'.params ≡ s.params
    pub sequence : s'.id_sequence ≡ s.id_sequence

  same_sequence :
      (l : AuditLog) (s : State) → (AuditKeeper.record_audit_log l s).1.id_sequence ≡ s.id_sequence
  unfolding AuditKeeper.record_audit_log
  same_sequence l s = ground arith

  Restored-cons :
      (l : AuditLog) (vs : List AuditLog) (s t u : State)
      → Written l s t
      → t.id_sequence ≡ s.id_sequence
      → Restored vs t u
      → Restored (l ∷ vs) s u
  Restored-cons l vs s t u w same r = record {
    fits_logs = (w.fits_log, r.fits_logs);
    fits_actors = (w.fits_actor, r.fits_actors);
    fits_event_types = (w.fits_event_type, r.fits_event_types);
    fits_times = (w.fits_time, r.fits_times);
    logs = r.logs ∙ ap (put_all k.logs (λ x. x.id) (λ x. x) vs) w.logs;
    by_actor = r.by_actor ∙ ap (put_all k.by_actor actor_key (λ _. tt) vs) w.by_actor;
    by_event_type =
        r.by_event_type ∙ ap (put_all k.by_event_type event_type_key (λ _. tt) vs) w.by_event_type;
    by_time = r.by_time ∙ ap (put_all k.by_time time_key (λ _. tt) vs) w.by_time;
    params = r.params ∙ w.params;
    sequence = r.sequence ∙ same;
  }

  pub restore_logs-Restored :
      (vs : List AuditLog) (s : State)
      → (AuditKeeper.restore_logs vs s).0 ≡ ok tt
      → Restored vs s (AuditKeeper.restore_logs vs s).1
  unfolding AuditKeeper.restore_logs
  restore_logs-Restored [] s done = record {
    fits_logs = tt;
    fits_actors = tt;
    fits_event_types = tt;
    fits_times = tt;
    logs = refl;
    by_actor = refl;
    by_event_type = refl;
    by_time = refl;
    params = refl;
    sequence = refl;
  }
  restore_logs-Restored (l ∷ vs) s done =
      let t = (AuditKeeper.record_audit_log l s).1 in
      let (_, first, rest, same) = continue_inv (AuditKeeper.record_audit_log l s) _ tt done in
      subst (λ (r : Outcome Error (Unit {0}) × State). Restored (l ∷ vs) s r.1) (sym same)
        (Restored-cons l vs s t _ (record_audit_log-Written l s first) (same_sequence l s)
          (restore_logs-Restored vs t rest))

-- The logs of a list that is exactly a ledger, put into empty collections.
module _ (ls vs : List AuditLog) (exact : (l : AuditLog) → In l vs ↔ (entry ls l.id ≡ some l))
    (numbered : (i : ℕ) (l : AuditLog) → entry ls i ≡ some l → l.id ≡ i) where
  In-entry : (i : ℕ) (l : AuditLog) → entry ls i ≡ some l → In l vs
  In-entry i l e = (exact l).1 (ap (entry ls) (numbered i l e) ∙ e)

  pub logs_restored :
      (store : Store ℕ AuditLog) (i : ℕ) (l : AuditLog)
      → Fits store (λ x. x.id) (λ x. x) vs
      → (store.get (put_all store (λ x. x.id) (λ x. x) vs store.empty) i ≡ found l)
        ↔ (entry ls i ≡ some l)
  logs_restored store i l fits = (
    λ g. elim (put_all-found store (λ x. x.id) (λ x. x) vs store.empty i l fits g) [
      | inl (v, there, p, q) ↦ ap (entry ls) (sym p) ∙ (exact v).0 there ∙ ap some q
      | inr g' ↦ absurd (cc (g', store.get-empty i))
    ],
    λ e.
        put_all-one_value store (λ x. x.id) (λ x. x) vs store.empty i l fits
          (λ v there p. cc ((exact v).0 there, ap (entry ls) p, e))
          (inl (l, In-entry i l e, numbered i l e)),
  )

  pub index_restored :
      {K : Type 0} ⦃q : Eq K⦄ (index : Store (K × ℕ) (Unit {0})) (field : AuditLog → K)
      → Fits index (λ x. (field x, x.id)) (λ _. tt) vs
      → Indexes index field ls (put_all index (λ x. (field x, x.id)) (λ _. tt) vs index.empty)
  index_restored index field fits a i = (
    λ g.
        elim (put_all-found index (λ x. (field x, x.id)) (λ _. tt) vs index.empty (a, i) tt fits
          g) [
            | inl (v, there, p, _) ↦
                (v, ap (λ x. entry ls x.1) (sym p) ∙ (exact v).0 there, ap (λ x. x.0) p)
            | inr g' ↦ absurd (cc (g', index.get-empty (a, i)))
          ],
    λ (l, e, p).
        put_all-one_value index (λ x. (field x, x.id)) (λ _. tt) vs index.empty (a, i) tt fits
          (λ _ _ _. refl) (inl (l, In-entry i l e, λ j. (p j, numbered i l e j))),
  )
