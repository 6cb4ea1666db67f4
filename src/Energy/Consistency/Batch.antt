-- ===== src/Energy/Consistency/Batch.antt =====
-- The batch handler keeps the store consistent, however it ends, and loses nothing stored.
use energychain_node.Prelude.{
  ℕ, suc, ◌+◌, ◌%◌, ◌^◌, ◌≤◌, ◌<◌, ◌≡◌, ◌≢◌, refl, ap, ◌∙◌, true, ◌&&◌, some, List, inl, inr, arith,
  Bytes, ltb, length, Bool-cases, eq_iff, list_eq, ℕ_eq,
}
use energychain_node.Outcome.{ok, Ends, Ends-bind, Ends-weaken, Ends-store, Ends-of_store, Ends-ok}
use energychain_node.Crypto.{Crypto}
use energychain_node.Sdk.Store.{found}
use energychain_node.Sdk.Laws.{get-put}
use energychain_node.Sdk.Context.{Context, Event}
use energychain_node.Energy.Types.{BatchSubmission, MsgBatchSubmit}
use energychain_node.Energy.EnergyId.{energy_id, parse_energy_id, parse_energy_id-energy_id}
use energychain_node.Energy.State.{Keeper, State}
use energychain_node.Energy.Keeper as EnergyKeeper
use energychain_node.Energy.Merkle.{verify_merkle_root}
use energychain_node.Energy.MsgServer.{batch_of, any_exceeds, batch_submit}
use energychain_node.Energy.Consistency.{
  IsConsistent, Extends, Extends-refl, Extends-trans, Progress,
}
use energychain_node.Energy.Consistency.Steps.{
  Kept, Issued, check_and_incr_submit_count-Kept, generate_id-Issued, Kept-since, emit-Kept,
}
use energychain_node.Energy.Consistency.Handlers.{Progress-of_Kept}
use energychain_node.Energy.Consistency.Items.{
  ItemsStored, ItemsStored-kept, AllStored, Progress-since, submit_items-AllStored,
}

-- The batch itself, under an identifier that no earlier batch has.
module _ ⦃k : Keeper⦄ (m : ℕ) (s : State) (c : IsConsistent m s) (b : BatchSubmission) where
  put_batch-IsConsistent :
      k.batches.encodes b.id b ≡ true
      → ((j : ℕ) → parse_energy_id b.id ≡ some j → j ≤ m)
      → IsConsistent m (record s { batches = k.batches.put s.batches b.id b })
  put_batch-IsConsistent e below = record {
    sequence = c.sequence;
    keyed = c.keyed;
    bounded = c.bounded;
    categories = c.categories;
    submitters = c.submitters;
    batches_bounded = λ i x j g p. ground (
      arith,
      get-put k.batches s.batches b.id b i e,
      eq_iff b.id i,
      c.batches_bounded i x j,
      below j,
    );
  }

  put_batch-Extends :
      (s0 : State)
      → Extends s0 s
      → ((x : BatchSubmission) → k.batches.get s0.batches b.id ≢ found x)
      → k.batches.encodes b.id b ≡ true
      → Extends s0 (record s { batches = k.batches.put s.batches b.id b })
  put_batch-Extends s0 x fresh e = record {
    data_kept = x.data_kept;
    batches_kept = λ i y g.
        k.batches.get-put_ne s.batches b.id b i e
          (λ p. fresh y (ap (k.batches.get s0.batches) p ∙ g))
        ∙ x.batches_kept i y g;
    categories_kept = x.categories_kept;
    submitters_kept = x.submitters_kept;
    params_kept = x.params_kept;
  }

module _ ⦃k : Keeper⦄ ⦃c : Crypto⦄ (ctx : Context) (msg : MsgBatchSubmit) (n : ℕ) (s : State) where
  abbrev pub BatchStored : Bytes × ℕ → State → Type 0
  BatchStored r s' =
      (r.0 ≡ energy_id (suc n))
      × (r.1 ≡ length msg.items % 2 ^ 32)
      × (k.batches.get s'.batches r.0 ≡ found (batch_of ctx msg r.0))
      × AllStored ctx msg (suc n) msg.items s s'

  -- The end of the handler, when the items are stored.
  store_batch :
      (u t : State) (id : Bytes)
      → suc n < 2 ^ 64
      → IsConsistent n s
      → id ≡ energy_id (suc n)
      → Extends s u
      → AllStored ctx msg (suc n) msg.items u t
      → Ends
          (λ _. BatchStored (id, length msg.items % 2 ^ 32))
          (Progress n (suc n + length msg.items) s)
          (EnergyKeeper.submit_batch (batch_of ctx msg id) t)
  unfolding EnergyKeeper.submit_batch
  store_batch u t id l h issued x (consistent, y, stored) =
      let b = batch_of ctx msg id in
      let m = suc n + length msg.items in
      let read : parse_energy_id id ≡ some (suc n) =
        ap parse_energy_id issued ∙ parse_energy_id-energy_id (suc n) l in
      elim (Bool-cases (k.batches.encodes id b)) [
        | inr bad ↦ rw bad (m, omega arith, omega arith, consistent, Extends-trans x y)
        | inl good ↦ rw good (
          issued,
          refl,
          k.batches.get-put_self t.batches id b good,
          (
            put_batch-IsConsistent m t consistent b good (λ j p. ground (arith, read)),
            put_batch-Extends m t consistent b s (Extends-trans x y)
                (λ z g. omega (arith, h.batches_bounded id z (suc n) g read)) good,
            ItemsStored-kept ctx msg (suc n) msg.items t
                (record t { batches = k.batches.put t.batches id b }) (λ i d g. g) stored,
          ),
        )
      ]

  BatchStored-events :
      (r : Bytes × ℕ) (t : State) (e : List Event)
      → BatchStored r t
      → BatchStored r (record t { events = e })
  BatchStored-events r t e (issued, count, there, (consistent, x, stored)) =
      let (consistent', x') = emit-Kept (suc n + length msg.items) s t (consistent, x) e in
      (
        issued,
        count,
        there,
        (
          consistent',
          x',
          ItemsStored-kept ctx msg (suc n) msg.items t (record t { events = e }) (λ i d g. g)
              stored,
        ),
      )

  batch_submit-BatchStored :
      IsConsistent n s
      → suc n + length msg.items < 2 ^ 64
      → Ends BatchStored (Progress n (suc n + length msg.items) s) (batch_submit ctx msg s)
  unfolding batch_submit
  batch_submit-BatchStored h l =
      let p = EnergyKeeper.get_params s in
      let m = suc n + length msg.items in
      let same : Progress n m s s = (n, omega arith, omega arith, h, Extends-refl s) in
      elim (Bool-cases (EnergyKeeper.is_allowed_submitter s msg.submitter)) [
        | inr refused ↦ rw refused same
        | inl allowed ↦ elim (Bool-cases (ltb p.max_batch_size (length msg.items % 2 ^ 32))) [
          | inl long ↦ rw (allowed, long) same
          | inr short ↦
              elim (Bool-cases
                (ltb 0 p.max_metadata_size && any_exceeds msg.items p.max_metadata_size)) [
                  | inl large ↦ rw (allowed, short, large) same
                  | inr fits ↦
                      rw (allowed, short, fits)
                        (Ends-bind (λ _. Kept n s) (Kept n s) BatchStored (Progress n m s) _ _
                          (check_and_incr_submit_count-Kept n s h msg.submitter)
                          (Progress-of_Kept n s n m n (omega arith) (omega arith))
                          (λ _ t kept.
                            Ends-bind (λ _. Kept n s) (Kept n s) BatchStored (Progress n m s) _ _
                              (Ends-of_store (Kept n s)
                                (verify_merkle_root msg.items msg.merkle_root, t) kept)
                              (Progress-of_Kept n s n m n (omega arith) (omega arith))
                              (λ _ t kept.
                                Ends-bind (Issued n t) (Kept n t) BatchStored (Progress n m s) _ _
                                  (generate_id-Issued n t kept.0 (omega arith))
                                  (λ u v.
                                    Progress-of_Kept n s n m n (omega arith) (omega arith) u
                                      (Kept-since n s t kept.1 u v))
                                  (λ id u i.
                                    Ends-bind (λ _. AllStored ctx msg (suc n) msg.items u)
                                      (Progress (suc n) m u) BatchStored (Progress n m s) _ _
                                      (submit_items-AllStored ctx msg msg.items (suc n) u
                                        i.consistent l)
                                      (λ v.
                                        Progress-since ctx msg n (suc n) m m s u v
                                          (Extends-trans kept.1 i.extends) (omega arith)
                                          (omega arith))
                                      (λ _ v w.
                                        Ends-bind (λ _. BatchStored (id, length msg.items % 2 ^ 32))
                                          (Progress n m s) BatchStored (Progress n m s) _ _
                                          (store_batch u v id (omega arith) h i.issued
                                            (Extends-trans kept.1 i.extends) w)
                                          (λ _ r. r)
                                          (λ _ z w.
                                            BatchStored-events (id, length msg.items % 2 ^ 32) z _
                                              w))))))
                ]
        ]
      ]

  -- From a consistent store with enough identifiers left, a batch ends, whether it succeeds or not,
  -- in a consistent store that has every record, batch and index entry that was stored, and the
  -- parameters, unchanged, its sequence further by at most one for the batch and one for each item.
  pub batch_submit-consistent :
      IsConsistent n s
      → suc n + length msg.items < 2 ^ 64
      → Progress n (suc n + length msg.items) s (batch_submit ctx msg s).1
  batch_submit-consistent h l =
      let m = suc n + length msg.items in
      let P = Progress n m s in
      Ends-store P (batch_submit ctx msg s) (
        Ends-weaken BatchStored (λ _. P) P P _
          (λ id u v. (m, omega arith, omega arith, v.3.0, v.3.1)) (λ u v. v)
          (batch_submit-BatchStored h l))

  -- From a consistent store with enough identifiers left, a batch that succeeds returns the next
  -- identifier, under which the batch stands, and every item stands under the identifiers after it,
  -- in order.
  pub batch_submit-stored :
      (id : Bytes) (count : ℕ)
      → IsConsistent n s
      → suc n + length msg.items < 2 ^ 64
      → (batch_submit ctx msg s).0 ≡ ok (id, count)
      → (id ≡ energy_id (suc n))
        × (count ≡ length msg.items % 2 ^ 32)
        × (k.batches.get (batch_submit ctx msg s).1.batches id ≡ found (batch_of ctx msg id))
        × ItemsStored ctx msg (suc n) msg.items (batch_submit ctx msg s).1
  batch_submit-stored id count h l e =
      let v =
        Ends-ok BatchStored (Progress n (suc n + length msg.items) s) (batch_submit ctx msg s)
          (id, count) e (batch_submit-BatchStored h l) in
      (v.0, v.1, v.2, v.3.2)
