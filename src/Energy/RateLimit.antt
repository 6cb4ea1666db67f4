-- ===== src/Energy/RateLimit.antt =====
-- The per-block limit on submissions: what each handler does to the counters of the transient store
-- and to the parameters.
pub mod Handlers
pub mod Block
use energychain_node.Prelude.{
  exceeds, ℕ, suc, ◌+◌, ◌%◌, ◌^◌, ◌≤◌, ◌<◌, ◌≡◌, ◌≢◌, ◌⊎◌, refl, sym, ap, ◌∙◌, Bool, true, false,
  not, ◌&&◌, Option, none, some, List, [], ◌∷◌, inl, inr, arith, Bytes, ltb, leb, eqb, length,
  Bool-cases, Option-cases, if◌then◌else◌,
}
use energychain_node.Outcome.{
  Outcome, ok, err, panic, Exec, lift, ◌>>=◌, Ends-store, Ends, Ends-bind, Ends-of_store, continue,
}
use energychain_node.Binary.{put_uint32, uint32, uint32-put_uint32, length-put_uint32}
use energychain_node.Crypto.{Crypto}
use energychain_node.Sdk.Context.{Context}
use energychain_node.Energy.Types.{
  EnergyData, BatchItem, BatchSubmission, MsgSubmitEnergyData, MsgBatchSubmit,
}
use energychain_node.Energy.State.{Keeper, State, Error}
use energychain_node.Energy.Keeper as EnergyKeeper
use energychain_node.Energy.Keeper.{
  stored_count, submit_count_key, submit_count, get_params, check_and_incr_submit_count,
}
use energychain_node.Energy.Merkle.{verify_merkle_root}
use energychain_node.Energy.MsgServer.{
  submitted_data, item_data, batch_of, any_exceeds, submit_energy_data, submit_items, batch_submit,
}

stored_count-put_uint32 : (n : ℕ) → n < 2 ^ 32 → stored_count (some (put_uint32 n)) ≡ n
unfolding stored_count
stored_count-put_uint32 n h = ground (arith, length-put_uint32 n, uint32-put_uint32 n h)

module _ ⦃k : Keeper⦄ where
  -- The parameters and the counters are as before.
  pub record Untouched (s s' : State) : Type 0 where
    pub params : s'.params ≡ s.params
    pub counts : s'.submit_counts ≡ s.submit_counts

  abbrev pub limit : State → ℕ
  limit s = (get_params s).max_submissions_per_block_per_submitter

  -- One more submission of `addr` is counted, and it is within the limit.
  pub record Counted (addr : Bytes) (s s' : State) : Type 0 where
    pub params : s'.params ≡ s.params
    pub one_more : submit_count s' addr ≡ submit_count s addr + 1
    pub within : submit_count s' addr ≤ limit s
    pub others : (a : Bytes) → addr ≢ a → submit_count s' a ≡ submit_count s a

  -- At most one more is counted.
  abbrev pub Tried : Bytes → State → State → Type 0
  Tried addr s s' = Untouched s s' ⊎ Counted addr s s'

  Untouched-trans : (s t u : State) → Untouched s t → Untouched t u → Untouched s u
  Untouched-trans s t u a b = record { params = b.params ∙ a.params; counts = b.counts ∙ a.counts }

  pub Counted-then :
      (addr : Bytes) (s t u : State) → Counted addr s t → Untouched t u → Counted addr s u
  unfolding submit_count
  Counted-then addr s t u c x = record {
    params = x.params ∙ c.params;
    one_more = rw x.counts c.one_more;
    within = rw x.counts c.within;
    others = λ a ne. rw x.counts (c.others a ne);
  }

  key-injective : (a b : Bytes) → submit_count_key a ≡ submit_count_key b → a ≡ b
  key-injective a b h = cc

  count_set :
      (addr : Bytes) (s : State)
      → submit_count s addr < limit s
      → limit s < 2 ^ 32
      → Counted addr s (record s {
        submit_counts =
            k.transient.set s.submit_counts
              (submit_count_key addr)
              (put_uint32 ((submit_count s addr + 1) % 2 ^ 32));
      })
  unfolding submit_count
  count_set addr s room fits =
      let n = (submit_count s addr + 1) % 2 ^ 32 in
      let key = submit_count_key addr in
      let now : stored_count
            (k.transient.get (k.transient.set s.submit_counts key (put_uint32 n)) key)
          ≡ n =
        rw (k.transient.get-set_self s.submit_counts key (put_uint32 n))
          (stored_count-put_uint32 n (omega arith)) in
      record {
        params = refl;
        one_more = omega (arith, now);
        within = omega (arith, now);
        others = λ a ne. rw (
            k.transient.get-set_ne s.submit_counts key (put_uint32 n) (submit_count_key a)
              (λ p. ne (key-injective addr a p)));
      }

  pub check_and_incr_submit_count-Counted :
      (addr : Bytes) (s : State)
      → 0 < limit s
      → limit s < 2 ^ 32
      → Ends (λ _. Counted addr s) (Untouched s) (check_and_incr_submit_count addr s)
  unfolding check_and_incr_submit_count
  check_and_incr_submit_count-Counted addr s pos fits =
      let on : eqb (limit s) 0 ≡ false = ground arith in
      elim (Bool-cases (leb (limit s) (submit_count s addr))) [
        | inl full ↦ rw (on, full) (record { params = refl; counts = refl })
        | inr room ↦ rw (on, room) (count_set addr s (ground arith) fits)
      ]

  pub generate_id-Untouched : (s : State) → Untouched s (EnergyKeeper.generate_id s).1
  unfolding EnergyKeeper.generate_id
  generate_id-Untouched s = ground arith

  pub submit_energy_data-Untouched :
      (d : EnergyData) (s : State) → Untouched s (EnergyKeeper.submit_energy_data d s).1
  unfolding EnergyKeeper.submit_energy_data
  submit_energy_data-Untouched d s = ground arith

  pub submit_batch-Untouched :
      (b : BatchSubmission) (s : State) → Untouched s (EnergyKeeper.submit_batch b s).1
  unfolding EnergyKeeper.submit_batch
  submit_batch-Untouched b s = ground arith

  pub submit_items-Untouched :
      (ctx : Context) (msg : MsgBatchSubmit) (items : List BatchItem) (s : State)
      → Untouched s (submit_items ctx msg items s).1
  unfolding submit_items
  submit_items-Untouched ctx msg [] s = record { params = refl; counts = refl }
  submit_items-Untouched ctx msg (item ∷ items) s = Ends-store (Untouched s) _ (
      Ends-bind (λ _. Untouched s) (Untouched s) (λ _. Untouched s) (Untouched s) _ _
        (Ends-of_store (Untouched s) (EnergyKeeper.generate_id s) (generate_id-Untouched s))
        (λ _ u. u)
        (λ id t u.
          Ends-bind (λ _. Untouched s) (Untouched s) (λ _. Untouched s) (Untouched s) _ _
            (Ends-of_store (Untouched s)
              (EnergyKeeper.submit_energy_data (item_data ctx msg item id) t)
              (Untouched-trans s t _ u
                (submit_energy_data-Untouched (item_data ctx msg item id) t)))
            (λ _ v. v)
            (λ _ v w.
              Ends-of_store (Untouched s) (submit_items ctx msg items v)
                (Untouched-trans s v _ w (submit_items-Untouched ctx msg items v)))))
