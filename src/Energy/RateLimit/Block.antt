-- ===== src/Energy/RateLimit/Block.antt =====
-- A block as a sequence of messages. The application runs one handler after another; what a failed
-- handler wrote may stay or be discarded, which is the business of the SDK's `BaseApp`.
use energychain_node.Prelude.{
  ℕ, suc, ◌+◌, ◌^◌, ◌≤◌, ◌<◌, ◌≡◌, ◌≢◌, sym, subst, ap, List, All, [], ◌∷◌, inl, inr, arith, Bytes,
  ◌==◌, list_eq, ℕ_eq, eq-cases, eq_iff, if◌then◌else◌,
}
use energychain_node.Outcome.{Outcome, ok, Ends, Ends-ok, Ends-weaken, Ends-store}
use energychain_node.Crypto.{Crypto}
use energychain_node.Sdk.Context.{Context}
use energychain_node.Energy.Types.{MsgSubmitEnergyData, MsgBatchSubmit, MsgUpdateParams}
use energychain_node.Energy.State.{Keeper, State, Error}
use energychain_node.Energy.Keeper.{stored_count, submit_count_key, submit_count, get_params}
use energychain_node.Energy.MsgServer.{submit_energy_data, batch_submit, update_params}
use energychain_node.Energy.Governance.{Replaced, update_params-cases}
use energychain_node.Energy.RateLimit.{limit, Counted, Tried}
use energychain_node.Energy.RateLimit.Handlers.{submit_energy_data-Counted, batch_submit-Counted}

-- How often an address stands in a list.
abbrev pub times : Bytes → List Bytes → ℕ
times a [] = 0
times a (x ∷ xs) = let rest = times a xs in if x == a then suc rest else rest

-- A limit that limits, and that `bound` is not below.
abbrev pub IsLimitUpTo : ℕ → ℕ → Type 0
IsLimitUpTo bound m = (0 < m) × (m ≤ bound)

module _ ⦃k : Keeper⦄ ⦃c : Crypto⦄ (ctx : Context) where
  -- From the first store, a block that accepts submissions of the listed addresses, and changes of
  -- the parameters that set the listed limits, ends at the last store.
  pub data Block : State → List Bytes → List ℕ → State → Type 0 where
    done : (s : State) → Block s [] [] s
    submitted :
        (s : State) (msg : MsgSubmitEnergyData) (id : Bytes) (l : List Bytes) (ms : List ℕ)
        (t : State)
        → (submit_energy_data ctx msg s).0 ≡ ok id
        → Block (submit_energy_data ctx msg s).1 l ms t
        → Block s (msg.submitter ∷ l) ms t
    batched :
        (s : State) (msg : MsgBatchSubmit) (r : Bytes × ℕ) (l : List Bytes) (ms : List ℕ)
        (t : State)
        → (batch_submit ctx msg s).0 ≡ ok r
        → Block (batch_submit ctx msg s).1 l ms t
        → Block s (msg.submitter ∷ l) ms t
    updated :
        (s : State) (msg : MsgUpdateParams) (l : List Bytes) (ms : List ℕ) (t : State)
        → (update_params msg s).0 ≡ ok tt
        → Block (update_params msg s).1 l ms t
        → Block s l (msg.params.max_submissions_per_block_per_submitter ∷ ms) t
    submit_left :
        (s : State) (msg : MsgSubmitEnergyData) (l : List Bytes) (ms : List ℕ) (t : State)
        → Block (submit_energy_data ctx msg s).1 l ms t
        → Block s l ms t
    batch_left :
        (s : State) (msg : MsgBatchSubmit) (l : List Bytes) (ms : List ℕ) (t : State)
        → Block (batch_submit ctx msg s).1 l ms t
        → Block s l ms t
    update_left :
        (s : State) (msg : MsgUpdateParams) (l : List Bytes) (ms : List ℕ) (t : State)
        → (update_params msg s).0 ≢ ok tt
        → Block (update_params msg s).1 l ms t
        → Block s l ms t

  module _ (a : Bytes) (bound : ℕ) where
    -- `spent` submissions of `a` are counted, and the counter is within the bound.
    record Within (spent : ℕ) (s : State) : Type 0 where
      limited : IsLimitUpTo bound (limit s)
      counted : spent ≤ submit_count s a
      room : submit_count s a ≤ bound

    limit_same :
        (s s' : State)
        → s'.params ≡ s.params
        → IsLimitUpTo bound (limit s)
        → IsLimitUpTo bound (limit s')
    unfolding get_params
    limit_same s s' e h = rw e h

    Within-Counted :
        (n : ℕ) (addr : Bytes) (s s' : State)
        → Within n s
        → Counted addr s s'
        → Within (if addr == a then suc n else n) s'
    Within-Counted n addr s s' w x = elim (eq-cases addr a) [
      | inl same ↦
          let now = ap (submit_count s') same in
          let before = ap (submit_count s) same in
          rw ((eq_iff addr a).1 same) (record {
            limited = limit_same s s' x.params w.limited;
            counted = omega (arith, w.counted, x.one_more, now, before);
            room = omega (arith, w.limited, x.within, now);
          })
      | inr (other, ne) ↦ rw other (record {
        limited = limit_same s s' x.params w.limited;
        counted = omega (arith, w.counted, x.others a ne);
        room = omega (arith, w.room, x.others a ne);
      })
    ]

    Within-le : (m n : ℕ) (s : State) → m ≤ n → Within n s → Within m s
    Within-le m n s l w = record {
      limited = w.limited;
      counted = omega (arith, w.counted);
      room = w.room;
    }

    Within-Tried :
        (n : ℕ) (addr : Bytes) (s s' : State) → Within n s → Tried addr s s' → Within n s'
    Within-Tried n addr s s' w (inl x) = record {
      limited = limit_same s s' x.params w.limited;
      counted = unfold submit_count in rw x.counts (unfold submit_count in w.counted);
      room = unfold submit_count in rw x.counts (unfold submit_count in w.room);
    }
    Within-Tried n addr s s' w (inr x) =
        Within-le n (if addr == a then suc n else n) s' (ground arith)
          (Within-Counted n addr s s' w x)

    -- A handler's result, kept whether it succeeded or not.
    Tried-any :
        {A : Type 0} (addr : Bytes) (s : State) (r : Outcome Error A × State)
        → Ends (λ _. Counted addr s) (Tried addr s) r
        → Tried addr s r.1
    Tried-any addr s r h = Ends-store (Tried addr s) r (
        Ends-weaken (λ _. Counted addr s) (λ _. Tried addr s) (Tried addr s) (Tried addr s) r
          (λ _ _ x. inr x) (λ _ x. x) h)

    -- A change of the parameters leaves the counters, and its limit is the one in force.
    Within-Replaced :
        (n : ℕ) (msg : MsgUpdateParams) (s s' : State)
        → IsLimitUpTo bound msg.params.max_submissions_per_block_per_submitter
        → Replaced s msg.params s'
        → Within n s
        → Within n s'
    Within-Replaced n msg s s' h x w = record {
      limited =
          subst (IsLimitUpTo bound)
            (sym (ap (λ p. p.max_submissions_per_block_per_submitter) x.params)) h;
      counted = unfold submit_count in rw x.counts (unfold submit_count in w.counted);
      room = unfold submit_count in rw x.counts (unfold submit_count in w.room);
    }

    Within-updated :
        (n : ℕ) (msg : MsgUpdateParams) (s : State)
        → (update_params msg s).0 ≡ ok tt
        → IsLimitUpTo bound msg.params.max_submissions_per_block_per_submitter
        → Within n s
        → Within n (update_params msg s).1
    Within-updated n msg s accepted h w = elim (update_params-cases s msg) [
      | inl (_, _, _, x) ↦ Within-Replaced n msg s (update_params msg s).1 h x w
      | inr (failed, _) ↦ absurd (failed accepted)
    ]

    Within-refused :
        (n : ℕ) (msg : MsgUpdateParams) (s : State)
        → (update_params msg s).0 ≢ ok tt
        → Within n s
        → Within n (update_params msg s).1
    Within-refused n msg s failed w = elim (update_params-cases s msg) [
      | inl (accepted, _, _, _) ↦ absurd (failed accepted)
      | inr (_, same) ↦ subst (Within n) (sym same) w
    ]

    Block-Within :
        (n : ℕ) (s : State) (l : List Bytes) (ms : List ℕ) (t : State)
        → bound < 2 ^ 32
        → All (IsLimitUpTo bound) ms
        → Block s l ms t
        → Within n s
        → Within (n + times a l) t
    Block-Within n s l ms t fits hs (done _) w = Within-le _ n s (omega arith) w
    Block-Within n s l ms t fits hs (submitted _ msg id l' _ _ accepted rest) w =
        let x =
          Ends-ok (λ _. Counted msg.submitter s) (Tried msg.submitter s)
            (submit_energy_data ctx msg s) id accepted
            (submit_energy_data-Counted ctx s msg w.limited.0 (omega (arith, w.limited))) in
        Within-le _ _ t (ground arith) (
          Block-Within (if msg.submitter == a then suc n else n) _ l' ms t fits hs rest
            (Within-Counted n msg.submitter s _ w x))
    Block-Within n s l ms t fits hs (batched _ msg r l' _ _ accepted rest) w =
        let x =
          Ends-ok (λ _. Counted msg.submitter s) (Tried msg.submitter s) (batch_submit ctx msg s) r
            accepted (batch_submit-Counted ctx s msg w.limited.0 (omega (arith, w.limited))) in
        Within-le _ _ t (ground arith) (
          Block-Within (if msg.submitter == a then suc n else n) _ l' ms t fits hs rest
            (Within-Counted n msg.submitter s _ w x))
    Block-Within n s l ms t fits hs (updated _ msg _ ms' _ accepted rest) w =
        Block-Within n _ l ms' t fits hs.1 rest (Within-updated n msg s accepted hs.0 w)
    Block-Within n s l ms t fits hs (submit_left _ msg _ _ _ rest) w =
        Block-Within n _ l ms t fits hs rest (
          Within-Tried n msg.submitter s _ w (
            Tried-any msg.submitter s (submit_energy_data ctx msg s)
              (submit_energy_data-Counted ctx s msg w.limited.0 (omega (arith, w.limited)))))
    Block-Within n s l ms t fits hs (batch_left _ msg _ _ _ rest) w =
        Block-Within n _ l ms t fits hs rest (
          Within-Tried n msg.submitter s _ w (
            Tried-any msg.submitter s (batch_submit ctx msg s)
              (batch_submit-Counted ctx s msg w.limited.0 (omega (arith, w.limited)))))
    Block-Within n s l ms t fits hs (update_left _ msg _ _ _ failed rest) w =
        Block-Within n _ l ms t fits hs rest (Within-refused n msg s failed w)

  -- In a block that begins with wiped counters, no address has more accepted submissions, batches
  -- counting as one, than a bound that fits in 32 bits, if the limit at the start and each limit
  -- that an accepted change of the parameters sets on the way is not zero and at most that bound,
  -- whatever fails in between. Without such a change, the bound can be the limit itself.
  pub accepted-le-limit :
      (a : Bytes) (bound : ℕ) (s t : State) (l : List Bytes) (ms : List ℕ)
      → bound < 2 ^ 32
      → IsLimitUpTo bound (limit s)
      → All (IsLimitUpTo bound) ms
      → s.submit_counts ≡ k.transient.wiped
      → Block s l ms t
      → times a l ≤ bound
  unfolding submit_count stored_count
  accepted-le-limit a bound s t l ms fits first hs fresh b =
      let zero_count : submit_count s a ≡ 0 =
        rw (fresh, k.transient.get-wiped (submit_count_key a)) in
      let start : Within a bound 0 s = record {
        limited = first;
        counted = omega arith;
        room = omega (arith, zero_count);
      } in
      let w = Block-Within a bound 0 s l ms t fits hs b start in omega (arith, w.counted, w.room)
