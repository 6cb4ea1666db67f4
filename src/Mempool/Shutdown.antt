-- ===== src/Mempool/Shutdown.antt =====
-- `Close` of chain/mempool_broadcast.go: once `done` is closed, the goroutine `loop`, for which
-- `Close` waits, comes to its return.
use energychain_node.Prelude.{
  refl, sym, ap, ◌∙◌, ◌≡◌, ◌≢◌, ◌≤◌, ◌<◌, ℕ, suc, ◌+◌, ◌*◌, true, Option, none, some, length, arith,
  ◌⊎◌, inl, inr, subst,
}
use energychain_node.Mempool.Broadcast.{
  Wire, not_ready, get_client_ctx, Loop, idle, waiting, stopped, System, done_with, take_next,
  take_from, resume,
}
use energychain_node.Mempool.Fifo.{Act, taken, returned, ticked, gave_up, timed_out, resume-queue}

module _ {Tx : Type 0} where
  abbrev pub rank : Loop Tx → ℕ
  rank stopped = 0
  rank idle = 1
  rank (waiting tx) = 2

  rank_le : (l : Loop Tx) → rank l ≤ 2
  rank_le idle = omega arith
  rank_le (waiting tx) = omega arith
  rank_le stopped = omega arith

module _ {Tx Client : Type 0} where
  -- A bound of the steps that are left.
  abbrev pub work_left : System Tx Client → ℕ
  work_left s = 2 * length s.broadcaster.queue + rank s.loop

module _ {Tx Client : Type 0} (w : Wire Tx Client) where
  -- A number of steps of the goroutine that each change something, as all do but a tick that finds no
  -- client context.
  pub data Turns (s : System Tx Client) : ℕ → System Tx Client → Type 0 where
    here : Turns s 0 s
    further : {n : ℕ} {t u : System Tx Client} → Turns s n t → Act w t u → u ≢ t → Turns s (suc n) u

  -- The tick that finds no client context is the step that changes nothing.
  tick-work_left :
      (tx : Tx) (c : Option Client) (s : System Tx Client)
      → s.loop ≡ waiting tx
      → resume w tx c s ≢ s
      → work_left (resume w tx c s) < work_left s
  unfolding resume
  tick-work_left tx none s i h = absurd (h (rw (sym i) refl))
  tick-work_left tx (some client) s i h = rw i (omega arith)

  Act-work_left : {s s' : System Tx Client} → Act w s s' → s' ≢ s → work_left s' < work_left s
  unfolding take_from
  Act-work_left (taken {s} {tx} {rest} i q) h =
      let b1 = record s.broadcaster { queue = rest } in
      let c = get_client_ctx s.broadcaster in
      let t = resume w tx c (record s { broadcaster = b1 }) in
      let e : take_next w s ≡ t = ap (λ l. take_from w l s) q in
      let l : length s.broadcaster.queue ≡ suc (length rest) = ap length q in
      let m : length t.broadcaster.queue ≡ length rest =
        ap (λ b. length b.queue) (resume-queue w tx c (record s { broadcaster = b1 })) in
      let r = rank_le t.loop in
      let o : rank s.loop ≡ 1 = ap rank i in
      subst (λ u. work_left u < work_left s) (sym e) (omega (arith, l, m, r, o))
  Act-work_left (returned i c) h = rw i (omega arith)
  Act-work_left (ticked {s} {tx} i) h = tick-work_left tx (get_client_ctx s.broadcaster) s i h
  Act-work_left (gave_up i c) h = rw i (omega arith)
  Act-work_left (timed_out i) h = rw i (omega arith)

  pub Act-closed :
      {s s' : System Tx Client}
      → Act w s s'
      → s.broadcaster.closed ≡ true
      → s'.broadcaster.closed ≡ true
  unfolding take_from
  Act-closed (taken {s} {tx} {rest} i q) c =
      let b1 = record s.broadcaster { queue = rest } in
      ap (λ l. (take_from w l s).broadcaster.closed) q
      ∙ ap (λ b. b.closed)
          (resume-queue w tx (get_client_ctx s.broadcaster) (record s { broadcaster = b1 }))
      ∙ c
  Act-closed (returned i c) h = h
  Act-closed (ticked {s} {tx} i) c =
      ap (λ b. b.closed) (resume-queue w tx (get_client_ctx s.broadcaster) s) ∙ c
  Act-closed (gave_up i c) h = h
  Act-closed (timed_out i) h = h

  Turns-closed :
      {s t : System Tx Client} {n : ℕ}
      → Turns s n t
      → s.broadcaster.closed ≡ true
      → t.broadcaster.closed ≡ true
  Turns-closed here c = c
  Turns-closed (further p a _) c = Act-closed a (Turns-closed p c)

  Turns-work_left : {s t : System Tx Client} {n : ℕ} → Turns s n t → n + work_left t ≤ work_left s
  Turns-work_left here = omega arith
  Turns-work_left (further p a h) = omega (arith, Turns-work_left p, Act-work_left a h)

  next-Act :
      (t : System Tx Client) (l : Loop Tx)
      → t.loop ≡ l
      → t.broadcaster.closed ≡ true
      → (t.loop ≡ stopped) ⊎ ((u : System Tx Client) × Act w t u × (work_left u < work_left t))
  next-Act t stopped e c = inl e
  next-Act t idle e c = inr (record t { loop = stopped }, returned e c, rw e (omega arith))
  next-Act t (waiting tx) e c =
      inr (done_with w tx (some not_ready) t, gave_up e c, rw e (omega arith))

  -- Once `done` is closed, and while no one else acts, the goroutine makes at most twice as many
  -- steps that change something as transactions are queued, and two more; and wherever it then
  -- stands, it has returned or can make a step that lessens a bound of the steps left.
  pub close-terminates :
      (s t : System Tx Client) (n : ℕ)
      → s.broadcaster.closed ≡ true
      → Turns s n t
      → (n ≤ 2 * length s.broadcaster.queue + 2)
        × ((t.loop ≡ stopped) ⊎ ((u : System Tx Client) × Act w t u × (work_left u < work_left t)))
  close-terminates s t n c p =
      (omega (arith, Turns-work_left p, rank_le s.loop), next-Act t t.loop refl (Turns-closed p c))
