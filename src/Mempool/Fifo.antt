-- ===== src/Mempool/Fifo.antt =====
-- The broadcaster of chain/mempool_broadcast.go in its environment: every interleaving of `Enqueue`,
-- `SetClientCtx`, `Close` and the goroutine `loop` is a sequence of steps.
use energychain_node.Prelude.{
  Bool-cases, inl, inr, refl, sym, subst, ap, ◌∙◌, ◌≡◌, ◌≤◌, suc, true, Option, none, some, List,
  [], ◌∷◌, ◌++◌, map, length, length-take, arith, length-append,
}
use energychain_node.Outcome.{ok, ok-injective}
use energychain_node.Mempool.Broadcast.{
  Broadcaster, queue_size, Wire, BroadcastError, not_ready, enqueue, set_client_ctx, close_done,
  get_client_ctx, send, Loop, idle, waiting, stopped, System, start, done_with, take_next,
  take_from, tick, resume, new_broadcaster,
}
use energychain_node.Mempool.Enqueue.{
  append_assoc, append_nil, present, room, admitted, enqueue-admitted,
}

module _ {Tx : Type 0} where
  abbrev pub in_flight : Loop Tx → List Tx
  in_flight idle = []
  in_flight (waiting tx) = tx ∷ []
  in_flight stopped = []

module _ {Tx Client : Type 0} where
  -- The abstract queue: what was added, in order, of which a first part is done with.
  abbrev pub contents : System Tx Client → List Tx
  contents s = map (λ h. h.0) s.handled ++ (in_flight s.loop ++ s.broadcaster.queue)

  abbrev pub IsBounded : System Tx Client → Type 0
  IsBounded s = length s.broadcaster.queue ≤ queue_size

module _ {Tx Client : Type 0} where
  close-queue : (b b' : Broadcaster Tx Client) → close_done b ≡ ok b' → b'.queue ≡ b.queue
  unfolding close_done
  close-queue b b' done = elim (Bool-cases b.closed) [
    | inl twice ↦ absurd (cc (rw (close_done, twice) at done))
    | inr first ↦ ap (λ x. x.queue) (sym (ok-injective (rw (close_done, first) at done)))
  ]

module _ {Tx Client : Type 0} (w : Wire Tx Client) where
  -- A step of the goroutine.
  pub data Act : System Tx Client → System Tx Client → Type 0 where
    taken :
        {s : System Tx Client} {tx : Tx} {rest : List Tx}
        → s.loop ≡ idle
        → s.broadcaster.queue ≡ tx ∷ rest
        → Act s (take_next w s)
    returned :
        {s : System Tx Client}
        → s.loop ≡ idle
        → s.broadcaster.closed ≡ true
        → Act s (record s { loop = stopped })
    ticked : {s : System Tx Client} {tx : Tx} → s.loop ≡ waiting tx → Act s (tick w tx s)
    gave_up :
        {s : System Tx Client} {tx : Tx}
        → s.loop ≡ waiting tx
        → s.broadcaster.closed ≡ true
        → Act s (done_with w tx (some not_ready) s)
    timed_out :
        {s : System Tx Client} {tx : Tx}
        → s.loop ≡ waiting tx
        → Act s (done_with w tx (some not_ready) s)

  -- A step of anyone, with the transactions that it adds to the queue.
  pub data Step : System Tx Client → List Tx → System Tx Client → Type 0 where
    enqueued :
        {s : System Tx Client} (txs : List (Option Tx))
        → Step s
            (admitted txs s.broadcaster)
            (record s { broadcaster = (enqueue txs s.broadcaster).1 })
    client_set :
        {s : System Tx Client} (client : Client)
        → Step s [] (record s { broadcaster = set_client_ctx client s.broadcaster })
    closed :
        {s : System Tx Client} {b : Broadcaster Tx Client}
        → close_done s.broadcaster ≡ ok b
        → Step s [] (record s { broadcaster = b })
    acted : {s s' : System Tx Client} → Act s s' → Step s [] s'

  -- The runs from a new broadcaster, with all that has been added to the queue, in order.
  pub data Run (zero_client : Client) : List Tx → System Tx Client → Type 0 where
    begin : Run zero_client [] (start w zero_client)
    after :
        {txs more : List Tx} {s s' : System Tx Client}
        → Run zero_client txs s
        → Step s more s'
        → Run zero_client (txs ++ more) s'

  -- One more transaction that is done with.
  map-handled :
      (h : List (Tx × Option BroadcastError)) (tx : Tx) (e : Option BroadcastError) (q : List Tx)
      → map (λ h. h.0) (h ++ ((tx, e) ∷ [])) ++ q ≡ map (λ h. h.0) h ++ (tx ∷ q)
  map-handled [] tx e q = refl
  map-handled (x ∷ h) tx e q = ap (λ l. x.0 ∷ l) (map-handled h tx e q)

  resume-contents :
      (tx : Tx) (c : Option Client) (s : System Tx Client)
      → contents (resume w tx c s) ≡ map (λ h. h.0) s.handled ++ (tx ∷ s.broadcaster.queue)
  unfolding resume
  resume-contents tx none s = refl
  resume-contents tx (some client) s =
      map-handled s.handled tx (send w client tx) s.broadcaster.queue

  Act-contents : {s s' : System Tx Client} → Act s s' → contents s' ≡ contents s
  unfolding take_from
  Act-contents (taken {s} {tx} {rest} i q) =
      let b1 = record s.broadcaster { queue = rest } in
      ap (λ l. contents (take_from w l s)) q
      ∙ resume-contents tx (get_client_ctx s.broadcaster) (record s { broadcaster = b1 })
      ∙ rw (i, q) refl
  Act-contents (returned i c) = rw i refl
  Act-contents (ticked {s} {tx} i) = resume-contents tx (get_client_ctx s.broadcaster) s ∙ rw i refl
  Act-contents (gave_up {s} {tx} i c) =
      rw i (map-handled s.handled tx (some not_ready) s.broadcaster.queue)
  Act-contents (timed_out {s} {tx} i) =
      rw i (map-handled s.handled tx (some not_ready) s.broadcaster.queue)

  Step-contents :
      {s s' : System Tx Client} {more : List Tx} → Step s more s' → contents s' ≡ contents s ++ more
  unfolding set_client_ctx
  Step-contents (enqueued {s} txs) =
      let q = s.broadcaster.queue in
      let more = admitted txs s.broadcaster in
      rw (enqueue-admitted txs s.broadcaster) (
        ap (λ l. map (λ h. h.0) s.handled ++ l) (sym (append_assoc (in_flight s.loop) q more))
        ∙ sym (append_assoc (map (λ h. h.0) s.handled) (in_flight s.loop ++ q) more))
  Step-contents (client_set {s} client) = sym (append_nil (contents s))
  Step-contents (closed {s} {b} done) =
      ap (λ q. map (λ h. h.0) s.handled ++ (in_flight s.loop ++ q))
        (close-queue s.broadcaster b done)
      ∙ sym (append_nil (contents s))
  Step-contents (acted {s} a) = Act-contents a ∙ sym (append_nil (contents s))

  pub resume-queue :
      (tx : Tx) (c : Option Client) (s : System Tx Client)
      → (resume w tx c s).broadcaster ≡ s.broadcaster
  unfolding resume
  resume-queue tx none s = refl
  resume-queue tx (some client) s = refl

  Act-IsBounded : {s s' : System Tx Client} → Act s s' → IsBounded s → IsBounded s'
  unfolding take_from
  Act-IsBounded (taken {s} {tx} {rest} i q) h =
      let b1 = record s.broadcaster { queue = rest } in
      let l : length s.broadcaster.queue ≡ suc (length rest) = ap length q in
      let e : (take_next w s).broadcaster ≡ b1 =
        ap (λ l. (take_from w l s).broadcaster) q
        ∙ resume-queue tx (get_client_ctx s.broadcaster) (record s { broadcaster = b1 }) in
      subst (λ b. length b.queue ≤ queue_size) (sym e) (omega arith)
  Act-IsBounded (returned i c) h = h
  Act-IsBounded (ticked {s} {tx} i) h =
      subst (λ b. length b.queue ≤ queue_size)
        (sym (resume-queue tx (get_client_ctx s.broadcaster) s)) h
  Act-IsBounded (gave_up i c) h = h
  Act-IsBounded (timed_out i) h = h

  Step-IsBounded :
      {s s' : System Tx Client} {more : List Tx} → Step s more s' → IsBounded s → IsBounded s'
  unfolding set_client_ctx
  Step-IsBounded (enqueued {s} txs) h =
      let b = s.broadcaster in
      rw (enqueue-admitted txs b)
        (omega (arith, length-append b.queue (admitted txs b), length-take (room b) (present txs)))
  Step-IsBounded (client_set client) h = h
  Step-IsBounded (closed {s} {b} done) h =
      subst (λ q. length q ≤ queue_size) (sym (close-queue s.broadcaster b done)) h
  Step-IsBounded (acted a) h = Act-IsBounded a h

  -- In every interleaving the broadcaster is a queue of at most 10000: what it is done with, then
  -- what it is at, then what it has still to do, is what was added, in the order in which it was
  -- added, with nothing lost, repeated or overtaken.
  pub Run-Fifo :
      (zero_client : Client) (txs : List Tx) (s : System Tx Client)
      → Run zero_client txs s
      → (contents s ≡ txs) × (length s.broadcaster.queue ≤ queue_size)
  unfolding new_broadcaster
  Run-Fifo z _ _ begin = (refl, omega arith)
  Run-Fifo z _ _ (after {txs} {more} {s} {s'} r st) =
      let (same, bounded) = Run-Fifo z txs s r in
      (Step-contents st ∙ ap (λ l. l ++ more) same, Step-IsBounded st bounded)
