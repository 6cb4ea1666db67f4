-- ===== src/Mempool/Closing.antt =====
-- The wait of `Close` in chain/mempool_broadcast.go, `b.wg.Wait()`: the goroutine `loop` and anyone
-- else may act until the goroutine has returned.
use energychain_node.Prelude.{◌≡◌, refl, sym, ap, ◌∙◌, true, some, inl, inr, List, Bool-cases}
use energychain_node.Outcome.{ok, ok-injective}
use energychain_node.Mempool.Broadcast.{
  Broadcaster, Wire, not_ready, set_client_ctx, close_done, Loop, idle, waiting, stopped, System,
  done_with,
}
use energychain_node.Mempool.Enqueue.{enqueue-admitted}
use energychain_node.Mempool.Fifo.{Step, enqueued, client_set, closed, acted, returned, gave_up}
use energychain_node.Mempool.Shutdown.{Act-closed}

module _ {Tx Client : Type 0} (w : Wire Tx Client) where
  -- The steps of anyone, one after another.
  pub data Steps (s : System Tx Client) : System Tx Client → Type 0 where
    here : Steps s s
    further : {t u : System Tx Client} {more : List Tx} → Steps s t → Step w t more u → Steps s u

  pub close_done-closed : (b b' : Broadcaster Tx Client) → close_done b ≡ ok b' → b'.closed ≡ true
  unfolding close_done
  close_done-closed b b' done = elim (Bool-cases b.closed) [
    | inl twice ↦ absurd (cc (rw (close_done, twice) at done))
    | inr first ↦ ap (λ x. x.closed) (sym (ok-injective (rw (close_done, first) at done)))
  ]

  Step-closed :
      {s s' : System Tx Client} {more : List Tx}
      → Step w s more s'
      → s.broadcaster.closed ≡ true
      → s'.broadcaster.closed ≡ true
  unfolding set_client_ctx
  Step-closed (enqueued {s} txs) c = ap (λ r. r.1.closed) (enqueue-admitted txs s.broadcaster) ∙ c
  Step-closed (client_set client) c = c
  Step-closed (closed {s} {b} done) c = close_done-closed s.broadcaster b done
  Step-closed (acted a) c = Act-closed w a c

  pub Steps-closed :
      {s t : System Tx Client}
      → Steps s t
      → s.broadcaster.closed ≡ true
      → t.broadcaster.closed ≡ true
  Steps-closed here c = c
  Steps-closed (further p st) c = Step-closed st (Steps-closed p c)

  -- Once `done` is closed, the goroutine can return from wherever it stands.
  can_return :
      (t : System Tx Client) (l : Loop Tx)
      → t.loop ≡ l
      → t.broadcaster.closed ≡ true
      → (u : System Tx Client) × Steps t u × (u.loop ≡ stopped)
  can_return t stopped e c = (t, here, e)
  can_return t idle e c = (record t { loop = stopped }, further here (acted (returned e c)), refl)
  can_return t (waiting tx) e c =
      let t1 = done_with w tx (some not_ready) t in
      (
        record t1 { loop = stopped },
        further (further here (acted (gave_up e c))) (acted (returned refl c)),
        refl,
      )

  -- Whatever happens after `done` was closed, the goroutine can then return.
  pub Steps-ends :
      (s t : System Tx Client)
      → s.broadcaster.closed ≡ true
      → Steps s t
      → (u : System Tx Client) × Steps t u × (u.loop ≡ stopped)
  Steps-ends s t c p = can_return t t.loop refl (Steps-closed p c)
