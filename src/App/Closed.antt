-- ===== src/App/Closed.antt =====
-- What closing the application (chain/app.go) leaves, once and twice.
use energychain_node.Prelude.{
  inl, inr, ◌≡◌, ◌↔◌, refl, sym, ap, ◌∙◌, subst, true, false, Option, none, some, List, [], ◌∷◌,
  Option-cases,
}
use energychain_node.Outcome.{Outcome, ok, panic, ok-injective}
use energychain_node.Mempool.Broadcast.{
  EnqueueError, Broadcaster, Wire, System, stopped, close_done,
}
use energychain_node.Mempool.Closing.{Steps, here, Steps-closed, Steps-ends}
use energychain_node.App.{
  Running, join, pool_closed, after_done, begin_broadcaster, begin_close, finish_close, Awaits,
  no_broadcaster, loop_ended, Closes,
}

join-nil :
    {E : Type 0} (errors : List E) (o : Option E)
    → (join errors o ≡ []) ↔ ((errors ≡ []) × (o ≡ none))
join-nil errors none = (λ p. (p, refl), λ p. p.0)
join-nil [] (some e) = (λ p. cc, λ p. cc)
join-nil (x ∷ errors) (some e) = (λ p. cc, λ p. cc)

opens :
    {Tx Client : Type 0} (b : Broadcaster Tx Client)
    → b.closed ≡ false
    → close_done b ≡ ok (record b { closed = true })
unfolding close_done
opens b e = rw (close_done, e) refl

shuts : {Tx Client : Type 0} (b : Broadcaster Tx Client) → b.closed ≡ true → close_done b ≡ panic
unfolding close_done
shuts b e = simp (e)

module _ {Pool Base Tx Client : Type 0} where
  -- The broadcaster of the app, if it has one, has not been closed.
  abbrev pub IsOpen : Running Pool Base Tx Client → Type 0
  IsOpen a = (s : System Tx Client) → a.broadcaster ≡ some s → s.broadcaster.closed ≡ false

  -- The broadcaster of the app, if it has one, is told to end.
  abbrev IsEnding : Running Pool Base Tx Client → Type 0
  IsEnding a = (s : System Tx Client) → a.broadcaster ≡ some s → s.broadcaster.closed ≡ true

module _ {E Pool Base Tx Client : Type 0} (close_pool : Pool → Option E × Pool)
    (a : Running Pool Base Tx Client) where
  abbrev pool_step : List E × Option Pool
  pool_step = pool_closed close_pool a.experimental_pool

  abbrev after_pool : Running Pool Base Tx Client
  after_pool = record a { experimental_pool = pool_step.1 }

  begin_with :
      (o : Option (System Tx Client))
      → a.broadcaster ≡ o
      → begin_close close_pool a ≡ begin_broadcaster pool_step.0 o after_pool
  unfolding begin_close
  begin_with o e = ap (λ x. begin_broadcaster pool_step.0 x after_pool) e

  begin_at :
      (s : System Tx Client) (r : Outcome EnqueueError (Broadcaster Tx Client))
      → a.broadcaster ≡ some s
      → close_done s.broadcaster ≡ r
      → begin_close close_pool a ≡ after_done pool_step.0 s r after_pool
  begin_at s r e f = begin_with (some s) e ∙ ap (λ r. after_done pool_step.0 s r after_pool) f

  -- What `Close` has done when it comes to its wait.
  record Begun (r : Outcome (List E) (List E) × Running Pool Base Tx Client) : Type 0 where
    result : r.0 ≡ ok pool_step.0
    base : r.1.base ≡ a.base
    pool : r.1.experimental_pool ≡ pool_step.1
    ending : IsEnding r.1
    kept : (a.broadcaster ≡ none) ↔ (r.1.broadcaster ≡ none)

  begin_close-Begun : IsOpen a → Begun (begin_close close_pool a)
  begin_close-Begun opened = elim (Option-cases a.broadcaster) [
    | inl e ↦ subst Begun (sym (begin_with none e)) (record {
      result = refl;
      base = refl;
      pool = refl;
      ending = λ s p. cc (e, p);
      kept = (λ p. p, λ p. e);
    })
    | inr (s, e) ↦ subst Begun (sym (begin_at s _ e (opens s.broadcaster (opened s e)))) (record {
      result = refl;
      base = refl;
      pool = refl;
      ending = λ t p.
          ap
            (λ (o : Option (System Tx Client)). elim o [
              | none ↦ true
              | some t ↦ t.broadcaster.closed
            ])
            (sym p);
      kept = (λ p. cc (p, e), λ p. cc p);
    })
  ]

-- What the wait leaves as it was, and what it brings.
record Waited {Pool Base Tx Client : Type 0} (a a' : Running Pool Base Tx Client) : Type 0 where
  base : a'.base ≡ a.base
  pool : a'.experimental_pool ≡ a.experimental_pool
  ended :
      (t : System Tx Client)
      → a'.broadcaster ≡ some t
      → (t.broadcaster.closed ≡ true) × (t.loop ≡ stopped)
  kept : (a.broadcaster ≡ none) ↔ (a'.broadcaster ≡ none)

module _ {Pool Base Tx Client : Type 0} (w : Wire Tx Client) where
  Awaits-Waited : (a a' : Running Pool Base Tx Client) → IsEnding a → Awaits w a a' → Waited a a'
  Awaits-Waited a a' h (no_broadcaster none_there same) = subst (Waited a) (sym same) (record {
    base = refl;
    pool = refl;
    ended = λ t p. cc (none_there, p);
    kept = (λ p. p, λ p. p);
  })
  Awaits-Waited a a' h (loop_ended s t there p stop same) = subst (Waited a) (sym same) (record {
    base = refl;
    pool = refl;
    ended = λ u q.
        let now : t ≡ u = cc in
        subst (λ u. (u.broadcaster.closed ≡ true) × (u.loop ≡ stopped)) now
          (Steps-closed w p (h s there), stop);
    kept = (λ q. cc (q, there), λ q. cc q);
  })

  can_wait :
      (a : Running Pool Base Tx Client)
      → IsEnding a
      → (a' : Running Pool Base Tx Client) × Awaits w a a'
  can_wait a h = elim (Option-cases a.broadcaster) [
    | inl e ↦ (a, no_broadcaster e refl)
    | inr (s, e) ↦
        let (u, p, stop) = Steps-ends w s s (h s e) here in
        (record a { broadcaster = some u }, loop_ended s u e p stop refl)
  ]

module _ {E Pool Base Tx Client : Type 0} (w : Wire Tx Client) (close_pool : Pool → Option E × Pool)
    (close_base : Base → Option E × Base) (a : Running Pool Base Tx Client) where
  -- The base app and the pool are as closing them leaves them, the broadcaster is closed and its
  -- goroutine has returned, and the errors are those of the pool and of the base app.
  pub record IsShut (errors : List E) (a' : Running Pool Base Tx Client) : Type 0 where
    pub base : a'.base ≡ (close_base a.base).1
    pub pool :
        (p : Pool) → a.experimental_pool ≡ some p → a'.experimental_pool ≡ some (close_pool p).1
    pub no_pool : a.experimental_pool ≡ none → a'.experimental_pool ≡ none
    pub ended :
        (s : System Tx Client)
        → a'.broadcaster ≡ some s
        → (s.broadcaster.closed ≡ true) × (s.loop ≡ stopped)
    pub kept : (a.broadcaster ≡ none) ↔ (a'.broadcaster ≡ none)
    pub silent :
        (errors ≡ [])
        ↔ (((pool_closed close_pool a.experimental_pool).0 ≡ []) × ((close_base a.base).0 ≡ none))

  -- While `Close` waits, whatever has happened, the goroutine can go on to its return.
  abbrev pub CanEnd : Type 0
  CanEnd =
      (s t : System Tx Client)
      → (begin_close close_pool a).1.broadcaster ≡ some s
      → Steps w s t
      → (u : System Tx Client) × Steps w t u × (u.loop ≡ stopped)

  finished :
      (begun : List E) (waited : Running Pool Base Tx Client)
      → Begun close_pool a (begin_close close_pool a)
      → (begin_close close_pool a).0 ≡ ok begun
      → Waited (begin_close close_pool a).1 waited
      → IsShut (finish_close close_base begun waited).0 (finish_close close_base begun waited).1
  unfolding finish_close
  finished begun waited b e x =
      let same : begun ≡ (pool_closed close_pool a.experimental_pool).0 =
        ok-injective (sym e ∙ b.result) in
      let kept_base : waited.base ≡ a.base = x.base ∙ b.base in
      let kept_pool = x.pool ∙ b.pool in
      record {
        base = ap (λ y. (close_base y).1) kept_base;
        pool = λ p there. kept_pool ∙ ap (λ o. (pool_closed close_pool o).1) there;
        no_pool = λ there. kept_pool ∙ ap (λ o. (pool_closed close_pool o).1) there;
        ended = x.ended;
        kept = (λ p. x.kept.0 (b.kept.0 p), λ p. b.kept.1 (x.kept.1 p));
        silent =
            subst
              (λ (r : List E × Option E). (join r.0 r.1 ≡ []) ↔ (
                ((pool_closed close_pool a.experimental_pool).0 ≡ [])
                × ((close_base a.base).0 ≡ none)))
              (λ i. (sym same i, (close_base (sym kept_base i)).0))
              (join-nil (pool_closed close_pool a.experimental_pool).0 (close_base a.base).0);
      }

  Closes-IsShut :
      (errors : List E) (a' : Running Pool Base Tx Client)
      → IsOpen a
      → Closes w close_pool close_base a errors a'
      → IsShut errors a'
  Closes-IsShut errors a' opened c =
      let b = begin_close-Begun close_pool a opened in
      subst (λ (r : List E × Running Pool Base Tx Client). IsShut r.0 r.1) (sym c.finishes)
        (finished c.begun c.waited b c.begins (Awaits-Waited w _ c.waited b.ending c.waits))

  -- On an app whose broadcaster, if it has one, is open, a close can return, and, whatever has
  -- happened while it waits, it still can; and each close that returns leaves the pool and the base
  -- app as closing them does, whatever these answer, the broadcaster closed and its goroutine at its
  -- return, and gives no error exactly if the pool and the base app give none.
  pub close-IsShut :
      IsOpen a
      → ((errors : List E) × (a' : Running Pool Base Tx Client) × Closes w close_pool close_base a
            errors a')
        × CanEnd
        × ((errors : List E) (a' : Running Pool Base Tx Client)
            → Closes w close_pool close_base a errors a'
            → IsShut errors a')
  close-IsShut opened =
      let b = begin_close-Begun close_pool a opened in
      let (waited, waits) = can_wait w (begin_close close_pool a).1 b.ending in
      let out = finish_close close_base (pool_closed close_pool a.experimental_pool).0 waited in
      (
        (
          out.0,
          out.1,
          record {
            begun = (pool_closed close_pool a.experimental_pool).0;
            waited = waited;
            begins = b.result;
            waits = waits;
            finishes = refl;
          },
        ),
        λ s t there p. Steps-ends w s t (b.ending s there) p,
        λ errors a' c. Closes-IsShut errors a' opened c,
      )

  -- A second close, on an app with a broadcaster, panics before it reaches the base app.
  pub close_twice :
      (errors : List E) (a' : Running Pool Base Tx Client) (s : System Tx Client)
      → IsOpen a
      → Closes w close_pool close_base a errors a'
      → a'.broadcaster ≡ some s
      → ((begin_close close_pool a').0 ≡ panic) × ((begin_close close_pool a').1.base ≡ a'.base)
  close_twice errors a' s opened c there =
      let shut = (Closes-IsShut errors a' opened c).ended s there in
      let second = begin_at close_pool a' s panic there (shuts s.broadcaster shut.0) in
      (
        ap (λ (r : Outcome (List E) (List E) × Running Pool Base Tx Client). r.0) second,
        ap (λ (r : Outcome (List E) (List E) × Running Pool Base Tx Client). r.1.base) second,
      )
