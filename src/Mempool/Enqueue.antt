-- ===== src/Mempool/Enqueue.antt =====
-- What `Enqueue` of chain/mempool_broadcast.go adds to the queue.
use energychain_node.Prelude.{
  refl, sym, ap, ◌≡◌, ◌≤◌, ◌<◌, ℕ, suc, ◌-◌, true, false, take-nil, Option, none, some, List, [],
  ◌∷◌, ◌++◌, length, take, arith, length-append, inl, inr, Bool-cases, ltb, if◌then◌else◌,
}
use energychain_node.Mempool.Broadcast.{queue_size, Broadcaster, queue_full, enqueue}

module _ {A : Type 0} where
  pub append_assoc : (xs ys zs : List A) → (xs ++ ys) ++ zs ≡ xs ++ (ys ++ zs)
  append_assoc [] ys zs = refl
  append_assoc (x ∷ xs) ys zs = ap (λ l. x ∷ l) (append_assoc xs ys zs)

  pub append_nil : (xs : List A) → xs ++ [] ≡ xs
  append_nil [] = refl
  append_nil (x ∷ xs) = ap (λ l. x ∷ l) (append_nil xs)

  -- The transactions of a slice that are not nil.
  abbrev pub present : List (Option A) → List A
  present [] = []
  present (none ∷ xs) = present xs
  present (some x ∷ xs) = x ∷ present xs

  one_more :
      (n : ℕ) (q : List A) (x : A) (xs : List A)
      → length q < n
      → q ++ take (n - length q) (x ∷ xs) ≡ (q ++ (x ∷ [])) ++ take (n - length (q ++ (x ∷ []))) xs
  one_more n q x xs h =
      let left : n - length q ≡ suc (n - length (q ++ (x ∷ []))) =
        omega (arith, length-append q (x ∷ [])) in
      rw left (sym (append_assoc q (x ∷ []) (take (n - length (q ++ (x ∷ []))) xs)))

  none_more : (n : ℕ) (q xs : List A) → n ≤ length q → q ++ take (n - length q) xs ≡ q
  none_more n q xs h = let left : n - length q ≡ 0 = omega arith in rw left (append_nil q)

module _ {Tx Client : Type 0} where
  abbrev pub room : Broadcaster Tx Client → ℕ
  room b = queue_size - length b.queue

  -- What `Enqueue` adds to the queue.
  abbrev pub admitted : List (Option Tx) → Broadcaster Tx Client → List Tx
  admitted txs b = take (room b) (present txs)

  -- `Enqueue` adds the transactions that are not nil, in order, as far as there is room in the
  -- queue, changes nothing else, and reports a full queue exactly if that leaves some of them out.
  pub enqueue-admitted :
      (txs : List (Option Tx)) (b : Broadcaster Tx Client)
      → enqueue txs b ≡ (
        if ltb (room b) (length (present txs)) then some queue_full else none,
        record b { queue = b.queue ++ admitted txs b },
      )
  unfolding enqueue
  enqueue-admitted [] b =
      let left : ltb (room b) 0 ≡ false = ground arith in
      rw (left, take-nil (room b), append_nil b.queue) refl
  enqueue-admitted (none ∷ txs) b = enqueue-admitted txs b
  enqueue-admitted (some tx ∷ txs) b = elim (Bool-cases (ltb (length b.queue) queue_size)) [
    | inl space ↦
        let b1 = record b { queue = b.queue ++ (tx ∷ []) } in
        let flag : ltb (room b1) (length (present txs))
            ≡ ltb (room b) (suc (length (present txs))) =
          ground (arith, length-append b.queue (tx ∷ [])) in
        let queue = one_more queue_size b.queue tx (present txs) (ground arith) in
        rw (space, sym flag, queue) (enqueue-admitted txs b1)
    | inr full ↦
        let flag : ltb (room b) (suc (length (present txs))) ≡ true = ground arith in
        let queue = none_more queue_size b.queue (tx ∷ present txs) (ground arith) in
        rw (full, flag, queue) refl
  ]
