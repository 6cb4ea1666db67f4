-- ===== src/Oracle/Queries/Window.antt =====
-- The answers of `DataHistory` of chain/x/oracle/keeper/query_server.go.
use energychain_node.Prelude.{
  ℕ, ◌≡◌, refl, sym, ap, ◌∙◌, some, List, [], Bytes, In, true, false, Bool-cases, inl, inr, ◌==◌,
  list_eq, ℕ_eq, arith,
}
use energychain_node.Prelude.Int.{ℤ, pos, ◌≤ℤ◌, ltb_ℤ}
use energychain_node.Outcome.{ok}
use energychain_node.Sdk.Store.{found}
use energychain_node.Sdk.Paging.{answer, Paging, answer-In}
use energychain_node.Oracle.Types.{OracleData}
use energychain_node.Oracle.State.{Keeper, State}
use energychain_node.Oracle.Queries.{
  DataHistoryRequest, upper_time, in_window, paginating_failed, data_history,
}

ltb→≤ℤ : (a b : ℤ) → ltb_ℤ a b ≡ false → b ≤ℤ a
ltb→≤ℤ a b h = ground arith

in_window-bounds :
    (from to : ℤ) (key : Bytes × ℕ) (d : OracleData)
    → in_window from to key d ≡ true
    → (from ≤ℤ d.timestamp) × (d.timestamp ≤ℤ to)
in_window-bounds from to key d h = ground arith

module _ ⦃k : Keeper⦄ where
  within_history :
      (s : State) (paging : Paging k.history Bytes)
      → ((e : Bytes × ℕ) → paging.prefix_of e ≡ e.0)
      → (req : DataHistoryRequest) (page : paging.Request) (ds : List OracleData)
        (next : paging.Response)
      → answer k.history paging paginating_failed
          (λ e. e.1)
          (paging.visit s.history
            (some req.category)
            page
            (in_window req.from_time (upper_time req.to_time)))
        ≡ ok (ds, next)
      → (d : OracleData) → In d ds
      → (t : ℕ) × (k.history.get s.history (req.category, t) ≡ found d)
        × (req.from_time ≤ℤ d.timestamp)
        × (d.timestamp ≤ℤ upper_time req.to_time)
  within_history s paging prefixes req page ds next done d m =
      let keep = in_window req.from_time (upper_time req.to_time) in
      let ((c, t), v, e, there, kept, pre) =
        answer-In k.history paging s.history (some req.category) page keep paginating_failed
          (λ e. e.1) ds next d done m in
      let same : c ≡ req.category = sym (prefixes (c, t)) ∙ pre req.category refl in
      let (lo, hi) = in_window-bounds req.from_time (upper_time req.to_time) (c, t) v kept in
      rw e (t, ap (λ x. k.history.get s.history (x, t)) (sym same) ∙ there, lo, hi)

  -- A history query that succeeds has a range that is not empty and does not begin below 0, and it
  -- answers with datapoints that the history holds under the category, with times in the range.
  pub data_history-within :
      (s : State) (paging : Paging k.history Bytes)
      → ((e : Bytes × ℕ) → paging.prefix_of e ≡ e.0)
      → (req : DataHistoryRequest) (page : paging.Request) (ds : List OracleData)
        (next : paging.Response)
      → data_history paging s req page ≡ ok (ds, next)
      → (pos 0 ≤ℤ req.from_time)
        × (req.from_time ≤ℤ upper_time req.to_time)
        × ((d : OracleData)
            → In d ds
            → (t : ℕ) × (k.history.get s.history (req.category, t) ≡ found d)
              × (req.from_time ≤ℤ d.timestamp)
              × (d.timestamp ≤ℤ upper_time req.to_time))
  unfolding data_history
  data_history-within s paging prefixes req page ds next done =
      elim (Bool-cases (req.category == [])) [
        | inl bad ↦ absurd (cc (rw (data_history, bad) at done))
        | inr named ↦ elim (Bool-cases (ltb_ℤ req.from_time (pos 0))) [
          | inl bad ↦ absurd (cc (rw (data_history, named, bad) at done))
          | inr from ↦ elim (Bool-cases (ltb_ℤ (upper_time req.to_time) req.from_time)) [
            | inl bad ↦ absurd (cc (rw (data_history, named, from, bad) at done))
            | inr range ↦ (
              ltb→≤ℤ req.from_time (pos 0) from,
              ltb→≤ℤ (upper_time req.to_time) req.from_time range,
              λ d m.
                  within_history s paging prefixes req page ds next
                    (rw (data_history, named, from, range) at done) d m,
            )
          ]
        ]
      ]
