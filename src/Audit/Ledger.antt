-- ===== src/Audit/Ledger.antt =====
-- The store of chain/x/audit/keeper is a ledger: a list of logs, to which recordings append, behind
-- three indexes.
pub mod Runs
use energychain_node.Prelude.{
  subst, ℕ, zero, suc, ◌+◌, ◌^◌, ◌<◌, ◌≡◌, ◌↔◌, refl, sym, ap, ◌∙◌, true, Option, none, some, List,
  [], ◌∷◌, ◌++◌, inl, inr, arith, length, length-append, ◌==◌, Eq, eq_iff, eq-cases, ℕ_eq, list_eq,
  pair_eq, Bool-cases, Option-cases, if◌then◌else◌,
}
use energychain_node.Outcome.{ok}
use energychain_node.Sdk.Store.{Store, found}
use energychain_node.Sdk.Laws.{get-put}
use energychain_node.Sdk.Context.{Context}
use energychain_node.Audit.Types.{AuditLog, MsgRecordAudit, MsgUpdateParams, validate}
use energychain_node.Audit.State.{Keeper, State}
use energychain_node.Audit.Keeper.{timestamp_to_key, set_params}
use energychain_node.Audit.MsgServer.{recorded_log, record_audit, update_params}
use energychain_node.Audit.Written.{Recorded, record_audit-Recorded}

-- The log of a number: numbers begin at 1.
abbrev pub nth : List AuditLog → ℕ → Option AuditLog
nth [] i = none
nth (l ∷ ls) zero = some l
nth (l ∷ ls) (suc i) = nth ls i

abbrev pub entry : List AuditLog → ℕ → Option AuditLog
entry ls zero = none
entry ls (suc i) = nth ls i

nth-append :
    (ls : List AuditLog) (l : AuditLog) (i : ℕ)
    → nth (ls ++ l ∷ []) i ≡ (if length ls == i then some l else nth ls i)
nth-append [] l zero = refl
nth-append [] l (suc i) = ground arith
nth-append (x ∷ ls) l zero = ground arith
nth-append (x ∷ ls) l (suc i) = ground (arith, nth-append ls l i)

pub entry-append :
    (ls : List AuditLog) (l : AuditLog) (i : ℕ)
    → entry (ls ++ l ∷ []) i ≡ (if suc (length ls) == i then some l else entry ls i)
entry-append ls l zero = ground arith
entry-append ls l (suc i) = ground (arith, nth-append ls l i)

pub entry_fresh : (ls : List AuditLog) (i : ℕ) → length ls < i → entry ls i ≡ none
entry_fresh ls zero h = ground arith
entry_fresh [] (suc i) h = refl
entry_fresh (x ∷ ls) (suc zero) h = absurd (omega arith)
entry_fresh (x ∷ ls) (suc (suc i)) h = entry_fresh ls (suc i) (omega arith)

-- An index over a ledger: a key with a number stands in it exactly if the log of the number has the
-- key.
module _ {K : Type 0} ⦃e : Eq K⦄ (index : Store (K × ℕ) (Unit {0})) (field : AuditLog → K) where
  abbrev pub Indexes : List AuditLog → index.Carrier → Type 0
  Indexes ls m =
      (a : K) (i : ℕ)
      → (index.get m (a, i) ≡ found tt) ↔ ((l : AuditLog) × (entry ls i ≡ some l) × (field l ≡ a))

  Indexes-append :
      (ls : List AuditLog) (l : AuditLog) (m : index.Carrier)
      → Indexes ls m
      → index.encodes (field l, suc (length ls)) tt ≡ true
      → Indexes (ls ++ l ∷ []) (index.put m (field l, suc (length ls)) tt)
  Indexes-append ls l m h fits a i =
      let n = suc (length ls) in
      let m' = index.put m (field l, n) tt in
      let self = index.get-put_self m (field l, n) tt fits in
      elim (eq-cases n i) [
        | inl same ↦
            let last : entry (ls ++ l ∷ []) i ≡ some l =
              entry-append ls l i ∙ rw ((eq_iff n i).1 same) refl in
            (
              λ g. elim (eq-cases (field l) a) [
                | inl p ↦ (l, last, p)
                | inr (_, ne) ↦
                    let old : index.get m (a, i) ≡ found tt =
                      sym (
                        index.get-put_ne m (field l, n) tt (a, i) fits
                          (λ q. ne (ap (λ (x : K × ℕ). x.0) q)))
                      ∙ g in
                    let (_, there, _) = (h a i).0 old in
                    absurd (cc (there, entry_fresh ls i (omega arith)))
              ],
              λ (x, there, p).
                  let is_l : l ≡ x = cc (last, there) in
                  subst (λ (q : K × ℕ). index.get m' q ≡ found tt)
                    (λ j. ((ap field is_l ∙ p) j, same j)) self,
            )
        | inr (other, ne) ↦
            let get_same =
              index.get-put_ne m (field l, n) tt (a, i) fits
                (λ q. ne (ap (λ (x : K × ℕ). x.1) q)) in
            let entry_same : entry (ls ++ l ∷ []) i ≡ entry ls i =
              entry-append ls l i ∙ rw other refl in
            (
              λ g. let (x, there, p) = (h a i).0 (sym get_same ∙ g) in (x, entry_same ∙ there, p),
              λ (x, there, p). get_same ∙ (h a i).1 (x, sym entry_same ∙ there, p),
            )
      ]

module _ ⦃k : Keeper⦄ where
  -- The store holds exactly the logs of the ledger, each under its number, and exactly their index
  -- entries; the sequence is at the last number.
  pub record Represents (ls : List AuditLog) (s : State) : Type 0 where
    pub sequence : k.id_sequence.peek s.id_sequence ≡ some (length ls)
    pub logs : (i : ℕ) (l : AuditLog) → (k.logs.get s.logs i ≡ found l) ↔ (entry ls i ≡ some l)
    pub numbers : (i : ℕ) (l : AuditLog) → entry ls i ≡ some l → l.id ≡ i
    pub by_actor : Indexes k.by_actor (λ l. l.actor) ls s.by_actor
    pub by_event_type : Indexes k.by_event_type (λ l. l.event_type) ls s.by_event_type
    pub by_time : Indexes k.by_time (λ l. timestamp_to_key l.timestamp) ls s.by_time

  pub Recorded-Represents :
      (ctx : Context) (msg : MsgRecordAudit) (ls : List AuditLog) (s s' : State)
      → Represents ls s
      → Recorded ctx msg (length ls) s s'
      → Represents (ls ++ recorded_log ctx msg (suc (length ls)) ∷ []) s'
  Recorded-Represents ctx msg ls s s' r x =
      let n = suc (length ls) in
      let l = recorded_log ctx msg n in
      let w = x.written in
      let gets : (i : ℕ)
          → k.logs.get s'.logs i ≡ (if n == i then found l else k.logs.get s.logs i) =
        λ i. ap (λ m. k.logs.get m i) w.logs ∙ get-put k.logs s.logs n l i w.fits_log in
      record {
        sequence = x.sequence ∙ ap some (omega (arith, length-append ls (l ∷ [])));
        logs = λ i y. ground (arith, gets i, entry-append ls l i, r.logs i y);
        numbers = λ i y p. ground (arith, entry-append ls l i, r.numbers i y, eq_iff n i);
        by_actor =
            subst (Indexes k.by_actor (λ l. l.actor) _) (sym w.by_actor)
              (Indexes-append k.by_actor (λ l. l.actor) ls l s.by_actor r.by_actor w.fits_actor);
        by_event_type =
            subst (Indexes k.by_event_type (λ l. l.event_type) _) (sym w.by_event_type) (
              Indexes-append k.by_event_type (λ l. l.event_type) ls l s.by_event_type
                r.by_event_type w.fits_event_type);
        by_time = subst (Indexes k.by_time (λ l. timestamp_to_key l.timestamp) _) (sym w.by_time) (
            Indexes-append k.by_time (λ l. timestamp_to_key l.timestamp) ls l s.by_time r.by_time
              w.fits_time);
      }
