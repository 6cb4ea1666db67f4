-- ===== src/Export/Unfinished.antt =====
-- The loop of chain/export.go that reinitialises the validators in the distribution module stops at
-- the first error of its callback, and drops it.
use energychain_node.Prelude.{
  ◌≡◌, refl, ◌∙◌, ap, inl, inr, Bool, true, false, not, ◌&&◌, List, ◌∷◌, Bytes, Option-cases,
  if◌then◌else◌,
}
use energychain_node.Prelude.Int.{ℤ}
use energychain_node.Outcome.{Outcome, ok, err}
use energychain_node.Sdk.Store.{found, not_found, walk_until}
use energychain_node.Export.Keepers.{
  Validator, ExportError, iterate_validators, Stores, State, Keepers,
}
use energychain_node.Export.ZeroHeight.{
  set_distribution, reinitialise_validator, reinitialise_validators,
}

module _ ⦃t : Stores⦄ ⦃k : Keepers⦄ (h : ℤ) where
  -- The hook returns an error for an address that no validator has.
  abbrev pub RefusesUnknown : Type 0
  RefusesUnknown =
      (s : State) (a : Bytes)
      → t.validators.get s.validators a ≡ not_found
      → (k.after_validator_created h a s).0 ≡ false

  -- No validator stands under the text of an operator's address.
  abbrev pub IsDecoded : State → Type 0
  IsDecoded s =
      (a : Bytes) (v : Validator)
      → t.validators.get s.validators a ≡ found v
      → t.validators.get s.validators v.operator ≡ not_found

  stops :
      (s : State) (a : Bytes) (v : Validator)
      → RefusesUnknown
      → t.validators.get s.validators v.operator ≡ not_found
      → (reinitialise_validator h s a v).1 ≡ true
  unfolding reinitialise_validator
  stops s a v refuses unknown = elim (Option-cases (k.outstanding_rewards s v.operator)) [
    | inl p ↦ rw (reinitialise_validator, p) refl
    | inr (scraps, p) ↦ elim (Option-cases (k.community_pool s)) [
      | inl q ↦ rw (reinitialise_validator, p, q) refl
      | inr (pool, q) ↦ elim (Option-cases (k.set_community_pool (k.add pool scraps) s)) [
        | inl r ↦ rw (reinitialise_validator, p, q, r) refl
        | inr (d, r) ↦
            rw (reinitialise_validator, p, q, r)
              (ap not (refuses (set_distribution d s) v.operator unknown))
      ]
    ]
  ]

  iterated :
      (fails : Bool) (r : State × Bool) (u : State)
      → r ≡ (u, true)
      → let end : Outcome ExportError (Unit {0}) × State =
          if fails && not r.1 then (err iterate_validators, r.0) else (ok tt, r.0) in
        end ≡ (ok tt, u)
  iterated true r u e = rw e refl
  iterated false r u e = rw e refl

  -- Where the hook refuses an address that no validator has, and no validator stands under the text
  -- of an operator's address, the loop returns no error and leaves every validator after the first
  -- one out.
  pub reinitialise_validators-stops :
      (s : State) (a : Bytes) (v : Validator) (rest : List (Bytes × Validator))
      → RefusesUnknown
      → IsDecoded s
      → t.validators.walk s.validators ≡ (a, v) ∷ rest
      → reinitialise_validators h s ≡ (ok tt, (reinitialise_validator h s a v).0)
  unfolding reinitialise_validators
  reinitialise_validators-stops s a v rest refuses decoded walk =
      let there : t.validators.get s.validators a ≡ found v =
        t.validators.walk_sound s.validators a v (rw walk (inl refl)) in
      let stopped = stops s a v refuses (decoded a v there) in
      let visits : List (Bytes × Validator) → State × Bool =
        walk_until (reinitialise_validator h) s in
      let first : visits ((a, v) ∷ rest) ≡ ((reinitialise_validator h s a v).0, true) =
        rw stopped refl in
      iterated (t.validators.walk_fails s.validators) (visits (t.validators.walk s.validators)) _
        (ap visits walk ∙ first)
