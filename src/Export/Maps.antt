-- ===== src/Export/Maps.antt =====
-- The loop over the validators in `prepForZeroHeightGenesis` (chain/export.go) rewrites each stored
-- validator once, although it reads what it has written.
use energychain_node.Prelude.{
  ◌≡◌, refl, sym, ap, ◌∙◌, inl, inr, true, not, ◌&&◌, some, List, [], ◌∷◌, Bytes, In, eq-cases,
  list_eq, ℕ_eq, Bool-cases, listed, length, ltb,
}
use energychain_node.Outcome.{Outcome, ok, continue_inv}
use energychain_node.Sdk.Store.{Lookup, found, not_found, failed}
use energychain_node.Sdk.Laws.{Lookup-cases}
use energychain_node.Export.Keepers.{Validator, ExportError, Stores, Keepers}
use energychain_node.Export.Reset.{map_lookup}
use energychain_node.Export.ZeroHeight.{restarted, write_validator, restart_validators}

module _ ⦃t : Stores⦄ ⦃k : Keepers⦄ where
  -- Every validator stands under the address that its operator's text stands for.
  abbrev pub IsOperated : t.validators.Carrier → Type 0
  IsOperated m =
      (a : Bytes) (v : Validator)
      → t.validators.get m a ≡ found v
      → k.val_address_from_bech32 v.operator ≡ some a

  written :
      (v : Validator) (a : Bytes) (m : t.validators.Carrier)
      → k.val_address_from_bech32 v.operator ≡ some a
      → (write_validator v m).0 ≡ ok tt
      → (t.validators.encodes a v ≡ true) × ((write_validator v m).1 ≡ t.validators.put m a v)
  unfolding write_validator
  written v a m e done = elim (Bool-cases (t.validators.encodes a v)) [
    | inl fit ↦ (fit, rw (write_validator, e, fit) refl)
    | inr bad ↦ absurd (cc (rw (write_validator, e, bad) at done))
  ]

  put-IsOperated :
      (m : t.validators.Carrier) (a : Bytes) (v : Validator)
      → IsOperated m
      → t.validators.encodes a v ≡ true
      → k.val_address_from_bech32 v.operator ≡ some a
      → IsOperated (t.validators.put m a v)
  put-IsOperated m a v h fit e b w g = elim (eq-cases a b) [
    | inl p ↦
        let self = t.validators.get-put_self m a v fit in
        let same : t.validators.get (t.validators.put m a v) a ≡ found w =
          ap (t.validators.get (t.validators.put m a v)) p ∙ g in
        let v_w : v ≡ w = cc (self, same) in
        ap (λ (x : Validator). k.val_address_from_bech32 x.operator) (sym v_w) ∙ e ∙ ap some p
    | inr (_, ne) ↦ h b w (sym (t.validators.get-put_ne m a v b fit ne) ∙ g)
  ]

  module _ (allowed : List Bytes) where
    -- A round that succeeds found its validator and wrote it back.
    record Round (b : Bytes) (rest : List Bytes) (m : t.validators.Carrier) : Type 0 where
      val : Validator
      there : t.validators.get m b ≡ found val
      fit : t.validators.encodes b (restarted allowed b val) ≡ true
      operated : IsOperated (t.validators.put m b (restarted allowed b val))
      done :
          (restart_validators allowed rest (t.validators.put m b (restarted allowed b val))).0
          ≡ ok tt
      same :
          (restart_validators allowed (b ∷ rest) m).1
          ≡ (restart_validators allowed rest (t.validators.put m b (restarted allowed b val))).1

    succeeds_by :
        (b : Bytes) (rest : List Bytes) (m : t.validators.Carrier)
        → IsOperated m
        → (restart_validators allowed (b ∷ rest) m).0 ≡ ok tt
        → Round b rest m
    unfolding restart_validators
    succeeds_by b rest m h done = elim (Lookup-cases (t.validators.get m b)) [
      | inl (v, there) ↦
          let w = restarted allowed b v in
          let (_, wrote, after, equal) =
            continue_inv (write_validator w m) (λ _. restart_validators allowed rest) tt
              (rw (restart_validators, there) at done) in
          let (fit, is_put) = written w b m (h b v there) wrote in
          record {
            val = v;
            there = there;
            fit = fit;
            operated = put-IsOperated m b w h fit (h b v there);
            done = rw is_put at after;
            same =
                rw (restart_validators, there)
                  (ap (λ (x : Outcome ExportError (Unit {0}) × t.validators.Carrier). x.1) equal
                    ∙ ap (λ c. (restart_validators allowed rest c).1) is_put);
          }
      | inr (inl p) ↦ absurd (cc (rw (restart_validators, p) at done))
      | inr (inr p) ↦ absurd (cc (rw (restart_validators, p) at done))
    ]

    -- What a round would not change stays.
    stays :
        (keys : List Bytes) (m : t.validators.Carrier) (a : Bytes) (l : Lookup Validator)
        → IsOperated m
        → (restart_validators allowed keys m).0 ≡ ok tt
        → t.validators.get m a ≡ l
        → map_lookup (restarted allowed a) l ≡ l
        → t.validators.get (restart_validators allowed keys m).1 a ≡ l
    unfolding restart_validators
    stays [] m a l h done g fixed = g
    stays (b ∷ rest) m a l h done g fixed =
        let r = succeeds_by b rest m h done in
        let w = restarted allowed b r.val in
        let m' = t.validators.put m b w in
        let now : t.validators.get m' a ≡ l = elim (eq-cases b a) [
          | inl p ↦
              let got : found r.val ≡ l = sym r.there ∙ ap (t.validators.get m) p ∙ g in
              ap (t.validators.get m') (sym p)
              ∙ t.validators.get-put_self m b w r.fit
              ∙ ap (λ x. found (restarted allowed x r.val)) p
              ∙ ap (map_lookup (restarted allowed a)) got
              ∙ fixed
          | inr (_, ne) ↦ t.validators.get-put_ne m b w a r.fit ne ∙ g
        ] in
        ap (λ c. t.validators.get c a) r.same ∙ stays rest m' a l r.operated r.done now fixed

    restarted_twice :
        (a : Bytes) (v : Validator)
        → restarted allowed a (restarted allowed a v) ≡ restarted allowed a v
    restarted_twice a v =
        elim (Bool-cases
          (ltb 0 (length allowed) && not (listed (k.val_address_string a) allowed))) [
            | inl p ↦ rw p refl
            | inr p ↦ rw p refl
          ]

    meets :
        (keys : List Bytes) (m : t.validators.Carrier) (a : Bytes) (v : Validator)
        → IsOperated m
        → (restart_validators allowed keys m).0 ≡ ok tt
        → In a keys
        → t.validators.get m a ≡ found v
        → t.validators.get (restart_validators allowed keys m).1 a ≡ found (restarted allowed a v)
    unfolding restart_validators
    meets [] m a v h done i g = elim i [ ]
    meets (b ∷ rest) m a v h done i g =
        let r = succeeds_by b rest m h done in
        let w = restarted allowed b r.val in
        let m' = t.validators.put m b w in
        ap (λ c. t.validators.get c a) r.same ∙ elim (eq-cases b a) [
          | inl p ↦
              let got : found r.val ≡ found v = sym r.there ∙ ap (t.validators.get m) p ∙ g in
              let now : t.validators.get m' a ≡ found (restarted allowed a v) =
                ap (t.validators.get m') (sym p)
                ∙ t.validators.get-put_self m b w r.fit
                ∙ ap (λ x. found (restarted allowed x r.val)) p
                ∙ ap (map_lookup (restarted allowed a)) got in
              stays rest m' a _ r.operated r.done now (ap found (restarted_twice a v))
          | inr (_, ne) ↦ elim i [
            | inl p ↦ absurd (ne (sym p))
            | inr j ↦
                meets rest m' a v r.operated r.done j (t.validators.get-put_ne m b w a r.fit ne ∙ g)
          ]
        ]

    -- The loop over all keys maps what is stored, and nothing else.
    pub restart_validators-maps :
        (m : t.validators.Carrier)
        → IsOperated m
        → (restart_validators allowed (k.validator_keys m) m).0 ≡ ok tt
        → (a : Bytes)
        → t.validators.get (restart_validators allowed (k.validator_keys m) m).1 a
          ≡ map_lookup (restarted allowed a) (t.validators.get m a)
    restart_validators-maps m h done a =
        let keys = k.validator_keys m in
        elim (Lookup-cases (t.validators.get m a)) [
          | inl (v, p) ↦ rw p (meets keys m a v h done (k.validator_keys_complete m a v p) p)
          | inr (inl p) ↦ rw p (stays keys m a not_found h done p refl)
          | inr (inr p) ↦ rw p (stays keys m a failed h done p refl)
        ]
