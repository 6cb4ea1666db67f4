-- ===== src/Identity/MsgServer.antt =====
-- The message handlers of chain/x/identity/keeper/msg_server.go.
use energychain_node.Prelude.{
  Bool, true, not, ◌&&◌, ◌||◌, none, some, [], ◌∷◌, ◌++◌, Bytes, codes, exceeds, ltb, ◌==◌, list_eq,
  ℕ_eq, if◌then◌else◌,
}
use energychain_node.Outcome.{Exec, ◌>>=◌, ◌>>◌, fail, gets, lift, some_or, require, modify}
use energychain_node.Sdk.Context.{Context, Event}
use energychain_node.Identity.Types.{
  Identity, MsgRegisterIdentity, MsgUpdateIdentity, MsgRevokeIdentity, MsgUpdateParams, validate,
  status_active, status_revoked,
}
use energychain_node.Identity.State.{
  Keeper, State, Error, only_admin, only_admin_or_owner, metadata_too_large, already_registered,
  identity_not_found, already_revoked, invalid_authority, invalid_params,
}
use energychain_node.Identity.Keeper as IdentityKeeper

abbrev pub registered_identity : Context → MsgRegisterIdentity → Identity
registered_identity ctx msg = record {
  address = msg.address;
  name = msg.name;
  role = msg.role;
  status = status_active;
  metadata = msg.metadata;
  registered_at = ctx.block_time;
  updated_at = ctx.block_time;
}

-- What `UpdateIdentity` makes of the stored record: empty texts change nothing.
abbrev pub updated_identity : Context → MsgUpdateIdentity → Identity → Identity
updated_identity ctx msg i = record i {
  name = if msg.name == [] then i.name else msg.name;
  metadata = if msg.metadata == [] then i.metadata else msg.metadata;
  updated_at = ctx.block_time;
}

abbrev pub revoked_identity : Context → Identity → Identity
revoked_identity ctx i = record i { status = status_revoked; updated_at = ctx.block_time }

abbrev pub registered_event : MsgRegisterIdentity → Event
registered_event msg = record {
  kind = codes "identity_registered";
  attributes =
      (codes "address", msg.address)
      ∷ (codes "role", msg.role)
      ∷ (codes "name", msg.name)
      ∷ (codes "metadata", msg.metadata)
      ∷ [];
}

abbrev pub updated_event : MsgUpdateIdentity → Identity → Event
updated_event msg i = record {
  kind = codes "identity_updated";
  attributes =
      (codes "address", msg.address)
      ∷ (codes "name", i.name)
      ∷ (codes "metadata", i.metadata)
      ∷ (codes "updated_by", msg.creator)
      ∷ [];
}

abbrev pub revoked_event : MsgRevokeIdentity → Event
revoked_event msg = record {
  kind = codes "identity_revoked";
  attributes =
      (codes "address", msg.address)
      ∷ (codes "reason", msg.reason)
      ∷ (codes "revoked_by", msg.creator)
      ∷ [];
}

module _ ⦃k : Keeper⦄ where
  abbrev pub emit : Event → Exec Error State (Unit {0})
  emit e = modify (λ s. record s { events = s.events ++ e ∷ [] })

  unfoldable pub is_admin : State → Bytes → Bool
  is_admin s address =
      if address == k.authority
      then true
      else let params = IdentityKeeper.get_params s in
        not (params.admin_address == []) && params.admin_address == address

  -- The guard on the size of the metadata.
  abbrev pub too_large : State → Bytes → Bool
  too_large s metadata =
      let params = IdentityKeeper.get_params s in
      ltb 0 params.max_metadata_size && exceeds metadata params.max_metadata_size

  unfoldable pub register_identity : Context → MsgRegisterIdentity → Exec Error State (Unit {0})
  register_identity ctx msg = do
    admin ← gets (λ s. is_admin s msg.creator)
    require admin only_admin
    large ← gets (λ s. too_large s msg.metadata)
    require (not large) metadata_too_large
    known ← gets (λ s. IdentityKeeper.is_registered s msg.address)
    require (not known) already_registered
    IdentityKeeper.set_identity (registered_identity ctx msg)
    emit (registered_event msg)

  unfoldable pub update_identity : Context → MsgUpdateIdentity → Exec Error State (Unit {0})
  update_identity ctx msg = do
    stored ← gets (λ s. IdentityKeeper.get_identity s msg.address)
    identity ← lift (some_or identity_not_found stored)
    admin ← gets (λ s. is_admin s msg.creator)
    require (admin || msg.creator == msg.address) only_admin_or_owner
    large ← gets (λ s. too_large s msg.metadata)
    require (not large) metadata_too_large
    IdentityKeeper.set_identity (updated_identity ctx msg identity)
    emit (updated_event msg (updated_identity ctx msg identity))

  unfoldable pub revoke_identity : Context → MsgRevokeIdentity → Exec Error State (Unit {0})
  revoke_identity ctx msg = do
    admin ← gets (λ s. is_admin s msg.creator)
    require admin only_admin
    stored ← gets (λ s. IdentityKeeper.get_identity s msg.address)
    identity ← lift (some_or identity_not_found stored)
    require (not (identity.status == status_revoked)) already_revoked
    IdentityKeeper.set_identity (revoked_identity ctx identity)
    emit (revoked_event msg)

  unfoldable pub update_params : MsgUpdateParams → Exec Error State (Unit {0})
  update_params msg =
      if msg.authority == k.authority
      then elim (validate k.valid_address msg.params) [
        | some e ↦ fail (invalid_params e)
        | none ↦ IdentityKeeper.set_params msg.params
      ]
      else fail invalid_authority
