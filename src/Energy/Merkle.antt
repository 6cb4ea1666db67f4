-- ===== src/Energy/Merkle.antt =====
-- `verifyMerkleRoot`, `computeMerkleRoot` and `hashPair` of chain/x/energy/keeper/msg_server.go.
pub mod Depth
pub mod Tree
pub mod Collision
pub mod Rounds
pub mod Binding
mod Tests
use energychain_node.Prelude.{
  ℕ, zero, suc, ◌+◌, Option, none, some, List, [], ◌∷◌, ◌++◌, Bytes, length, ◌==◌, list_eq, ℕ_eq,
  if◌then◌else◌,
}
use energychain_node.Outcome.{Outcome, ok, err, panic}
use energychain_node.Binary.{put_uint64}
use energychain_node.Hex.{hex_encode, compare_le, to_lower, trim_0x}
use energychain_node.Crypto.{Crypto}
use energychain_node.Energy.Types.{BatchItem}
use energychain_node.Energy.State.{Error, no_items, merkle_root_mismatch}

module _ ⦃c : Crypto⦄ where
  unfoldable pub hash_pair : Bytes → Bytes → Bytes
  hash_pair a b =
      if compare_le (hex_encode a) (hex_encode b)
      then c.keccak256 (a ++ b)
      else c.keccak256 (b ++ a)

  -- One round of `computeMerkleRoot`: a last hash without a partner is paired with itself.
  unfoldable pub next_level : List Bytes → List Bytes
  next_level [] = []
  next_level (a ∷ []) = hash_pair a a ∷ []
  next_level (a ∷ b ∷ rest) = hash_pair a b ∷ next_level rest

  -- The rounds left are the fuel; `none` says that they ran out, as they do on no leaves at all,
  -- where the code would recur for ever.
  unfoldable pub compute_merkle_root : ℕ → List Bytes → Option Bytes
  compute_merkle_root zero leaves = none
  compute_merkle_root (suc f) (l ∷ []) = some l
  compute_merkle_root (suc f) leaves = compute_merkle_root f (next_level leaves)

  -- The leaf of the item at index i.
  unfoldable pub leaf : ℕ → BatchItem → Bytes
  leaf i item = c.keccak256 (put_uint64 i ++ item.data_hash)

  unfoldable pub leaves_from : ℕ → List BatchItem → List Bytes
  leaves_from i [] = []
  leaves_from i (item ∷ items) = leaf i item ∷ leaves_from (i + 1) items

  abbrev pub normalized : Bytes → Bytes
  normalized declared_root = trim_0x (to_lower declared_root)

  -- `ok` is the nil error, `panic` the recursion without end.
  unfoldable pub verify_merkle_root : List BatchItem → Bytes → Outcome Error (Unit {0})
  verify_merkle_root [] declared_root = err no_items
  verify_merkle_root (item ∷ items) declared_root =
      let leaves = leaves_from 0 (item ∷ items) in
      elim (compute_merkle_root (length leaves) leaves) [
        | none ↦ panic
        | some root ↦
            if hex_encode root == normalized declared_root then ok tt else err merkle_root_mismatch
      ]
