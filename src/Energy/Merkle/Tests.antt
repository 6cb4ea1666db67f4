-- ===== src/Energy/Merkle/Tests.antt =====
-- The binding of a Merkle root at a concrete input.
use energychain_node.Prelude.{
  ℕ, zero, suc, ◌≡◌, ◌⊎◌, refl, arith, List, [], ◌∷◌, ◌++◌, Bytes, codes, length, take, length-take,
  length-append, list_eq, ℕ_eq,
}
use energychain_node.Outcome.{ok}
use energychain_node.Binary.{put_uint64}
use energychain_node.Hex.{hex_encode, trim_0x, to_lower, compare_le}
use energychain_node.Crypto.{Crypto}
use energychain_node.Energy.Types.{BatchItem}
use energychain_node.Energy.Merkle.{
  leaf, leaves_from, hash_pair, next_level, compute_merkle_root, verify_merkle_root,
}
use energychain_node.Energy.Merkle.Collision.{Collision}
use energychain_node.Energy.Merkle.Binding.{hashes, verify_merkle_root-binds}

abbrev zeros : ℕ → Bytes
zeros zero = []
zeros (suc n) = 0 ∷ zeros n

-- The digest of a text is its first 32 bytes, or the text with zeros after it.
instance abbrev padded : Crypto
padded = record { keccak256 = λ text. take 32 (text ++ zeros 32) }

padded_length : (x : Bytes) → length (padded.keccak256 x) ≡ 32
padded_length x = omega (arith, length-take 32 (x ++ zeros 32), length-append x (zeros 32))

abbrev items : List BatchItem
items =
    record { data_hash = codes "a"; metadata = [] }
    ∷ record { data_hash = codes "b"; metadata = [] }
    ∷ []

-- The same hashes with other metadata.
abbrev others : List BatchItem
others =
    record { data_hash = codes "a"; metadata = codes "x" }
    ∷ record { data_hash = codes "b"; metadata = codes "y" }
    ∷ []

abbrev declared : Bytes
declared = hex_encode (
    hash_pair (leaf 0 (record { data_hash = codes "a"; metadata = [] }))
      (leaf 1 (record { data_hash = codes "b"; metadata = [] })))

items_accepted : verify_merkle_root items declared ≡ ok tt
unfolding verify_merkle_root compute_merkle_root leaves_from leaf hash_pair next_level hex_encode
    trim_0x to_lower compare_le put_uint64
items_accepted = refl

others_accepted : verify_merkle_root others declared ≡ ok tt
unfolding verify_merkle_root compute_merkle_root leaves_from leaf hash_pair next_level hex_encode
    trim_0x to_lower compare_le put_uint64
others_accepted = refl

verify_merkle_root-binds_example : Collision ⊎ (hashes items ≡ hashes others)
verify_merkle_root-binds_example =
    verify_merkle_root-binds padded_length items others refl (omega arith) declared items_accepted
      others_accepted
