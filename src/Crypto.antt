-- ===== src/Crypto.antt =====
-- The Keccak-256 of golang.org/x/crypto/sha3 is not code of this repository: the digest of the
-- concatenation of what is written is a parameter.
use energychain_node.Prelude.{Bytes}

pub record Crypto : Type 0 where
  pub keccak256 : Bytes → Bytes
