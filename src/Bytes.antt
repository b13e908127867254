-- ===== src/Bytes.antt =====
-- Bytes and what the hash ring asks of its surroundings: `AsRef<[u8]>` of the node type, the
-- little-endian bytes of a u32, and the hash of the crate `mur3`, which is a parameter.
use percas.Base.{ℕ, ◌/◌, ◌%◌, ◌^◌, ◌<◌, List, [], ◌∷◌}

-- `AsRef<[u8]>`.
pub record AsRef {ℓ} (T : Type ℓ) : Type ℓ where
  pub as_ref : T → List ℕ

-- `mur3::murmurhash3_x86_32(bytes, seed)`: a function of its arguments into u32.
pub record Mur3 : Type 0 where
  pub murmurhash3_x86_32 : List ℕ → ℕ → ℕ
  pub hash_lt : (bytes : List ℕ) (seed : ℕ) → murmurhash3_x86_32 bytes seed < 2 ^ 32

-- `u32::to_le_bytes`.
unfoldable pub to_le_bytes : ℕ → List ℕ
to_le_bytes x = x % 256 ∷ (x / 256 % 256) ∷ (x / 65536 % 256) ∷ (x / 16777216 % 256) ∷ []
