-- ===== src/Rocks.antt =====
-- The key-value store of crates/rock-node-core/src/database.rs, which is RocksDB: a parameter of the
-- model. A column family maps `u64` keys to values; the keys are stored big-endian, so the order of
-- the bytes is the order of the numbers. The laws are the documented behaviour of the calls that
-- the source makes.
pub mod Table
use rock_node.Base.{ℕ, suc, ◌≤◌, ◌<◌, ◌≡◌, ◌==◌, if◌then◌else◌, List, [], ◌∷◌, Option, none, some}

-- What a forward iterator from `lo` yields: every key that is there, in order.
abbrev pub Scan : {V : Type 0} → (ℕ → Option V) → ℕ → List (ℕ × V) → Type 0
Scan get lo [] = (j : ℕ) → lo ≤ j → get j ≡ none
Scan get lo ((k, v) ∷ xs) =
    (lo ≤ k) × (get k ≡ some v) × ((j : ℕ) → lo ≤ j → j < k → get j ≡ none) × Scan get (suc k) xs

-- What the first step of a reverse iterator from `k` yields: the greatest key up to `k`.
abbrev pub Greatest : {V : Type 0} → (ℕ → Option V) → ℕ → Option (ℕ × V) → Type 0
Greatest get k none = (j : ℕ) → j ≤ k → get j ≡ none
Greatest get k (some (i, v)) = (i ≤ k) × (get i ≡ some v) × ((j : ℕ) → i < j → j ≤ k → get j ≡ none)

pub record Rocks : Type 1 where
  pub Column : Type 0 → Type 0
  pub empty : {V : Type 0} → Column V
  pub get : {V : Type 0} → Column V → ℕ → Option V
  pub put : {V : Type 0} → Column V → ℕ → V → Column V
  pub delete : {V : Type 0} → Column V → ℕ → Column V
  pub iter_from : {V : Type 0} → Column V → ℕ → List (ℕ × V)
  pub seek_reverse : {V : Type 0} → Column V → ℕ → Option (ℕ × V)
  pub get-empty : {V : Type 0} (j : ℕ) → get (empty {V = V}) j ≡ none
  pub get-put :
      {V : Type 0} (c : Column V) (k j : ℕ) (v : V)
      → get (put c k v) j ≡ (if k == j then some v else get c j)
  pub get-delete :
      {V : Type 0} (c : Column V) (k j : ℕ)
      → get (delete c k) j ≡ (if k == j then none else get c j)
  pub iter_from-Scan : {V : Type 0} (c : Column V) (lo : ℕ) → Scan (get c) lo (iter_from c lo)
  pub seek_reverse-Greatest :
      {V : Type 0} (c : Column V) (k : ℕ) → Greatest (get c) k (seek_reverse c k)
