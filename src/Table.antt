-- ===== src/Table.antt =====
-- Rows of a table in insertion order, and the SQL statements over one table that db/mod.rs runs.
pub mod Laws
pub mod Find
use smqtt.Prelude.{
  ℕ, suc, ◌≡◌, Bool, true, false, List, [], ◌∷◌, Text, ◌==◌, text_eq, any, if◌then◌else◌,
}

module _ {ℓ} {A : Type ℓ} where
  -- `SELECT … WHERE p`, all rows
  unfoldable pub select : (A → Bool) → List A → List A
  select p [] = []
  select p (x ∷ xs) = let rest = select p xs in if p x then x ∷ rest else rest

  -- `DELETE … WHERE p`
  unfoldable pub delete : (A → Bool) → List A → List A
  delete p [] = []
  delete p (x ∷ xs) = let rest = delete p xs in if p x then rest else x ∷ rest

  -- `UPDATE … SET f WHERE p`
  unfoldable pub update : (A → Bool) → (A → A) → List A → List A
  update p f [] = []
  update p f (x ∷ xs) = (if p x then f x else x) ∷ update p f xs

  -- `rows_affected` of a statement with `WHERE p`
  unfoldable pub count : (A → Bool) → List A → ℕ
  count p [] = 0
  count p (x ∷ xs) = let rest = count p xs in if p x then suc rest else rest

-- A PRIMARY KEY or a reference: some row has the key `k`.
abbrev pub has_key {ℓ} : {A : Type ℓ} → (A → Text) → Text → List A → Bool
has_key key k = any (λ x. key x == k)

-- No two rows have the same key.
abbrev pub Unique {ℓ} : {A : Type ℓ} → (A → Text) → List A → Type 0
Unique key [] = Unit
Unique key (x ∷ xs) = (has_key key (key x) xs ≡ false) × Unique key xs
