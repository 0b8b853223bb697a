-- ===== src/Map.antt =====
-- A `DashMap` from text, as an association list without repeated keys.
use smqtt.Prelude.{
  ◌≡◌, Option, none, some, List, [], ◌∷◌, Text, ◌==◌, text_eq, text_beq_iff, arith, if◌then◌else◌,
}

abbrev pub DashMap {ℓ} : Type ℓ → Type ℓ
DashMap V = List (Text × V)

module _ {ℓ} {V : Type ℓ} where
  unfoldable pub get : Text → DashMap V → Option V
  get k [] = none
  get k ((j, v) ∷ m) = if j == k then some v else get k m

  unfoldable pub remove : Text → DashMap V → DashMap V
  remove k [] = []
  remove k ((j, v) ∷ m) = let rest = remove k m in if j == k then rest else (j, v) ∷ rest

  unfoldable pub insert : Text → V → DashMap V → DashMap V
  unfolding remove
  insert k v m = (k, v) ∷ remove k m

  pub get-remove :
      (k j : Text) (m : DashMap V) → get j (remove k m) ≡ (if k == j then none else get j m)
  unfolding get remove
  get-remove k j [] = ground arith
  get-remove k j ((i, v) ∷ m) =
      ground (arith, get-remove k j m, text_beq_iff i k, text_beq_iff i j, text_beq_iff k j)

  pub get-insert :
      (k j : Text) (v : V) (m : DashMap V)
      → get j (insert k v m) ≡ (if k == j then some v else get j m)
  unfolding get insert
  get-insert k j v m = ground (arith, get-remove k j m)
