-- ===== src/Table/Find.antt =====
-- What a statement does to the row with a given key.
use smqtt.Prelude.{
  ◌≡◌, ◌⊎◌, inl, inr, refl, none, some, find, Bool, true, false, List, [], ◌∷◌, ◌++◌, arith, Text,
  ◌==◌, text_eq, text_beq_iff, if◌then◌else◌, Bool-cases, subst,
}
use smqtt.Table.{delete, update, has_key, Unique}
use smqtt.Table.Laws.{has_key-delete}

module _ {ℓ} {A : Type ℓ} where
  pub find-append :
      (p : A → Bool) (xs : List A) (x : A)
      → find p (xs ++ x ∷ [])
        ≡ elim (find p xs) [ none ↦ (if p x then some x else none) | some y ↦ some y ]
  find-append p [] x = ground arith
  find-append p (y ∷ ys) x = ground (arith, find-append p ys x)

  -- Rows that a statement does not meet are found as before.
  pub find-update_apart :
      (p q : A → Bool) (f : A → A)
      → ((x : A) → q x ≡ true → (p x ≡ false) × (p (f x) ≡ false))
      → (xs : List A) → find p (update q f xs) ≡ find p xs
  unfolding update
  find-update_apart p q f apart [] = refl
  find-update_apart p q f apart (x ∷ xs) = ground (arith, apart x, find-update_apart p q f apart xs)

  pub find-delete_apart :
      (p q : A → Bool)
      → ((x : A) → q x ≡ true → p x ≡ false)
      → (xs : List A) → find p (delete q xs) ≡ find p xs
  unfolding delete
  find-delete_apart p q apart [] = refl
  find-delete_apart p q apart (x ∷ xs) = ground (arith, apart x, find-delete_apart p q apart xs)

module _ {ℓ} {A : Type ℓ} (key : A → Text) (k : Text) where
  find-has_key : (xs : List A) → has_key key k xs ≡ false → find (λ x. key x == k) xs ≡ none
  find-has_key [] h = refl
  find-has_key (x ∷ xs) h = ground (arith, find-has_key xs)

  -- Where keys are unique, a deletion takes the row out or leaves it.
  pub find-delete_by_key :
      (q : A → Bool) (xs : List A)
      → Unique key xs
      → (find (λ x. key x == k) (delete q xs) ≡ none)
        ⊎ (find (λ x. key x == k) (delete q xs) ≡ find (λ x. key x == k) xs)
  unfolding delete
  find-delete_by_key q [] u = inl refl
  find-delete_by_key q (x ∷ xs) u = elim (Bool-cases (key x == k)) [
    | inl same ↦ elim (Bool-cases (q x)) [
      | inl out ↦
          let e : key x ≡ k = (text_beq_iff (key x) k).0 same in
          let fresh = has_key-delete key k q xs (subst (λ j. has_key key j xs ≡ false) e u.0) in
          inl (ground (arith, out, find-has_key (delete q xs) fresh))
      | inr kept ↦ inr (ground arith)
    ]
    | inr different ↦ elim (find-delete_by_key q xs u.1) [
      | inl gone ↦ inl (ground arith)
      | inr left ↦ inr (ground arith)
    ]
  ]
