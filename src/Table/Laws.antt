-- ===== src/Table/Laws.antt =====
-- What the statements keep: a predicate on all rows, the keys, and their uniqueness.
use mathlib.Core.Option
use smqtt.Prelude.{
  none, some, find, any-find, ◌≡◌, refl, Bool, true, false, ◌||◌, List, [], ◌∷◌, ◌++◌, arith, Text,
  nat_eq, ◌==◌, text_eq, text_beq_iff, any, any-append, All, if◌then◌else◌,
}
use smqtt.Table.{select, delete, update, count, has_key, Unique}

module _ {ℓ κ} {A : Type ℓ} (P : A → Type κ) (p : A → Bool) where
  pub All-select : (xs : List A) → All P xs → All P (select p xs)
  unfolding select
  All-select [] h = tt
  All-select (x ∷ xs) h = elim (p x) as (λ b. All P (if b then x ∷ select p xs else select p xs)) [
    | true ↦ (h.0, All-select xs h.1)
    | false ↦ All-select xs h.1
  ]

  pub All-delete : (xs : List A) → All P xs → All P (delete p xs)
  unfolding delete
  All-delete [] h = tt
  All-delete (x ∷ xs) h = elim (p x) as (λ b. All P (if b then delete p xs else x ∷ delete p xs)) [
    | true ↦ All-delete xs h.1
    | false ↦ (h.0, All-delete xs h.1)
  ]

  if_holds : (b : Bool) (x y : A) → (b ≡ true → P x) → P y → P (if b then x else y)
  if_holds true x y hx hy = hx refl
  if_holds false x y hx hy = hy

  pub All-update :
      (f : A → A)
      → ((x : A) → p x ≡ true → P x → P (f x))
      → (xs : List A) → All P xs
      → All P (update p f xs)
  unfolding update
  All-update f keep [] h = tt
  All-update f keep (x ∷ xs) h =
      (if_holds (p x) (f x) x (λ e. keep x e h.0) h.0, All-update f keep xs h.1)

-- Every selected row satisfies the condition.
pub select_holds {ℓ} :
    {A : Type ℓ} (p : A → Bool) (xs : List A) → All (λ x. p x ≡ true) (select p xs)
unfolding select
select_holds p [] = tt
select_holds p (x ∷ xs) = ground (arith, select_holds p xs)

pub count-any {ℓ} :
    {A : Type ℓ} (p : A → Bool) (xs : List A)
    → (count p xs == 0) ≡ (if any p xs then false else true)
unfolding count
count-any p [] = refl
count-any p (x ∷ xs) = ground (arith, count-any p xs)

module _ {ℓ} {A : Type ℓ} (key : A → Text) where
  pub has_key-append :
      (k : Text) (xs : List A) (x : A)
      → has_key key k (xs ++ x ∷ []) ≡ (has_key key k xs || (key x == k))
  has_key-append k xs x = ground (arith, any-append (λ y. key y == k) xs (x ∷ []))

  pub has_key-grows :
      (k : Text) (xs : List A) (x : A)
      → has_key key k xs ≡ true
      → has_key key k (xs ++ x ∷ []) ≡ true
  has_key-grows k xs x h = ground (arith, has_key-append k xs x)

  pub Unique-append :
      (xs : List A) (x : A)
      → Unique key xs
      → has_key key (key x) xs ≡ false
      → Unique key (xs ++ x ∷ [])
  Unique-append [] x u h = (refl, tt)
  Unique-append (y ∷ ys) x u h = ground (
    arith,
    Unique-append ys x u.1,
    has_key-append (key y) ys x,
    text_beq_iff (key x) (key y),
    text_beq_iff (key y) (key x),
  )

  pub has_key-delete :
      (k : Text) (p : A → Bool) (xs : List A)
      → has_key key k xs ≡ false
      → has_key key k (delete p xs) ≡ false
  unfolding delete
  has_key-delete k p [] h = refl
  has_key-delete k p (x ∷ xs) h = ground (arith, has_key-delete k p xs)

  pub Unique-delete : (p : A → Bool) (xs : List A) → Unique key xs → Unique key (delete p xs)
  unfolding delete
  Unique-delete p [] u = tt
  Unique-delete p (x ∷ xs) u =
      elim (p x) as (λ b. Unique key (if b then delete p xs else x ∷ delete p xs)) [
        | true ↦ Unique-delete p xs u.1
        | false ↦ (has_key-delete (key x) p xs u.0, Unique-delete p xs u.1)
      ]

  module _ (p : A → Bool) (f : A → A) (same_key : (x : A) → key (f x) ≡ key x) where
    updated_key : (x : A) → key (if p x then f x else x) ≡ key x
    updated_key x = ground (arith, same_key x)

    pub has_key-update : (k : Text) (xs : List A) → has_key key k (update p f xs) ≡ has_key key k xs
    unfolding update
    has_key-update k [] = refl
    has_key-update k (x ∷ xs) = rw (updated_key x, has_key-update k xs)

    pub Unique-update : (xs : List A) → Unique key xs → Unique key (update p f xs)
    unfolding update
    Unique-update [] u = tt
    Unique-update (x ∷ xs) u =
        (rw (updated_key x, has_key-update (key x) xs) u.0, Unique-update xs u.1)

-- A row found by a condition that the update keeps is the updated row.
pub find-update {ℓ} :
    {A : Type ℓ} (p : A → Bool) (f : A → A) (keeps : (x : A) → p (f x) ≡ p x) (xs : List A)
    → find p (update p f xs) ≡ Option.map f (find p xs)
unfolding update
find-update p f keeps [] = refl
find-update p f keeps (x ∷ xs) = ground (arith, keeps x, find-update p f keeps xs)

pub find-delete {ℓ} : {A : Type ℓ} (p : A → Bool) (xs : List A) → find p (delete p xs) ≡ none
unfolding delete
find-delete p [] = refl
find-delete p (x ∷ xs) = ground (arith, find-delete p xs)

pub select-append {ℓ} :
    {A : Type ℓ} (p : A → Bool) (xs : List A) (x : A)
    → select p (xs ++ x ∷ []) ≡ select p xs ++ (if p x then x ∷ [] else [])
unfolding select
select-append p [] x = refl
select-append p (y ∷ ys) x = ground (arith, select-append p ys x)

-- Rows that are deleted are not among those that `q` selects.
pub select-delete {ℓ} :
    {A : Type ℓ} (p q : A → Bool) (xs : List A)
    → ((x : A) → p x ≡ true → q x ≡ false)
    → select q (delete p xs) ≡ select q xs
unfolding select delete
select-delete p q [] apart = refl
select-delete p q (x ∷ xs) apart = ground (arith, apart x, select-delete p q xs apart)

-- Some row was affected, if one is found.
pub count-find {ℓ} :
    {A : Type ℓ} (p : A → Bool) (xs : List A) (x : A)
    → find p xs ≡ some x
    → (count p xs == 0) ≡ false
count-find p xs x h = rw (count-any p xs, any-find p xs x h)
