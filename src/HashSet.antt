-- ===== src/HashSet.antt =====
-- `std::collections::HashSet` as a list of its items. The order of the list stands for the order
-- of iteration, which the standard library leaves open.
use rust_state_machine_cowbo.Prelude.{
  Bool, true, false, not, ◌&&◌, ◌||◌, ◌≡◌, refl, List, [], ◌∷◌, PartialEq, ◌==◌, if◌then◌else◌,
  arith,
}

abbrev pub HashSet {ℓ} : Type ℓ → Type ℓ
HashSet A = List A

abbrev pub is_empty {ℓ} : {A : Type ℓ} → HashSet A → Bool
is_empty [] = true
is_empty (x ∷ xs) = false

module _ {ℓ} {A : Type ℓ} ⦃e : PartialEq A⦄ where
  unfoldable pub contains : A → HashSet A → Bool
  contains k [] = false
  contains k (x ∷ xs) = x == k || contains k xs

  unfoldable pub insert : A → HashSet A → HashSet A
  unfolding contains
  insert k s = if contains k s then s else k ∷ s

  -- A set holds an item once, so dropping every copy is dropping it.
  unfoldable pub remove : A → HashSet A → HashSet A
  remove k [] = []
  remove k (x ∷ xs) = let rest = remove k xs in if x == k then rest else x ∷ rest

  -- `collect` from an iterator.
  unfoldable pub collect : List A → HashSet A
  unfolding insert
  collect [] = []
  collect (x ∷ xs) = insert x (collect xs)

  pub contains-insert :
      (j k : A) (s : HashSet A) → contains j (insert k s) ≡ (k == j || contains j s)
  unfolding insert
  contains-insert j k s = ground (arith, e.eq_holds k j)

  pub contains-insert_self : (k : A) (s : HashSet A) → contains k (insert k s) ≡ true
  contains-insert_self k s = ground (arith, contains-insert k k s, e.eq_holds k k)

  pub contains-remove :
      (j k : A) (s : HashSet A) → contains j (remove k s) ≡ (not (k == j) && contains j s)
  unfolding contains remove
  contains-remove j k [] = ground arith
  contains-remove j k (x ∷ xs) =
      ground (arith, e.eq_holds x k, e.eq_holds x j, e.eq_holds k j, contains-remove j k xs)

  pub contains-collect_cons :
      (j x : A) (xs : List A) → contains j (collect (x ∷ xs)) ≡ (x == j || contains j (collect xs))
  unfolding collect
  contains-collect_cons j x xs = contains-insert j x (collect xs)

  -- Collecting loses no item and adds none.
  pub contains-collect : (j : A) (xs : List A) → contains j (collect xs) ≡ contains j xs
  unfolding collect contains
  contains-collect j [] = refl
  contains-collect j (x ∷ xs) =
      ground (arith, contains-insert j x (collect xs), contains-collect j xs)

  pub not-is_empty_of_contains : (k : A) (s : HashSet A) → contains k s ≡ true → is_empty s ≡ false
  unfolding contains
  not-is_empty_of_contains k [] h = ground arith
  not-is_empty_of_contains k (x ∷ xs) h = refl

  pub remove-eq_self : (k : A) (s : HashSet A) → contains k s ≡ false → remove k s ≡ s
  unfolding contains remove
  remove-eq_self k [] h = refl
  remove-eq_self k (x ∷ xs) h = ground (arith, remove-eq_self k xs)

  pub not-is_empty-insert : (k : A) (s : HashSet A) → is_empty (insert k s) ≡ false
  not-is_empty-insert k s = not-is_empty_of_contains k (insert k s) (contains-insert_self k s)

  pub contains_cons : (j x : A) (xs : List A) → contains j (x ∷ xs) ≡ (x == j || contains j xs)
  unfolding contains
  contains_cons j x xs = refl

  pub contains_nil : (j : A) → contains j [] ≡ false
  unfolding contains
  contains_nil j = refl
