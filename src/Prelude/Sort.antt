-- ===== src/Prelude/Sort.antt =====
-- `sorted`, a stable sort by a Boolean order, and what the first entries of a sorted list are.
use mathlib.Core.List.{Perm, List, [], ◌∷◌, foldr}
use mathlib.Core.List.Perm
use honeywatch.Prelude.Tests.{if◌then◌else◌, Bool-cases}
use honeywatch.Prelude.Lists.{All, take, drop, length}
use Prim.Native.Nat.{ℕ, zero, suc, ◌+◌, ◌≤◌}
use native.Mathlib.Nat.{ℕ_set}
use mathlib.Core.Path.{◌≡◌, refl, sym, ap, ◌∙◌}
use mathlib.Core.Logic.{inl, inr}
use mathlib.Core.Bool.{Bool, true, false}
use native.Mathlib.Omega.{arith}

module _ {ℓ} {A : Type ℓ} (le : A → A → Bool) where
  unfoldable pub insert : A → List A → List A
  insert x [] = x ∷ []
  insert x (y ∷ l) = let rest = insert x l in if le x y then x ∷ y ∷ l else y ∷ rest

  unfoldable pub sort : List A → List A
  unfolding insert
  sort [] = []
  sort (x ∷ l) = insert x (sort l)

  -- Every entry comes before all that follow it.
  abbrev pub IsSorted : List A → Type 0
  IsSorted [] = Unit
  IsSorted (x ∷ l) = All (λ y. le x y ≡ true) l × IsSorted l

  insert-perm : (x : A) (l : List A) → Perm (insert x l) (x ∷ l)
  unfolding insert
  insert-perm x [] = Perm.refl (x ∷ [])
  insert-perm x (y ∷ l) = elim (Bool-cases (le x y)) [
    | inl h ↦ rw h (Perm.refl (x ∷ y ∷ l))
    | inr h ↦ rw h (Perm.trans (Perm.cons y (insert-perm x l)) (Perm.swap x y l))
  ]

  -- Sorting loses and adds nothing.
  pub sort-perm : (l : List A) → Perm (sort l) l
  unfolding sort
  sort-perm [] = Perm.refl []
  sort-perm (x ∷ l) = Perm.trans (insert-perm x (sort l)) (Perm.cons x (sort-perm l))

module _ {ℓ} {A : Type ℓ} (le : A → A → Bool) (total : (x y : A) → le x y ≡ false → le y x ≡ true)
    (trans : (x y z : A) → le x y ≡ true → le y z ≡ true → le x z ≡ true) where
  All-trans :
      (x y : A) (l : List A)
      → le x y ≡ true
      → All (λ z. le y z ≡ true) l
      → All (λ z. le x z ≡ true) l
  All-trans x y [] h a = tt
  All-trans x y (z ∷ l) h (p, a) = (trans x y z h p, All-trans x y l h a)

  All-insert : (P : A → Type 0) (x : A) (l : List A) → P x → All P l → All P (insert le x l)
  unfolding insert
  All-insert P x [] p a = (p, tt)
  All-insert P x (y ∷ l) p (q, a) = elim (Bool-cases (le x y)) [
    | inl h ↦ rw h (p, (q, a))
    | inr h ↦ rw h (q, All-insert P x l p a)
  ]

  insert-IsSorted : (x : A) (l : List A) → IsSorted le l → IsSorted le (insert le x l)
  unfolding insert
  insert-IsSorted x [] s = (tt, tt)
  insert-IsSorted x (y ∷ l) (a, s) = elim (Bool-cases (le x y)) [
    | inl h ↦ rw h ((h, All-trans x y l h a), (a, s))
    | inr h ↦ rw h (All-insert (λ z. le y z ≡ true) x l (total x y h) a, insert-IsSorted x l s)
  ]

  pub sort-IsSorted : (l : List A) → IsSorted le (sort le l)
  unfolding sort
  sort-IsSorted [] = tt
  sort-IsSorted (x ∷ l) = insert-IsSorted x (sort le l) (sort-IsSorted l)

module _ {ℓ} {A : Type ℓ} (le : A → A → Bool) where
  All-take : (P : A → Type 0) (n : ℕ) (l : List A) → All P l → All P (take n l)
  All-take P zero l a = tt
  All-take P (suc n) [] a = tt
  All-take P (suc n) (x ∷ l) (p, a) = (p, All-take P n l a)

  All-drop : (P : A → Type 0) (n : ℕ) (l : List A) → All P l → All P (drop n l)
  All-drop P zero l a = a
  All-drop P (suc n) [] a = tt
  All-drop P (suc n) (x ∷ l) (p, a) = All-drop P n l a

  pub take-IsSorted : (n : ℕ) (l : List A) → IsSorted le l → IsSorted le (take n l)
  take-IsSorted zero l s = tt
  take-IsSorted (suc n) [] s = tt
  take-IsSorted (suc n) (x ∷ l) (a, s) = (All-take (λ y. le x y ≡ true) n l a, take-IsSorted n l s)

  -- What a cut of a sorted list keeps comes before all that it leaves out.
  pub take_before_drop :
      (n : ℕ) (l : List A)
      → IsSorted le l
      → All (λ x. All (λ y. le x y ≡ true) (drop n l)) (take n l)
  take_before_drop zero l s = tt
  take_before_drop (suc n) [] s = tt
  take_before_drop (suc n) (x ∷ l) (a, s) =
      (All-drop (λ y. le x y ≡ true) n l a, take_before_drop n l s)

-- `sum(f(x) for x in xs)`
abbrev pub sum_by {ℓ} : {A : Type ℓ} → (A → ℕ) → List A → ℕ
sum_by f [] = 0
sum_by f (x ∷ l) = f x + sum_by f l

module _ {ℓ} {A : Type ℓ} (le : A → A → Bool) (f : A → ℕ) where
  sum_by-insert : (x : A) (l : List A) → sum_by f (insert le x l) ≡ f x + sum_by f l
  unfolding insert
  sum_by-insert x [] = refl
  sum_by-insert x (y ∷ l) = elim (Bool-cases (le x y)) [
    | inl h ↦ rw h
    | inr h ↦ rw h (omega (arith, sum_by-insert x l))
  ]

  pub sum_by-sort : (l : List A) → sum_by f (sort le l) ≡ sum_by f l
  unfolding sort
  sum_by-sort [] = refl
  sum_by-sort (x ∷ l) = omega (arith, sum_by-insert x (sort le l), sum_by-sort l)

  pub sum_by-take-le : (n : ℕ) (l : List A) → sum_by f (take n l) ≤ sum_by f l
  sum_by-take-le zero l = omega arith
  sum_by-take-le (suc n) [] = omega arith
  sum_by-take-le (suc n) (x ∷ l) = omega (arith, sum_by-take-le n l)

  -- A sum does not depend on the order.
  pub sum_by-perm : {l r : List A} → Perm l r → sum_by f l ≡ sum_by f r
  sum_by-perm {l} {r} p =
      folded l ∙ Perm.foldr-eq ℕ_set (λ x n. f x + n) (λ x y n. omega arith) p 0 ∙ sym (folded r)
    where
      folded : (l : List A) → sum_by f l ≡ foldr (λ x n. f x + n) 0 l
      folded [] = refl
      folded (x ∷ l) = ap (λ n. f x + n) (folded l)

length-sum {ℓ} : {A : Type ℓ} (l : List A) → length l ≡ sum_by (λ _. 1) l
length-sum [] = refl
length-sum (x ∷ l) = omega (arith, length-sum l)

-- Neither does the length.
pub length-perm {ℓ} : {A : Type ℓ} {l r : List A} → Perm l r → length l ≡ length r
length-perm {A = A} {l} {r} p =
    length-sum l ∙ sum_by-perm (λ _ _. true) (λ _. 1) p ∙ sym (length-sum r)
