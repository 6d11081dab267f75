-- ===== src/Prelude/Lists.antt =====
-- Lists measured by native numbers, under the library's names, and searches by Boolean tests.
use Prim.Native.Nat.{ℕ, zero, suc, ◌+◌, ◌-◌, ◌≤◌, min}
use mathlib.Core.Path.{◌≡◌, refl, ap}
use mathlib.Core.Logic.{◌≢◌, ◌↔◌, ◌⊎◌, inl, inr}
use mathlib.Core.Bool.{Bool, true, false, ◌||◌}
use mathlib.Core.List.{List, [], ◌∷◌, ◌++◌, Mem, mem-cons, not-mem-nil}
use mathlib.Core.HLevel.{⊥_prop}
use mathlib.Core.Logic.Or
use mathlib.Core.Option.{Option, none, some}
use native.Mathlib.Omega.{arith}
use honeywatch.Prelude.Tests.{Bool-cases, if◌then◌else◌}

module _ {ℓ} {A : Type ℓ} where
  abbrev pub length : List A → ℕ
  length [] = 0
  length (x ∷ xs) = suc (length xs)

  abbrev pub take : ℕ → List A → List A
  take zero xs = []
  take (suc n) [] = []
  take (suc n) (x ∷ xs) = x ∷ take n xs

  abbrev pub drop : ℕ → List A → List A
  drop zero xs = xs
  drop (suc n) [] = []
  drop (suc n) (x ∷ xs) = drop n xs

  -- `b"".join(xs)`
  abbrev pub flatten : List (List A) → List A
  flatten [] = []
  flatten (x ∷ xs) = x ++ flatten xs

  -- `not xs`
  abbrev pub is_empty : List A → Bool
  is_empty [] = true
  is_empty (_ ∷ _) = false

  -- `any(p(x) for x in xs)`
  abbrev pub any : (A → Bool) → List A → Bool
  any p [] = false
  any p (x ∷ xs) = p x || any p xs

  -- `[x for x in xs if p(x)]`
  abbrev pub filter : (A → Bool) → List A → List A
  filter p [] = []
  filter p (x ∷ xs) = let rest = filter p xs in if p x then x ∷ rest else rest

  pub length-append : (xs ys : List A) → length (xs ++ ys) ≡ length xs + length ys
  length-append [] ys = omega arith
  length-append (x ∷ xs) ys = omega (arith, length-append xs ys)

  pub length-take : (n : ℕ) (xs : List A) → length (take n xs) ≡ min n (length xs)
  length-take zero xs = omega arith
  length-take (suc n) [] = omega arith
  length-take (suc n) (x ∷ xs) = omega (arith, length-take n xs)

  pub length-drop : (n : ℕ) (xs : List A) → length (drop n xs) ≡ length xs - n
  length-drop zero xs = omega arith
  length-drop (suc n) [] = omega arith
  length-drop (suc n) (x ∷ xs) = omega (arith, length-drop n xs)

  pub length-filter-le : (p : A → Bool) (xs : List A) → length (filter p xs) ≤ length xs
  length-filter-le p [] = omega arith
  length-filter-le p (x ∷ xs) = ground (arith, length-filter-le p xs)

  pub take-append-drop : (n : ℕ) (xs : List A) → take n xs ++ drop n xs ≡ xs
  take-append-drop zero xs = refl
  take-append-drop (suc n) [] = refl
  take-append-drop (suc n) (x ∷ xs) = ap (λ l. x ∷ l) (take-append-drop n xs)

module _ {ℓ} {A : Type ℓ} where
  -- Two cuts in a row are one.
  pub take-more : (m n : ℕ) (xs : List A) → take m xs ++ take n (drop m xs) ≡ take (m + n) xs
  take-more zero n xs = let k : 0 + n ≡ n = omega arith in rw k
  take-more (suc m) n [] = let k : suc m + n ≡ suc (m + n) = omega arith in rw k (take-nil n)
    where
      take-nil : (n : ℕ) → take {A = A} n [] ≡ []
      take-nil zero = refl
      take-nil (suc n) = refl
  take-more (suc m) n (x ∷ xs) =
      let k : suc m + n ≡ suc (m + n) = omega arith in rw k (ap (λ l. x ∷ l) (take-more m n xs))

  pub take_all : (n : ℕ) (xs : List A) → length xs ≤ n → take n xs ≡ xs
  take_all zero [] h = refl
  take_all zero (x ∷ xs) h = absurd (omega arith)
  take_all (suc n) [] h = refl
  take_all (suc n) (x ∷ xs) h = ap (λ l. x ∷ l) (take_all n xs (omega arith))

module _ {ℓ κ} {A : Type ℓ} (P : A → Type κ) where
  abbrev pub All : List A → Type κ
  All [] = Unit
  All (x ∷ xs) = P x × All xs

  pub All-append : (xs ys : List A) → All xs → All ys → All (xs ++ ys)
  All-append [] ys h k = k
  All-append (x ∷ xs) ys (p, h) k = (p, All-append xs ys h k)

-- Some element of the list satisfies the predicate.
module _ {ℓ} {A : Type ℓ} (P : A → Type 0) where
  abbrev pub Exists : List A → Type 0
  Exists [] = ⊥
  Exists (x ∷ xs) = P x ⊎ Exists xs

pub Exists-map {ℓ} :
    {A : Type ℓ} (P Q : A → Type 0) (xs : List A)
    → ((x : A) → P x → Q x)
    → Exists P xs
    → Exists Q xs
Exists-map P Q [] f h = absurd h
Exists-map P Q (x ∷ xs) f (inl p) = inl (f x p)
Exists-map P Q (x ∷ xs) f (inr h) = inr (Exists-map P Q xs f h)

module _ {ℓ} {A : Type ℓ} (p : A → Bool) where
  pub any_iff : (xs : List A) → (any p xs ≡ true) ↔ Exists (λ x. p x ≡ true) xs
  any_iff [] = (λ e. cc, λ h. absurd h)
  any_iff (x ∷ xs) = ground (arith, any_iff xs)

  pub any_append : (xs ys : List A) → any p (xs ++ ys) ≡ (any p xs || any p ys)
  any_append [] ys = refl
  any_append (x ∷ xs) ys = ground (arith, any_append xs ys)

module _ {ℓ} {A : Type ℓ} where
  pub filter-append :
      (p : A → Bool) (xs ys : List A) → filter p (xs ++ ys) ≡ filter p xs ++ filter p ys
  filter-append p [] ys = refl
  filter-append p (x ∷ xs) ys = ground (arith, filter-append p xs ys)

  -- A wider test before another makes no difference.
  pub filter-filter :
      (p q : A → Bool) (xs : List A)
      → ((x : A) → p x ≡ true → q x ≡ true)
      → filter p (filter q xs) ≡ filter p xs
  filter-filter p q [] h = refl
  filter-filter p q (x ∷ xs) h = ground (arith, filter-filter p q xs h, h x)

pub All-filter {ℓ κ} :
    {A : Type ℓ} (P : A → Type κ) (p : A → Bool) (xs : List A) → All P xs → All P (filter p xs)
All-filter P p [] h = tt
All-filter P p (x ∷ xs) (k, h) = elim (Bool-cases (p x)) [
  | inl e ↦ rw e (k, All-filter P p xs h)
  | inr e ↦ rw e (All-filter P p xs h)
]

-- `xs[n]`, where there is one
abbrev pub get_elem? {ℓ} : {A : Type ℓ} → List A → ℕ → Option A
get_elem? [] n = none
get_elem? (x ∷ xs) zero = some x
get_elem? (x ∷ xs) (suc n) = get_elem? xs n

-- `n` numbers from `i` on
abbrev pub range_from : ℕ → ℕ → List ℕ
range_from i zero = []
range_from i (suc n) = i ∷ range_from (suc i) n

module _ {ℓ} {A : Type ℓ} where
  -- Before and after the first of a separator, equal lists have equal parts.
  pub split_first :
      (x : A) (a b c d : List A)
      → All (λ y. y ≢ x) a
      → All (λ y. y ≢ x) c
      → a ++ x ∷ b ≡ c ++ x ∷ d
      → (a ≡ c) × (b ≡ d)
  split_first x [] b [] d h k e = (refl, cc)
  split_first x [] b (y ∷ c) d h k e = absurd (k.0 (cc))
  split_first x (y ∷ a) b [] d h k e = absurd (h.0 (cc))
  split_first x (y ∷ a) b (z ∷ c) d h k e =
      let (front, back) = split_first x a b c d h.1 k.1 (cc) in (cc, back)

  pub append-cancel : (p a b : List A) → p ++ a ≡ p ++ b → a ≡ b
  append-cancel [] a b e = e
  append-cancel (x ∷ p) a b e = append-cancel p a b (cc)

  -- what differs from every element is no element
  pub not_mem : (a : A) (l : List A) → All (λ x. a ≢ x) l → ¬ Mem a l
  not_mem a [] h m = not-mem-nil m
  not_mem a (x ∷ l) h m = Or.elim ⊥_prop (mem-cons.0 m) h.0 (not_mem a l h.1)
