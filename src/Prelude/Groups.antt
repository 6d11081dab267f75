-- ===== src/Prelude/Groups.antt =====
-- Lists without repetition, and lists grouped by a key, for any decidable equality of the keys.
use Prim.Native.Nat.{ℕ, ◌+◌, ◌≤◌, ◌<◌}
use mathlib.Core.Path.{◌≡◌, refl, sym, ap, ◌∙◌}
use mathlib.Core.Logic.{◌↔◌, inl, inr}
use mathlib.Core.Bool.{Bool, true, false, not}
use mathlib.Core.List.{List, [], ◌∷◌, map}
use native.Mathlib.Omega.{arith}
use honeywatch.Prelude.Tests.{if◌then◌else◌, Bool-cases}
use honeywatch.Prelude.Lists.{length, filter, any, length-filter-le}
use honeywatch.Prelude.Sort.{sum_by}

module _ {K : Type 0} (eq : K → K → Bool) where
  abbrev pub contains : K → List K → Bool
  contains x xs = any (eq x) xs

  abbrev pub distinct : List K → List K
  distinct [] = []
  distinct (x ∷ xs) = let rest = distinct xs in if contains x xs then rest else x ∷ rest

  -- how often the key is listed
  abbrev pub count : K → List K → ℕ
  count x = sum_by (λ y. if eq x y then 1 else 0)

  abbrev pub group : {R : Type 0} → (R → K) → K → List R → List R
  group key k rows = filter (λ r. eq (key r) k) rows

  module _ (decides : (x y : K) → (eq x y ≡ true) ↔ (x ≡ y)) where
    pub count-distinct :
        (x : K) (l : List K) → count x (distinct l) ≡ (if contains x l then 1 else 0)
    count-distinct x [] = refl
    count-distinct x (y ∷ l) =
        let same : eq x y ≡ true → contains x l ≡ contains y l =
          λ h. ap (λ z. contains z l) ((decides x y).0 h) in
        elim (Bool-cases (contains y l)) [
          | inl h ↦ rw h (ground (arith, count-distinct x l, same))
          | inr h ↦ rw h (ground (arith, count-distinct x l, same))
        ]

  sum_by-zero : {A : Type 0} (l : List A) → sum_by (λ _. 0) l ≡ 0
  sum_by-zero [] = refl
  sum_by-zero (a ∷ l) = omega (arith, sum_by-zero l)

  module _ {R : Type 0} (key : R → K) where
    group-cons :
        (r : R) (rows : List R) (ks : List K)
        → sum_by (λ k. length (group key k (r ∷ rows))) ks
          ≡ count (key r) ks + sum_by (λ k. length (group key k rows)) ks
    group-cons r rows [] = omega arith
    group-cons r rows (k ∷ ks) = elim (Bool-cases (eq (key r) k)) [
      | inl h ↦ rw h (omega (arith, group-cons r rows ks))
      | inr h ↦ rw h (omega (arith, group-cons r rows ks))
    ]

    -- The sizes of the groups of some keys add up to how often the rows' keys are among them.
    sum_by-group :
        (rows : List R) (ks : List K)
        → sum_by (λ k. length (group key k rows)) ks ≡ sum_by (λ r. count (key r) ks) rows
    sum_by-group [] ks = sum_by-zero ks
    sum_by-group (r ∷ rows) ks = omega (arith, group-cons r rows ks, sum_by-group rows ks)

  module _ {R : Type 0} (key : R → K) (decides : (x y : K) → (eq x y ≡ true) ↔ (x ≡ y)) where
    contains-head : (r : R) (rows : List R) → contains (key r) (map key (r ∷ rows)) ≡ true
    contains-head r rows = rw ((decides (key r) (key r)).1 refl)

    counted_once :
        (l : List K) (rows : List R)
        → ((x : K) → contains x (map key rows) ≡ true → contains x l ≡ true)
        → sum_by (λ r. count (key r) (distinct l)) rows ≡ length rows
    counted_once l [] h = refl
    counted_once l (r ∷ rows) h =
        let first : contains (key r) l ≡ true = h (key r) (contains-head r rows) in
        rw (count-distinct decides (key r) l, first)
          (omega (arith, counted_once l rows (λ x c. h x (ground arith))))

    -- The groups of all keys that occur take in every row once.
    pub sum_by-groups :
        (rows : List R)
        → sum_by (λ k. length (group key k rows)) (distinct (map key rows)) ≡ length rows
    sum_by-groups rows =
        sum_by-group key rows (distinct (map key rows))
        ∙ counted_once (map key rows) rows (λ x c. c)

    weighted-cons :
        (p : K → Bool) (r : R) (rows : List R) (ks : List K)
        → sum_by (λ k. if p k then length (group key k (r ∷ rows)) else 0) ks
          ≡ (if p (key r) then count (key r) ks else 0)
            + sum_by (λ k. if p k then length (group key k rows) else 0) ks
    weighted-cons p r rows [] = ground arith
    weighted-cons p r rows (k ∷ ks) =
        let same : eq (key r) k ≡ true → p (key r) ≡ p k = λ h. ap p ((decides (key r) k).0 h) in
        elim (Bool-cases (eq (key r) k)) [
          | inl h ↦ rw h (ground (arith, same h, weighted-cons p r rows ks))
          | inr h ↦ rw h (ground (arith, weighted-cons p r rows ks))
        ]

    weighted :
        (p : K → Bool) (rows : List R) (ks : List K)
        → sum_by (λ k. if p k then length (group key k rows) else 0) ks
          ≡ sum_by (λ r. if p (key r) then count (key r) ks else 0) rows
    weighted p [] [] = refl
    weighted p [] (k ∷ ks) = ground (arith, weighted p [] ks)
    weighted p (r ∷ rows) ks = omega (arith, weighted-cons p r rows ks, weighted p rows ks)

    weighted_once :
        (p : K → Bool) (l : List K) (rows : List R)
        → ((x : K) → contains x (map key rows) ≡ true → contains x l ≡ true)
        → sum_by (λ r. if p (key r) then count (key r) (distinct l) else 0) rows
          ≡ length (filter (λ r. p (key r)) rows)
    weighted_once p l [] h = refl
    weighted_once p l (r ∷ rows) h =
        let first : contains (key r) l ≡ true = h (key r) (contains-head r rows) in
        rw (count-distinct decides (key r) l, first)
          (ground (arith, weighted_once p l rows (λ x c. h x (ground arith))))

    -- The groups of the keys that pass a test take in every row whose key passes it once.
    pub sum_by-groups_test :
        (p : K → Bool) (rows : List R)
        → sum_by (λ k. if p k then length (group key k rows) else 0) (distinct (map key rows))
          ≡ length (filter (λ r. p (key r)) rows)
    sum_by-groups_test p rows =
        weighted p rows (distinct (map key rows)) ∙ weighted_once p (map key rows) rows (λ x c. c)

module _ {K : Type 0} (eq : K → K → Bool) (decides : (x y : K) → (eq x y ≡ true) ↔ (x ≡ y)) where
  abbrev without : K → List K → List K
  without k xs = filter (λ x. not (eq k x)) xs

  length-without :
      (k : K) (xs : List K) → contains eq k xs ≡ true → length (without k xs) < length xs
  length-without k [] h = cc
  length-without k (x ∷ xs) h = elim (Bool-cases (eq k x)) [
    | inl e ↦ rw e (omega (arith, length-filter-le (λ x. not (eq k x)) xs))
    | inr e ↦ rw e (ground (arith, length-without k xs))
  ]

  contains-without :
      (j k : K) (xs : List K) → eq j k ≡ false → contains eq j (without k xs) ≡ contains eq j xs
  contains-without j k [] h = refl
  contains-without j k (x ∷ xs) h = ground (
    arith,
    contains-without j k xs,
    decides j x,
    decides k x,
    decides j k,
    λ (e : j ≡ x) (f : k ≡ x). e ∙ sym f,
  )

  length-distinct-le : (xs : List K) → length (distinct eq xs) ≤ length xs
  length-distinct-le [] = omega arith
  length-distinct-le (x ∷ xs) = ground (arith, length-distinct-le xs)

  distinct-cons :
      (x : K) (xs : List K)
      → distinct eq (x ∷ xs) ≡ x ∷ xs
      → (contains eq x xs ≡ false) × (distinct eq xs ≡ xs)
  distinct-cons x xs d = elim (Bool-cases (contains eq x xs)) [
    | inl e ↦
        let shorter : distinct eq xs ≡ x ∷ xs = rw e at d in
        absurd (omega (arith, ap length shorter, length-distinct-le xs))
    | inr e ↦ (e, cc (rw e at d))
  ]

  -- A list without repetition is no longer than another that has all its elements.
  length-le_of_contains :
      (xs ys : List K)
      → distinct eq xs ≡ xs
      → ((k : K) → contains eq k xs ≡ true → contains eq k ys ≡ true)
      → length xs ≤ length ys
  length-le_of_contains [] ys d h = omega arith
  length-le_of_contains (x ∷ xs) ys d h =
      let (fresh, rest) = distinct-cons x xs d in
      let self : eq x x ≡ true = (decides x x).1 refl in
      let first : contains eq x ys ≡ true = h x (rw self) in
      let other : (k : K) → contains eq k xs ≡ true → contains eq k (without x ys) ≡ true = λ k m.
        elim (Bool-cases (eq k x)) [
          | inl e ↦ cc (ap (λ z. contains eq z xs) ((decides k x).0 e))
          | inr e ↦ contains-without k x ys e ∙ h k (rw e m)
        ] in
      omega (arith, length-without x ys first, length-le_of_contains xs (without x ys) rest other)

  pub contains-distinct : (k : K) (xs : List K) → contains eq k (distinct eq xs) ≡ contains eq k xs
  contains-distinct k [] = refl
  contains-distinct k (x ∷ xs) =
      let same : eq k x ≡ true → contains eq k xs ≡ contains eq x xs =
        λ h. ap (λ z. contains eq z xs) ((decides k x).0 h) in
      elim (Bool-cases (contains eq x xs)) [
        | inl h ↦ rw h (ground (arith, contains-distinct k xs, same))
        | inr h ↦ rw h (ground (arith, contains-distinct k xs))
      ]

  pub distinct_idem : (xs : List K) → distinct eq (distinct eq xs) ≡ distinct eq xs
  distinct_idem [] = refl
  distinct_idem (x ∷ xs) = elim (Bool-cases (contains eq x xs)) [
    | inl h ↦ rw h (distinct_idem xs)
    | inr h ↦ rw (h, contains-distinct x xs, h) (ap (λ l. x ∷ l) (distinct_idem xs))
  ]

  -- Two lists with the same elements have as many different ones.
  pub length-distinct_of_same :
      (xs ys : List K)
      → distinct eq xs ≡ xs
      → ((k : K) → contains eq k xs ≡ contains eq k ys)
      → length xs ≡ length (distinct eq ys)
  length-distinct_of_same xs ys d h = omega (
    arith,
    length-le_of_contains xs (distinct eq ys) d (λ k m. contains-distinct k ys ∙ (sym (h k) ∙ m)),
    length-le_of_contains (distinct eq ys) xs (distinct_idem ys)
        (λ k m. h k ∙ (sym (contains-distinct k ys) ∙ m)),
  )
