-- ===== src/Common/Sorting.antt =====
-- Insertion sort by a Boolean order: what ORDER BY asks of the database.
use Prim.Native.Nat.{suc}
use mathlib.Core.Path.{◌≡◌, refl, ap, sym, ◌∙◌}
use mathlib.Core.Logic.{inl, inr}
use mathlib.Core.Bool.{Bool, true, false, ◌||◌}
use mathlib.Core.List.{List, [], ◌∷◌}
use native.Mathlib.Omega.{arith}
use ledger_ops_api.Common.Tests.{if◌then◌else◌, Bool-cases}
use ledger_ops_api.Common.Lists.{All, filter, any, length, All-map}

-- A row goes in front of the first one that it comes before, and of rows that are equal behind the
-- earlier ones.
module _ {ℓ} {A : Type ℓ} (before : A → A → Bool) where
  unfoldable pub insert_by : A → List A → List A
  insert_by x [] = x ∷ []
  insert_by x (y ∷ ys) = if before x y then x ∷ y ∷ ys else y ∷ insert_by x ys

  unfoldable pub sort_by : List A → List A
  unfolding insert_by
  sort_by [] = []
  sort_by (x ∷ xs) = insert_by x (sort_by xs)

  length-insert_by : (x : A) (xs : List A) → length (insert_by x xs) ≡ suc (length xs)
  unfolding insert_by
  length-insert_by x [] = refl
  length-insert_by x (y ∷ ys) = ground (arith, length-insert_by x ys)

  pub length-sort_by : (xs : List A) → length (sort_by xs) ≡ length xs
  unfolding sort_by
  length-sort_by [] = refl
  length-sort_by (x ∷ xs) = ground (arith, length-insert_by x (sort_by xs), length-sort_by xs)

  pub any-insert_by :
      (p : A → Bool) (x : A) (xs : List A) → any p (insert_by x xs) ≡ p x || any p xs
  unfolding insert_by
  any-insert_by p x [] = refl
  any-insert_by p x (y ∷ ys) = ground (arith, any-insert_by p x ys)

  pub any-sort_by : (p : A → Bool) (xs : List A) → any p (sort_by xs) ≡ any p xs
  unfolding sort_by
  any-sort_by p [] = refl
  any-sort_by p (x ∷ xs) = ground (arith, any-insert_by p x (sort_by xs), any-sort_by p xs)

  -- Each row comes before all that follow.
  abbrev pub IsSorted : List A → Type 0
  IsSorted [] = Unit
  IsSorted (x ∷ xs) = All (λ (y : A). before x y ≡ true) xs × IsSorted xs

module _ {ℓ κ} {A : Type ℓ} (before : A → A → Bool) (P : A → Type κ) where
  pub All-insert_by : (x : A) (xs : List A) → P x → All P xs → All P (insert_by before x xs)
  unfolding insert_by
  All-insert_by x [] h hs = (h, tt)
  All-insert_by x (y ∷ ys) h hs = elim (Bool-cases (before x y)) [
    | inl f ↦ rw f (h, hs)
    | inr b ↦ rw b (hs.0, All-insert_by x ys h hs.1)
  ]

  pub All-sort_by : (xs : List A) → All P xs → All P (sort_by before xs)
  unfolding sort_by
  All-sort_by [] hs = tt
  All-sort_by (x ∷ xs) hs = All-insert_by x (sort_by before xs) hs.0 (All-sort_by xs hs.1)

module _ {ℓ} {A : Type ℓ} (before : A → A → Bool)
    (chain : (x y z : A) → before x y ≡ true → before y z ≡ true → before x z ≡ true) where
  -- Of two rows of the list one comes before the other.
  abbrev pub Comparable : A → A → Type 0
  Comparable x y = before x y ≡ false → before y x ≡ true

  abbrev pub AllComparable : List A → Type 0
  AllComparable [] = Unit
  AllComparable (x ∷ xs) = All (Comparable x) xs × AllComparable xs

  All-after :
      (x y : A) (ys : List A)
      → before x y ≡ true
      → All (λ (z : A). before y z ≡ true) ys
      → All (λ (z : A). before x z ≡ true) ys
  All-after x y ys h =
      All-map (λ (z : A). before y z ≡ true) (λ (z : A). before x z ≡ true) (λ z. chain x y z h) ys

  insert_by-IsSorted :
      (x : A) (xs : List A)
      → All (Comparable x) xs
      → IsSorted before xs
      → IsSorted before (insert_by before x xs)
  unfolding insert_by
  insert_by-IsSorted x [] c s = (tt, tt)
  insert_by-IsSorted x (y ∷ ys) c s = elim (Bool-cases (before x y)) [
    | inl f ↦ rw f ((f, All-after x y ys f s.0), s)
    | inr b ↦ rw b (
      All-insert_by before (λ (z : A). before y z ≡ true) x ys (c.0 b) s.0,
      insert_by-IsSorted x ys c.1 s.1,
    )
  ]

  pub sort_by-IsSorted : (xs : List A) → AllComparable xs → IsSorted before (sort_by before xs)
  unfolding sort_by
  sort_by-IsSorted [] c = tt
  sort_by-IsSorted (x ∷ xs) c =
      insert_by-IsSorted x (sort_by before xs) (All-sort_by before (Comparable x) xs c.0)
        (sort_by-IsSorted xs c.1)

  -- A row that comes before all stands in front.
  insert_by_front :
      (x : A) (xs : List A) → All (λ (y : A). before x y ≡ true) xs → insert_by before x xs ≡ x ∷ xs
  unfolding insert_by
  insert_by_front x [] h = refl
  insert_by_front x (y ∷ ys) h = rw (h.0)

  All-filtered :
      (p : A → Bool) (x : A) (xs : List A)
      → All (λ (y : A). before x y ≡ true) xs
      → All (λ (y : A). before x y ≡ true) (filter p xs)
  All-filtered p x [] h = tt
  All-filtered p x (y ∷ ys) h = elim (Bool-cases (p y)) [
    | inl t ↦ rw t (h.0, All-filtered p x ys h.1)
    | inr f ↦ rw f (All-filtered p x ys h.1)
  ]

  filter-insert_by_out :
      (p : A → Bool) (x : A) (xs : List A)
      → p x ≡ false
      → filter p (insert_by before x xs) ≡ filter p xs
  unfolding insert_by
  filter-insert_by_out p x [] o = rw o
  filter-insert_by_out p x (y ∷ ys) o = ground (arith, filter-insert_by_out p x ys o)

  filter-insert_by :
      (p : A → Bool) (x : A) (xs : List A)
      → IsSorted before xs
      → p x ≡ true
      → filter p (insert_by before x xs) ≡ insert_by before x (filter p xs)
  unfolding insert_by
  filter-insert_by p x [] s i = rw i
  filter-insert_by p x (y ∷ ys) s i = elim (Bool-cases (before x y)) [
    | inl f ↦ elim (Bool-cases (p y)) [
      | inl t ↦ rw (f, i, t) (rw f)
      | inr n ↦
          rw (f, i, n)
            let a = All-after x y ys f s.0 in
              let e = insert_by_front x (filter p ys) (All-filtered p x ys a) in cc
    ]
    | inr b ↦ elim (Bool-cases (p y)) [
      | inl t ↦ rw (b, t) (rw b (ap (λ (zs : List A). y ∷ zs) (filter-insert_by p x ys s.1 i)))
      | inr n ↦ rw (b, n) (filter-insert_by p x ys s.1 i)
    ]
  ]

  -- Sorting what passes a filter is filtering what is sorted.
  pub sort_by-filter :
      (p : A → Bool) (xs : List A)
      → AllComparable xs
      → sort_by before (filter p xs) ≡ filter p (sort_by before xs)
  unfolding sort_by
  sort_by-filter p [] c = refl
  sort_by-filter p (x ∷ xs) c =
      let s = sort_by-IsSorted xs c.1 in
      elim (Bool-cases (p x)) [
        | inl i ↦ rw i (
            ap (insert_by before x) (sort_by-filter p xs c.1)
            ∙ sym (filter-insert_by p x (sort_by before xs) s i))
        | inr o ↦
            rw o (sort_by-filter p xs c.1 ∙ sym (filter-insert_by_out p x (sort_by before xs) o))
      ]
