-- ===== src/IntegralMk/Instance.antt =====
-- Numbers and a sort to run the program of the integral with: whole numbers, of which the last three
-- digits are printed, whole numbers moved by 1000, so that some are below zero, and a sort by
-- insertion.
use sem.Common.{
  ℕ, ◌+◌, ◌-◌, ◌*◌, ◌/◌, ◌%◌, ◌≤◌, ◌<◌, ◌≡◌, ◌≢◌, refl, Bool, true, false, List, [], ◌∷◌, ltb,
  decimal, decimal-length, Bool-cases, inl, inr, ◌⊎◌, length, All, arith,
}
use sem.IntegralMk.Points.{ℤ, pos, negsuc, Floating, Comparison, one, minus_one, nought, double_cmp}
use sem.IntegralMk.Median.{bit, count, IsSorted}

abbrev whole : ℤ → ℕ
whole (pos n) = n
whole (negsuc n) = 0

abbrev pub naturals : Floating ℕ
naturals = record {
  of_int = whole;
  add = λ a b. a + b;
  sub = λ a b. a - b;
  mul = λ a b. a * b;
  div = λ a b. a / b;
  sqrt = λ a. a;
  less = ltb;
  print5 = λ a. decimal (a % 1000);
}

abbrev pub shifted : Floating ℕ
shifted = record {
  of_int = λ n. whole n + 1000;
  add = λ a b. a + b - 1000;
  sub = λ a b. a + 1000 - b;
  mul = λ a b. (a - 1000) * (b - 1000) + 1000;
  div = λ a b. (a - 1000) / (b - 1000) + 1000;
  sqrt = λ a. a;
  less = ltb;
  print5 = λ a. decimal (a % 1000);
}

pub naturals_short : (x : ℕ) → length (naturals.print5 x) < 80
naturals_short x = omega (arith, decimal-length 2 (x % 1000) (omega arith))

pub naturals_irreflexive : (x : ℕ) → naturals.less x x ≡ false
naturals_irreflexive x = ground arith

abbrev insert : (ℕ → ℕ → Comparison) → ℕ → List ℕ → List ℕ
insert cmp x [] = x ∷ []
insert cmp x (y ∷ ys) = elim (cmp x y) [
  | one ↦ y ∷ insert cmp x ys
  | minus_one ↦ x ∷ y ∷ ys
  | nought ↦ x ∷ y ∷ ys
]

abbrev pub insertion_sort : (ℕ → ℕ → Comparison) → List ℕ → List ℕ
insertion_sort cmp [] = []
insertion_sort cmp (x ∷ xs) = insert cmp x (insertion_sort cmp xs)

count-insert :
    (cmp : ℕ → ℕ → Comparison) (p : ℕ → Bool) (x : ℕ) (ys : List ℕ)
    → count p (insert cmp x ys) ≡ bit (p x) + count p ys
count-insert cmp p x [] = refl
count-insert cmp p x (y ∷ ys) = placed (cmp x y) (count-insert cmp p x ys)
  where
    placed :
        (c : Comparison)
        → count p (insert cmp x ys) ≡ bit (p x) + count p ys
        → count p
            (elim c [ one ↦ y ∷ insert cmp x ys | minus_one ↦ x ∷ y ∷ ys | nought ↦ x ∷ y ∷ ys ])
          ≡ bit (p x) + (bit (p y) + count p ys)
    placed one h = omega (arith, h)
    placed minus_one h = refl
    placed nought h = refl

pub count-insertion_sort :
    (cmp : ℕ → ℕ → Comparison) (p : ℕ → Bool) (xs : List ℕ)
    → count p (insertion_sort cmp xs) ≡ count p xs
count-insertion_sort cmp p [] = refl
count-insertion_sort cmp p (x ∷ xs) =
    omega (arith, count-insert cmp p x (insertion_sort cmp xs), count-insertion_sort cmp p xs)

abbrev IsInOrder : ℕ → ℕ → Type 0
IsInOrder x y = double_cmp naturals x y ≢ one

in_order : (x y : ℕ) → x ≤ y → IsInOrder x y
in_order x y h = let e : ltb y x ≡ false = ground arith in rw e (ground arith)

not_above : (x y : ℕ) → IsInOrder x y → x ≤ y
not_above x y h = ground arith

still-IsInOrder :
    (w x : ℕ) (ys : List ℕ)
    → w ≤ x
    → All (IsInOrder w) ys
    → All (IsInOrder w) (insert (double_cmp naturals) x ys)
still-IsInOrder w x [] h t = (in_order w x h, tt)
still-IsInOrder w x (y ∷ ys) h (hy, t) = elim (Bool-cases (ltb y x)) [
  | inl e ↦ rw e (hy, still-IsInOrder w x ys h t)
  | inr e ↦ rw e (ground arith)
]

below-All : (x y : ℕ) (ys : List ℕ) → x ≤ y → All (IsInOrder y) ys → All (IsInOrder x) ys
below-All x y [] h t = tt
below-All x y (z ∷ ys) h (hz, t) =
    (in_order x z (omega (arith, not_above y z hz)), below-All x y ys h t)

insert-IsSorted :
    (x : ℕ) (ys : List ℕ)
    → IsSorted naturals ys
    → IsSorted naturals (insert (double_cmp naturals) x ys)
insert-IsSorted x [] h = (tt, tt)
insert-IsSorted x (y ∷ ys) (hy, h) = elim (Bool-cases (ltb y x)) [
  | inl e ↦ rw e (still-IsInOrder y x ys (ground arith) hy, insert-IsSorted x ys h)
  | inr e ↦
      (let le : x ≤ y = ground arith in
        let both : IsSorted naturals (x ∷ y ∷ ys) =
          ((in_order x y le, below-All x y ys le hy), (hy, h)) in
        placed e (Bool-cases (ltb x y)) both)
]
  where
    placed :
        ltb y x ≡ false
        → (ltb x y ≡ true) ⊎ (ltb x y ≡ false)
        → IsSorted naturals (x ∷ y ∷ ys)
        → IsSorted naturals (insert (double_cmp naturals) x (y ∷ ys))
    placed e (inl f) s = rw (e, f) s
    placed e (inr f) s = rw (e, f) s

pub insertion_sort-IsSorted :
    (xs : List ℕ) → IsSorted naturals (insertion_sort (double_cmp naturals) xs)
insertion_sort-IsSorted [] = tt
insertion_sort-IsSorted (x ∷ xs) =
    insert-IsSorted x (insertion_sort (double_cmp naturals) xs) (insertion_sort-IsSorted xs)
