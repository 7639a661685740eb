-- ===== src/IntegralMk/Median.antt =====
-- What stands at an index of a list that qsort has sorted.
use sem.Common.{
  ℕ, zero, suc, ◌+◌, ◌≤◌, ◌<◌, ◌≡◌, ◌≢◌, refl, ap, ◌∙◌, sym, Bool, true, false, some, List, [], ◌∷◌,
  ◌++◌, length, get_elem?, All, arith,
}
use sem.IntegralMk.Points.{Floating, one, double_cmp}

abbrev pub bit : Bool → ℕ
bit true = 1
bit false = 0

bit-le : (b : Bool) → bit b ≤ 1
bit-le true = omega arith
bit-le false = omega arith

-- The elements that pass a test.
abbrev pub count {ℓ} : {A : Type ℓ} → (A → Bool) → List A → ℕ
count p [] = 0
count p (x ∷ xs) = bit (p x) + count p xs

pub count-length {ℓ} : {A : Type ℓ} (xs : List A) → count (λ x. true) xs ≡ length xs
count-length [] = refl
count-length (x ∷ xs) = omega (arith, count-length xs)

count-none {ℓ} :
    {A : Type ℓ} (p : A → Bool) (xs : List A) → All (λ x. p x ≡ false) xs → count p xs ≡ 0
count-none p [] h = refl
count-none p (x ∷ xs) (hx, h) = omega (arith, ap bit hx, count-none p xs h)

pub count-append {ℓ} :
    {A : Type ℓ} (p : A → Bool) (xs ys : List A) → count p (xs ++ ys) ≡ count p xs + count p ys
count-append p [] ys = omega arith
count-append p (x ∷ xs) ys = omega (arith, count-append p xs ys)

pub count-le {ℓ} : {A : Type ℓ} (p : A → Bool) (xs : List A) → count p xs ≤ length xs
count-le p [] = omega arith
count-le p (x ∷ xs) = omega (arith, bit-le (p x), count-le p xs)

All-get {ℓ} :
    {A : Type ℓ} (P : A → Type 0) (xs : List A) (k : ℕ) (x : A)
    → All P xs
    → get_elem? xs k ≡ some x
    → P x
All-get P [] k x h e = absurd (cc)
All-get P (y ∷ xs) zero x (hy, h) e = (let q : y ≡ x = cc in rw (sym q) hy)
All-get P (y ∷ xs) (suc k) x (hy, h) e = All-get P xs k x h e

pub get_elem?-some {ℓ} :
    {A : Type ℓ} (xs : List A) (k : ℕ) → k < length xs → (x : A) × (get_elem? xs k ≡ some x)
get_elem?-some [] k h = absurd (omega (arith, h))
get_elem?-some (x ∷ xs) zero h = (x, refl)
get_elem?-some (x ∷ xs) (suc k) h = get_elem?-some xs k (omega (arith, h))

module _ {D : Type 0} (fl : Floating D) where
  -- Sorted, as `double_cmp` compares: no element is greater than a later one.
  abbrev pub IsSorted : List D → Type 0
  IsSorted [] = Unit {0}
  IsSorted (x ∷ xs) = All (λ y. double_cmp fl x y ≢ one) xs × IsSorted xs

  not_greater : (x y : D) → double_cmp fl x y ≢ one → fl.less y x ≡ false
  not_greater x y h = ground arith

  All-not_greater :
      (x : D) (ys : List D)
      → All (λ y. double_cmp fl x y ≢ one) ys
      → All (λ y. fl.less y x ≡ false) ys
  All-not_greater x [] h = tt
  All-not_greater x (y ∷ ys) (hy, h) = (not_greater x y hy, All-not_greater x ys h)

  -- What stands at an index of a sorted list has no more than the index below it, and no more than
  -- the rest above it.
  pub rank :
      (xs : List D) (k : ℕ) (med : D)
      → IsSorted xs
      → fl.less med med ≡ false
      → get_elem? xs k ≡ some med
      → (count (λ t. fl.less t med) xs ≤ k) × (count (λ t. fl.less med t) xs + k < length xs)
  rank [] k med h irr e = absurd (cc)
  rank (x ∷ xs) zero med (hx, h) irr e =
      let q : x ≡ med = cc in
      let a = count-none (λ t. fl.less t x) xs (All-not_greater x xs hx) in
      let b = count-le (λ t. fl.less med t) xs in
      let c : bit (fl.less x med) ≡ 0 = ap bit (ap (λ (y : D). fl.less y med) q ∙ irr) in
      let d : bit (fl.less med x) ≡ 0 = ap bit (ap (λ (y : D). fl.less med y) q ∙ irr) in
      let a' : count (λ t. fl.less t med) xs ≡ 0 =
        ap (λ (y : D). count (λ t. fl.less t y) xs) (sym q) ∙ a in
      (omega (arith, c, a'), omega (arith, d, b))
  rank (x ∷ xs) (suc k) med (hx, h) irr e =
      let (a, b) = rank xs k med h irr e in
      let c = All-get (λ y. double_cmp fl x y ≢ one) xs k med hx e in
      let d : bit (fl.less med x) ≡ 0 = ap bit (not_greater x med c) in
      (omega (arith, a, bit-le (fl.less x med)), omega (arith, b, d))
