-- ===== src/Base/Lists.antt =====
-- Lists measured by native numbers, tests on their elements, and predicates by recursion.
use Prim.Native.Nat.{ℕ, zero, suc, ◌+◌, ◌≤◌}
use mathlib.Core.Path.{◌≡◌, refl, ap, fun_ext}
use mathlib.Core.Logic.{inl, inr}
use mathlib.Core.Bool.{Bool, true, false, ◌||◌}
use mathlib.Core.List.{List, [], ◌∷◌, ◌++◌}
use native.Mathlib.Nat.{zero-add, suc-add}
use native.Mathlib.Omega.{arith}
use sync_bridge_platform.Base.Tests.{if◌then◌else◌, Bool-cases}

module _ {ℓ} {A : Type ℓ} where
  abbrev pub length : List A → ℕ
  length [] = 0
  length (x ∷ xs) = suc (length xs)

  -- `xs.filter(p)`
  abbrev pub keep : (A → Bool) → List A → List A
  keep p [] = []
  keep p (x ∷ xs) = let rest = keep p xs in if p x then x ∷ rest else rest

  -- `xs.some(p)`
  abbrev pub any : (A → Bool) → List A → Bool
  any p [] = false
  any p (x ∷ xs) = p x || any p xs

  abbrev pub take : ℕ → List A → List A
  take zero xs = []
  take (suc n) [] = []
  take (suc n) (x ∷ xs) = x ∷ take n xs

  abbrev pub drop : ℕ → List A → List A
  drop zero xs = xs
  drop (suc n) [] = []
  drop (suc n) (x ∷ xs) = drop n xs

  -- `orderBy: { createdAt: 'desc' }`, for rows that stand in order of creation.
  abbrev pub latest_first : List A → List A
  latest_first [] = []
  latest_first (x ∷ xs) = latest_first xs ++ x ∷ []

  pub length-append : (xs ys : List A) → length (xs ++ ys) ≡ length xs + length ys
  length-append [] ys = omega arith
  length-append (x ∷ xs) ys = omega (arith, length-append xs ys)

  pub length-latest_first : (xs : List A) → length (latest_first xs) ≡ length xs
  length-latest_first [] = refl
  length-latest_first (x ∷ xs) =
      omega (arith, length-append (latest_first xs) (x ∷ []), length-latest_first xs)

  take-nil : (n : ℕ) → take n [] ≡ []
  take-nil zero = refl
  take-nil (suc n) = refl

  -- A slice that is long enough is the whole list.
  pub take_whole : (rows : List A) (limit : ℕ) → length rows ≤ limit → take limit rows ≡ rows
  take_whole [] limit fits = take-nil limit
  take_whole (row ∷ rows) zero fits = absurd (omega (arith, fits))
  take_whole (row ∷ rows) (suc limit) fits = rw (take_whole rows limit (omega (arith, fits)))

  -- A slice and the one behind it.
  pub take-append-drop : (n k : ℕ) (xs : List A) → take n xs ++ take k (drop n xs) ≡ take (n + k) xs
  take-append-drop zero k xs = rw zero-add
  take-append-drop (suc n) k [] = simp take-nil
  take-append-drop (suc n) k (x ∷ xs) = rw (suc-add n k) (ap (◌∷◌ x) (take-append-drop n k xs))

  pub length-keep : (p : A → Bool) (xs : List A) → length (keep p xs) ≤ length xs
  length-keep p [] = omega arith
  length-keep p (x ∷ xs) = ground (arith, length-keep p xs)

module _ {ℓ κ} {A : Type ℓ} (P : A → Type κ) where
  abbrev pub All : List A → Type κ
  All [] = Unit
  All (x ∷ xs) = P x × All xs

  pub All-append : (xs ys : List A) → All xs → All ys → All (xs ++ ys)
  All-append [] ys h k = k
  All-append (x ∷ xs) ys (p, h) k = (p, All-append xs ys h k)

  pub All-keep : (p : A → Bool) (xs : List A) → All xs → All (keep p xs)
  All-keep p [] h = tt
  All-keep p (x ∷ xs) (q, h) = elim (Bool-cases (p x)) [
    | inl e ↦ rw e (q, All-keep p xs h)
    | inr e ↦ rw e (All-keep p xs h)
  ]

pub keep-All {ℓ} : {A : Type ℓ} (p : A → Bool) (xs : List A) → All (λ x. p x ≡ true) (keep p xs)
keep-All p [] = tt
keep-All p (x ∷ xs) = elim (Bool-cases (p x)) [
  | inl e ↦ rw e (e, keep-All p xs)
  | inr e ↦ rw e (keep-All p xs)
]

pub keep-true {ℓ} : {A : Type ℓ} (xs : List A) → keep (λ _. true) xs ≡ xs
keep-true [] = refl
keep-true (x ∷ xs) = rw (keep-true xs)

pub keep-ext {ℓ} :
    {A : Type ℓ} (p q : A → Bool) (xs : List A) → ((x : A) → p x ≡ q x) → keep p xs ≡ keep q xs
keep-ext p q xs h = ap (λ t. keep t xs) (fun_ext h)

pub keep-false {ℓ} :
    {A : Type ℓ} (p : A → Bool) (xs : List A) → ((x : A) → p x ≡ false) → keep p xs ≡ []
keep-false p [] h = refl
keep-false p (x ∷ xs) h = rw (h x) (keep-false p xs h)

pub keep-ext_of_All {ℓ} :
    {A : Type ℓ} (p q : A → Bool) (xs : List A) → All (λ x. p x ≡ q x) xs → keep p xs ≡ keep q xs
keep-ext_of_All p q [] h = refl
keep-ext_of_All p q (x ∷ xs) (e, h) = rw (e, keep-ext_of_All p q xs h)

pub All-mono {ℓ κ μ} :
    {A : Type ℓ} {P : A → Type κ} {Q : A → Type μ} (xs : List A)
    → ((a : A) → P a → Q a)
    → All P xs
    → All Q xs
All-mono [] f h = tt
All-mono (x ∷ xs) f (p, h) = (f x p, All-mono xs f h)
