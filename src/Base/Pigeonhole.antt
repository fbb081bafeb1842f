-- ===== src/Base/Pigeonhole.antt =====
-- Lists of numbers without repetition: a `BTreeSet` that only grows, as the list of what it holds.
use Prim.Native.Nat.{ℕ, zero, suc, ◌≤◌, ◌<◌}
use mathlib.Core.Path.{◌≡◌, refl}
use mathlib.Core.Logic.{inl, inr}
use mathlib.Core.Bool.{Bool, false, ◌||◌}
use mathlib.Core.List.{List, [], ◌∷◌}
use native.Mathlib.Omega.{arith}
use qq_analyzer.Base.Tests.{◌==◌, if◌then◌else◌, Bool-cases}
use qq_analyzer.Base.Lists.{length, All}

abbrev pub listed : ℕ → List ℕ → Bool
listed x [] = false
listed x (y ∷ ys) = x == y || listed x ys

abbrev pub Distinct : List ℕ → Type 0
Distinct [] = Unit
Distinct (x ∷ xs) = (listed x xs ≡ false) × Distinct xs

abbrev remove : ℕ → List ℕ → List ℕ
remove x [] = []
remove x (y ∷ ys) = if x == y then ys else y ∷ remove x ys

length-remove : (x : ℕ) (xs : List ℕ) → length xs ≤ suc (length (remove x xs))
length-remove x [] = omega arith
length-remove x (y ∷ ys) = ground (arith, length-remove x ys)

listed-remove : (x z : ℕ) (xs : List ℕ) → listed z xs ≡ false → listed z (remove x xs) ≡ false
listed-remove x z [] h = refl
listed-remove x z (y ∷ ys) h = ground (arith, listed-remove x z ys)

remove-Distinct : (x : ℕ) (xs : List ℕ) → Distinct xs → Distinct (remove x xs)
remove-Distinct x [] h = tt
remove-Distinct x (y ∷ ys) h = elim (Bool-cases (x == y)) [
  | inl same ↦ rw same h.1
  | inr other ↦ rw other (listed-remove x y ys h.0, remove-Distinct x ys h.1)
]

below_last :
    (n : ℕ) (xs : List ℕ) → listed n xs ≡ false → All (λ x. x < suc n) xs → All (λ x. x < n) xs
below_last n [] out h = tt
below_last n (x ∷ xs) out h = (ground arith, below_last n xs (ground arith) h.1)

remove_below :
    (n : ℕ) (xs : List ℕ) → Distinct xs → All (λ x. x < suc n) xs → All (λ x. x < n) (remove n xs)
remove_below n [] d h = tt
remove_below n (x ∷ xs) d h = elim (Bool-cases (n == x)) [
  | inl same ↦ rw same (below_last n xs (ground (arith, d.0)) h.1)
  | inr other ↦ rw other (ground arith, remove_below n xs d.1 h.1)
]

-- A list of distinct numbers below `n` has at most `n` of them.
pub pigeonhole : (n : ℕ) (xs : List ℕ) → Distinct xs → All (λ x. x < n) xs → length xs ≤ n
pigeonhole zero [] d h = omega arith
pigeonhole zero (x ∷ xs) d h = absurd (omega (arith, h.0))
pigeonhole (suc n) xs d h = omega (
  arith,
  length-remove n xs,
  pigeonhole n (remove n xs) (remove-Distinct n xs d) (remove_below n xs d h),
)
