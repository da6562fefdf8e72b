-- ===== src/Prelude/Sort.antt =====
-- `sort.Slice` of Go's standard library, which the program calls: a permutation of the slice in
-- which no element is less than one before it, where `less` is a strict weak order. It is not
-- stable, so nothing more is said of equal elements.
pub mod Insertion
use mathlib.Core.Path.{◌≡◌}
use mathlib.Core.Bool.{Bool, true, false}
use mathlib.Core.List.{List, Perm, Pairwise}

pub record IsStrictWeak (A : Type 0) (less : A → A → Bool) : Type 0 where
  pub asym : (x y : A) → less x y ≡ true → less y x ≡ false
  pub neg_trans : (x y z : A) → less y x ≡ false → less z y ≡ false → less z x ≡ false

-- No element is less than one before it.
abbrev pub IsSorted : {A : Type 0} → (A → A → Bool) → List A → Type 0
IsSorted less = Pairwise (λ x y. less y x ≡ false)

pub record Sorter : Type 1 where
  pub sort_slice : (A : Type 0) → (A → A → Bool) → List A → List A
  pub sort_perm : (A : Type 0) (less : A → A → Bool) (xs : List A) → Perm (sort_slice A less xs) xs
  pub sort_sorted :
      (A : Type 0) (less : A → A → Bool) (xs : List A)
      → IsStrictWeak A less
      → IsSorted less (sort_slice A less xs)
