-- ===== src/Prelude/Sort/Insertion.antt =====
-- A sort that meets the contract of `sort.Slice`, for the runs at concrete data.
use mathlib.Core.Path.{◌≡◌}
use mathlib.Core.Bool.{Bool, false}
use mathlib.Core.Bool.{Bool-set}
use mathlib.Core.List.{List, [], ◌∷◌, Mem, Perm, Pairwise, forall_mem-cons, not-mem-nil}
use mathlib.Core.List.Perm
use mathlib.Core.Logic.{inl, inr}
use nara.Prelude.Tests.{if◌then◌else◌, Bool-cases}
use nara.Prelude.Sort.{IsStrictWeak, IsSorted, Sorter}

module _ {A : Type 0} (less : A → A → Bool) where
  unfoldable pub insert_sorted : A → List A → List A
  insert_sorted a [] = a ∷ []
  insert_sorted a (x ∷ xs) = if less x a then x ∷ insert_sorted a xs else a ∷ x ∷ xs

  unfoldable pub insertion_sort : List A → List A
  unfolding insert_sorted
  insertion_sort [] = []
  insertion_sort (x ∷ xs) = insert_sorted x (insertion_sort xs)

  insert_sorted-perm : (a : A) (xs : List A) → Perm (insert_sorted a xs) (a ∷ xs)
  unfolding insert_sorted
  insert_sorted-perm a [] = Perm.rfl
  insert_sorted-perm a (x ∷ xs) = elim (Bool-cases (less x a)) [
    | inl e ↦ rw e (Perm.trans (Perm.cons x (insert_sorted-perm a xs)) (Perm.swap a x xs))
    | inr e ↦ rw e Perm.rfl
  ]

  pub insertion_sort-perm : (xs : List A) → Perm (insertion_sort xs) xs
  unfolding insertion_sort
  insertion_sort-perm [] = Perm.rfl
  insertion_sort-perm (x ∷ xs) =
      Perm.trans (insert_sorted-perm x (insertion_sort xs)) (Perm.cons x (insertion_sort-perm xs))

  module _ (weak : IsStrictWeak A less) where
    abbrev IsLeast : A → List A → Type 0
    IsLeast a xs = (y : A) → Mem y xs → less y a ≡ false

    IsLeast-cons : (a x : A) (xs : List A) → less x a ≡ false → IsLeast x xs → IsLeast a (x ∷ xs)
    IsLeast-cons a x xs h l =
        (forall_mem-cons (λ y. Bool-set (less y a) false)).1
          (h, λ y m. weak.neg_trans a x y h (l y m))

    insert_sorted-IsSorted :
        (a : A) (xs : List A) → IsSorted less xs → IsSorted less (insert_sorted a xs)
    unfolding insert_sorted
    insert_sorted-IsSorted a [] s = Pairwise.cons (λ y m. absurd (not-mem-nil m)) Pairwise.nil
    insert_sorted-IsSorted a (x ∷ xs) (Pairwise.cons l s) = elim (Bool-cases (less x a)) [
      | inl e ↦ rw e (
          Pairwise.cons
            (λ y m.
              (forall_mem-cons (λ z. Bool-set (less z x) false)).1 (weak.asym x a e, l) y
                ((Perm.mem_iff (insert_sorted-perm a xs)).0 m))
            (insert_sorted-IsSorted a xs s))
      | inr e ↦ rw e (Pairwise.cons (IsLeast-cons a x xs e l) (Pairwise.cons l s))
    ]

    pub insertion_sort-IsSorted : (xs : List A) → IsSorted less (insertion_sort xs)
    unfolding insertion_sort
    insertion_sort-IsSorted [] = Pairwise.nil
    insertion_sort-IsSorted (x ∷ xs) =
        insert_sorted-IsSorted x (insertion_sort xs) (insertion_sort-IsSorted xs)

unfoldable pub insertion : Sorter
unfolding insertion_sort
insertion = record {
  sort_slice = λ A less xs. insertion_sort less xs;
  sort_perm = λ A less xs. insertion_sort-perm less xs;
  sort_sorted = λ A less xs w. insertion_sort-IsSorted less w xs;
}
