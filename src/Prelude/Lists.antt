-- ===== src/Prelude/Lists.antt =====
-- Lists measured and indexed by native numbers, and the loops that keep the elements of a test.
use Prim.Native.Nat.{ℕ, zero, suc, ◌+◌, ◌-◌, ◌≤◌, ◌<◌}
use mathlib.Core.Path.{◌≡◌, refl, ap, ap₂, ◌∙◌, sym, subst}
use mathlib.Core.Logic.{◌↔◌, inl, inr, ∥∥₁_elim}
use mathlib.Core.Bool.{Bool, true, false, not}
use mathlib.Core.List.{
  List, [], ◌∷◌, ◌++◌, Mem, Perm, Permᴰ, Pairwise, filter, mem-filter, perm_middle, filter-Sublistᴰ,
  mem-cons_self, mem-cons_of_mem,
}
use mathlib.Core.List.Perm
use mathlib.Core.List.Pairwise
use native.Mathlib.Nat.{ℕ_set}
use mathlib.Core.Option.{Option, none, some}
use native.Mathlib.Omega.{arith}
use nara.Prelude.Tests.{if◌then◌else◌, Bool-cases}

is_true? : (b : Bool) → Dec (b ≡ true)
is_true? true = yes refl
is_true? false = no (λ e. cc)

module _ {ℓ} {A : Type ℓ} where
  abbrev pub length : List A → ℕ
  length [] = 0
  length (x ∷ xs) = suc (length xs)

  abbrev pub get_elem? : List A → ℕ → Option A
  get_elem? [] i = none
  get_elem? (x ∷ xs) zero = some x
  get_elem? (x ∷ xs) (suc i) = get_elem? xs i

  abbrev pub take : ℕ → List A → List A
  take zero xs = []
  take (suc n) [] = []
  take (suc n) (x ∷ xs) = x ∷ take n xs

  abbrev pub drop : ℕ → List A → List A
  drop zero xs = xs
  drop (suc n) [] = []
  drop (suc n) (x ∷ xs) = drop n xs

  -- The copy of a slice without one index.
  abbrev pub erase_idx : List A → ℕ → List A
  erase_idx [] i = []
  erase_idx (x ∷ xs) zero = xs
  erase_idx (x ∷ xs) (suc i) = x ∷ erase_idx xs i

  -- `for _, x := range xs { if p(x) { out = append(out, x) } }`
  unfoldable pub keep : (A → Bool) → List A → List A
  keep p [] = []
  keep p (x ∷ xs) = let rest = keep p xs in if p x then x ∷ rest else rest

  -- The number of elements that pass a test.
  unfoldable pub count_if : (A → Bool) → List A → ℕ
  count_if p [] = 0
  count_if p (x ∷ xs) = let rest = count_if p xs in if p x then suc rest else rest

  pub length-append : (xs ys : List A) → length (xs ++ ys) ≡ length xs + length ys
  length-append [] ys = omega arith
  length-append (x ∷ xs) ys = omega (arith, length-append xs ys)

  pub take-append-drop : (n : ℕ) (xs : List A) → take n xs ++ drop n xs ≡ xs
  take-append-drop zero xs = refl
  take-append-drop (suc n) [] = refl
  take-append-drop (suc n) (x ∷ xs) = ap (◌∷◌ x) (take-append-drop n xs)

  pub length-keep : (p : A → Bool) (xs : List A) → length (keep p xs) ≡ count_if p xs
  unfolding keep count_if
  length-keep p [] = refl
  length-keep p (x ∷ xs) = ground (arith, length-keep p xs)

  pub count_if-append :
      (p : A → Bool) (xs ys : List A) → count_if p (xs ++ ys) ≡ count_if p xs + count_if p ys
  unfolding count_if
  count_if-append p [] ys = omega arith
  count_if-append p (x ∷ xs) ys = ground (arith, count_if-append p xs ys)

  pub count_if-le-length : (p : A → Bool) (xs : List A) → count_if p xs ≤ length xs
  unfolding count_if
  count_if-le-length p [] = omega arith
  count_if-le-length p (x ∷ xs) = ground (arith, count_if-le-length p xs)

  keep-eq-filter : (p : A → Bool) (xs : List A) → keep p xs ≡ filter (λ a. is_true? (p a)) xs
  unfolding keep is_true?
  keep-eq-filter p [] = refl
  keep-eq-filter p (x ∷ xs) = ground (arith, keep-eq-filter p xs)

  pub mem-keep :
      (p : A → Bool) (xs : List A) {a : A} → Mem a (keep p xs) ↔ (Mem a xs × (p a ≡ true))
  mem-keep p xs = rw (keep-eq-filter p xs) (mem-filter _)

  pub keep-perm : (p : A → Bool) {xs ys : List A} → Perm xs ys → Perm (keep p xs) (keep p ys)
  keep-perm p {xs} {ys} q = rw (keep-eq-filter p xs, keep-eq-filter p ys) (Perm.filter _ q)

  pub Pairwise-keep {κ} :
      {R : A → A → Type κ} (p : A → Bool) (xs : List A) → Pairwise R xs → Pairwise R (keep p xs)
  Pairwise-keep p xs s = rw (keep-eq-filter p xs) (Pairwise.sublistᴰ (filter-Sublistᴰ _ xs) s)

  length-Permᴰ : {xs ys : List A} → Permᴰ xs ys → length xs ≡ length ys
  length-Permᴰ Permᴰ.nil = refl
  length-Permᴰ (Permᴰ.cons e p) = ap suc (length-Permᴰ p)
  length-Permᴰ (Permᴰ.swap e f) = refl
  length-Permᴰ (Permᴰ.trans p q) = length-Permᴰ p ∙ length-Permᴰ q

  pub length-perm : {xs ys : List A} → Perm xs ys → length xs ≡ length ys
  length-perm p = ∥∥₁_elim p (ℕ_set _ _) length-Permᴰ

  -- The element at an index, and the rest.
  pub perm-erase_idx :
      (xs : List A) (i : ℕ) (x : A) → get_elem? xs i ≡ some x → Perm xs (x ∷ erase_idx xs i)
  perm-erase_idx [] i x h = absurd (cc)
  perm-erase_idx (y ∷ ys) zero x h =
      let e : y ≡ x = cc in subst (λ z. Perm (y ∷ ys) (z ∷ ys)) e Perm.rfl
  perm-erase_idx (y ∷ ys) (suc i) x h =
      Perm.trans (Perm.cons y (perm-erase_idx ys i x h)) (Perm.swap x y (erase_idx ys i))

  pub drop-eq-cons :
      (xs : List A) (i : ℕ) (y : A) (ys : List A)
      → drop i xs ≡ y ∷ ys
      → (get_elem? xs i ≡ some y) × (drop (suc i) xs ≡ ys)
  drop-eq-cons [] zero y ys h = absurd (cc)
  drop-eq-cons [] (suc i) y ys h = absurd (cc)
  drop-eq-cons (x ∷ xs) zero y ys h = (cc, cc)
  drop-eq-cons (x ∷ xs) (suc i) y ys h = drop-eq-cons xs i y ys h

  pub take-append-drop_perm :
      {xs sorted rest : List A} (n : ℕ)
      → Perm sorted xs
      → Perm rest (drop n sorted)
      → Perm xs (take n sorted ++ rest)
  take-append-drop_perm {xs} {sorted} {rest} n p q = Perm.trans (Perm.symm p) (
      Perm.trans (subst (λ (t : List A). Perm sorted t) (sym (take-append-drop n sorted)) Perm.rfl)
        (Perm.append_left (take n sorted) (Perm.symm q)))

  pub length-drop : (n : ℕ) (xs : List A) → length (drop n xs) ≡ length xs - n
  length-drop zero xs = omega arith
  length-drop (suc n) [] = omega arith
  length-drop (suc n) (x ∷ xs) = omega (arith, length-drop n xs)

  pub length-take : (n : ℕ) (xs : List A) → n ≤ length xs → length (take n xs) ≡ n
  length-take zero xs h = refl
  length-take (suc n) [] h = absurd (omega arith)
  length-take (suc n) (x ∷ xs) h = ap suc (length-take n xs (omega arith))

  pub count_if-erase_idx :
      (p : A → Bool) (xs : List A) (i : ℕ) (x : A)
      → get_elem? xs i ≡ some x
      → count_if p xs ≡ count_if p (erase_idx xs i) + (if p x then 1 else 0)
  unfolding count_if
  count_if-erase_idx p [] i x h = absurd (cc)
  count_if-erase_idx p (y ∷ ys) zero x h = let e : y ≡ x = cc in rw e (ground arith)
  count_if-erase_idx p (y ∷ ys) (suc i) x h = ground (arith, count_if-erase_idx p ys i x h)

  pub length-erase_idx :
      (xs : List A) (i : ℕ) (x : A)
      → get_elem? xs i ≡ some x
      → length xs ≡ length (erase_idx xs i) + 1
  length-erase_idx [] i x h = absurd (cc)
  length-erase_idx (y ∷ ys) zero x h = omega arith
  length-erase_idx (y ∷ ys) (suc i) x h = omega (arith, length-erase_idx ys i x h)

  pub get_elem?-some : (xs : List A) (i : ℕ) → i < length xs → (x : A) × (get_elem? xs i ≡ some x)
  get_elem?-some [] i h = absurd (omega arith)
  get_elem?-some (x ∷ xs) zero h = (x, refl)
  get_elem?-some (x ∷ xs) (suc i) h = get_elem?-some xs i (omega arith)

  pub mem-get_elem? : (xs : List A) (i : ℕ) (x : A) → get_elem? xs i ≡ some x → Mem x xs
  mem-get_elem? [] i x h = absurd (cc)
  mem-get_elem? (y ∷ ys) zero x h =
      let e : y ≡ x = cc in subst (λ z. Mem z (y ∷ ys)) e mem-cons_self
  mem-get_elem? (y ∷ ys) (suc i) x h = mem-cons_of_mem y (mem-get_elem? ys i x h)

  count_if-Permᴰ : (p : A → Bool) {xs ys : List A} → Permᴰ xs ys → count_if p xs ≡ count_if p ys
  unfolding count_if
  count_if-Permᴰ p Permᴰ.nil = refl
  count_if-Permᴰ p (Permᴰ.cons e q) =
      ap₂ (λ (x : A) (n : ℕ). if p x then suc n else n) e (count_if-Permᴰ p q)
  count_if-Permᴰ p (Permᴰ.swap {a' = c} {b' = d} e f) = rw (e, f) (ground arith)
  count_if-Permᴰ p (Permᴰ.trans q r) = count_if-Permᴰ p q ∙ count_if-Permᴰ p r

  pub count_if-perm : (p : A → Bool) {xs ys : List A} → Perm xs ys → count_if p xs ≡ count_if p ys
  count_if-perm p q = ∥∥₁_elim q (ℕ_set _ _) (count_if-Permᴰ p)

  pub count_if-drop : (p : A → Bool) (n : ℕ) (xs : List A) → count_if p (drop n xs) ≤ count_if p xs
  unfolding count_if
  count_if-drop p zero xs = omega arith
  count_if-drop p (suc n) [] = omega arith
  count_if-drop p (suc n) (x ∷ xs) = ground (arith, count_if-drop p n xs)

  pub count_if-erase_idx_le :
      (p : A → Bool) (xs : List A) (i : ℕ) → count_if p (erase_idx xs i) ≤ count_if p xs
  unfolding count_if
  count_if-erase_idx_le p [] i = omega arith
  count_if-erase_idx_le p (x ∷ xs) zero = ground arith
  count_if-erase_idx_le p (x ∷ xs) (suc i) = ground (arith, count_if-erase_idx_le p xs i)

  -- The elements that pass a test and those that fail it are the list, up to order.
  pub keep-split_perm :
      (p : A → Bool) (xs : List A) → Perm xs (keep p xs ++ keep (λ x. not (p x)) xs)
  unfolding keep
  keep-split_perm p [] = Perm.rfl
  keep-split_perm p (x ∷ xs) = elim (Bool-cases (p x)) [
    | inl e ↦ rw e (Perm.cons x (keep-split_perm p xs))
    | inr e ↦ rw e (
        Perm.trans (Perm.cons x (keep-split_perm p xs))
          (Perm.symm (perm_middle (keep p xs) (keep (λ y. not (p y)) xs))))
  ]

  pub count_if-not :
      (p : A → Bool) (xs : List A) → count_if p xs + count_if (λ x. not (p x)) xs ≡ length xs
  unfolding count_if
  count_if-not p [] = omega arith
  count_if-not p (x ∷ xs) = ground (arith, count_if-not p xs)

  pub keep-none : (p : A → Bool) (xs : List A) → count_if p xs ≡ 0 → keep (λ x. not (p x)) xs ≡ xs
  unfolding keep count_if
  keep-none p [] h = refl
  keep-none p (x ∷ xs) h = ground (arith, keep-none p xs)
