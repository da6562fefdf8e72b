-- ===== src/Consensus/Mean.antt =====
-- The value that the trimmed mean computes.
use mathlib.Core.List.{mem-cons_self, mem-cons_of_mem}
use mathlib.Core.List.Perm
use native.Mathlib.Nat.{le-div_iff_mul-le, div-lt_iff_lt-mul}
use nara.Prelude.{
  ℕ, ◌+◌, ◌*◌, ◌/◌, ◌≤◌, ◌<◌, ◌≡◌, refl, sym, ap, subst, ◌∙◌, true, ◌&&◌, Option, some, List, [],
  ◌∷◌, Mem, arith, length, length-perm, get_elem?-some, mem-get_elem?, keep, mem-keep, length-keep,
  count_if-le-length,
}
use nara.Prelude.Int.{ℤ, pos, negsuc, leb_ℤ, ltb_ℤ, add64, add64-pos, div_pos, two_63}
use nara.Prelude.Sort.{Sorter}
use nara.Consensus.{middle, within_bounds, sum64, average_or, trim, trimmed_mean}

-- Every value lies between the two bounds.
abbrev pub AreBetween : ℕ → ℕ → List ℤ → Type 0
AreBetween lo hi vs = (v : ℤ) → Mem v vs → (leb_ℤ (pos lo) v && leb_ℤ v (pos hi)) ≡ true

-- The answer lies between them.
abbrev pub AnswersBetween : ℕ → ℕ → Option ℤ → Type 0
AnswersBetween lo hi r = (m : ℕ) × (r ≡ some (pos m)) × (lo ≤ m) × (m ≤ hi)

value_of :
    (lo hi : ℕ) (v : ℤ)
    → (leb_ℤ (pos lo) v && leb_ℤ v (pos hi)) ≡ true
    → (n : ℕ) × (v ≡ pos n) × (lo ≤ n) × (n ≤ hi)
value_of lo hi (pos n) h = (n, refl, ground arith, ground arith)
value_of lo hi (negsuc n) h = absurd (ground arith)

sum64-bounds :
    (lo hi a : ℕ) (vs : List ℤ)
    → AreBetween lo hi vs
    → a + length vs * hi < two_63
    → (s : ℕ) × (sum64 (pos a) vs ≡ pos s) × (a + length vs * lo ≤ s) × (s ≤ a + length vs * hi)
unfolding sum64
sum64-bounds lo hi a [] b small = (a, refl, omega arith, omega arith)
sum64-bounds lo hi a (v ∷ vs) b small =
    let (n, at, low, high) = value_of lo hi v (b v mem-cons_self) in
    let fits : a + n + length vs * hi < two_63 = grind (arith, high, small) in
    let (s, sum, below, above) =
      sum64-bounds lo hi (a + n) vs (λ w m. b w (mem-cons_of_mem v m)) fits in
    (
      s,
      ap (λ w. sum64 (add64 (pos a) w) vs) at
          ∙ ap (λ w. sum64 w vs) (add64-pos a n (ground (arith, fits)))
          ∙ sum,
      grind (arith, low, below),
      grind (arith, high, above),
    )

div_bounds : (n lo hi s : ℕ) → 1 ≤ n → n * lo ≤ s → s ≤ n * hi → (lo ≤ s / n) × (s / n ≤ hi)
div_bounds n lo hi s h low high = (
  (le-div_iff_mul-le {k = n} {x = lo} {y = s} h).1 (grind (arith, low)),
  omega (arith, (div-lt_iff_lt-mul {k = n} {x = s} {y = hi + 1} h).1 (grind (arith, high, h))),
)

average_or-bounds :
    (lo hi m : ℕ) (vs : List ℤ)
    → AreBetween lo hi vs
    → length vs * hi < two_63
    → lo ≤ m
    → m ≤ hi
    → (r : ℕ) × (average_or (pos m) vs ≡ pos r) × (lo ≤ r) × (r ≤ hi)
unfolding average_or
average_or-bounds lo hi m [] b small low high = (m, refl, low, high)
average_or-bounds lo hi m (v ∷ vs) b small low high =
    let (s, sum, below, above) = sum64-bounds lo hi 0 (v ∷ vs) b (omega (arith, small)) in
    let (least, most) =
      div_bounds (length (v ∷ vs)) lo hi s (omega arith) (omega (arith, below))
        (omega (arith, above)) in
    (
      s / length (v ∷ vs),
      ap (λ w. div_pos w (length (v ∷ vs))) sum ∙ unfold div_pos in refl,
      least,
      most,
    )

trim-bounds :
    (sorter : Sorter) (lo hi : ℕ) (vs : List ℤ)
    → 1 ≤ length vs
    → AreBetween lo hi vs
    → length vs * hi < two_63
    → AnswersBetween lo hi (trim sorter vs)
unfolding trim middle
trim-bounds sorter lo hi vs h b small =
    let (v, at) = get_elem?-some vs (length vs / 2) (omega (arith, h)) in
    let (m, value, low, high) = value_of lo hi v (b v (mem-get_elem? vs _ v at)) in
    let kept = keep (within_bounds (pos m)) vs in
    let fewer : length kept ≤ length vs = omega (
      arith,
      length-keep (within_bounds (pos m)) vs,
      count_if-le-length (within_bounds (pos m)) vs,
    ) in
    let (r, mean, least, most) =
      average_or-bounds lo hi m kept (λ w q. b w ((mem-keep _ vs).0 q).0)
        (grind (arith, fewer, small)) low high in
    (r, rw (at ∙ ap (λ w. some w) value) (ap (λ w. some w) mean), least, most)

-- The trimmed mean of values that are not negative, whose sum cannot overflow, is computed without
-- a fault and lies between any bounds of the values.
pub trimmed_mean-bounds :
    (sorter : Sorter) (lo hi : ℕ) (vs : List ℤ)
    → 1 ≤ length vs
    → AreBetween lo hi vs
    → length vs * hi < two_63
    → AnswersBetween lo hi (trimmed_mean sorter vs)
unfolding trimmed_mean
trimmed_mean-bounds sorter lo hi [] h b small = absurd (omega arith)
trimmed_mean-bounds sorter lo hi (v ∷ []) h b small =
    let (m, value, low, high) = value_of lo hi v (b v mem-cons_self) in
    (m, ap (λ w. some w) value, low, high)
trimmed_mean-bounds sorter lo hi (v ∷ w ∷ vs) h b small =
    let p = sorter.sort_perm ℤ ltb_ℤ (v ∷ w ∷ vs) in
    trim-bounds sorter lo hi (sorter.sort_slice ℤ ltb_ℤ (v ∷ w ∷ vs)) (omega (arith, length-perm p))
      (λ x m. b x ((Perm.mem_iff p).0 m)) (subst (λ n. n * hi < two_63) (sym (length-perm p)) small)
