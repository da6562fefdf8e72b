-- ===== src/Stash/Owner/Bubble.antt =====
-- The bubble sort of the peers by uptime.
use mathlib.Core.Bool.{Bool-set}
use mathlib.Core.List.{
  forall_mem-cons, not-mem-nil, mem-cons_self, mem-cons_of_mem, perm_middle, append-nil,
}
use mathlib.Core.List.Perm
use nara.Prelude.{
  ℕ, zero, suc, ◌-◌, ◌≡◌, refl, sym, ap, subst, inl, inr, false, List, [], ◌∷◌, ◌++◌, Mem, Perm,
  Pairwise, arith, length, Bool-cases, if◌then◌else◌,
}
use nara.Prelude.Int.{ltb_ℤ}
use nara.Stash.{PeerInfo}
use nara.Stash.Owner.{bubble_pass, bubble_passes, sort_by_uptime}

-- `p` has been up at least as long as `q`.
abbrev pub NotLess : PeerInfo → PeerInfo → Type 0
NotLess p q = ltb_ℤ p.uptime q.uptime ≡ false

abbrev IsBelow : PeerInfo → List PeerInfo → Type 0
IsBelow z xs = (y : PeerInfo) → Mem y xs → NotLess y z

NotLess-trans : (p q r : PeerInfo) → NotLess p q → NotLess q r → NotLess p r
NotLess-trans p q r h k = ground (arith, h, k)

NotLess-refl : (p : PeerInfo) → NotLess p p
NotLess-refl p = ground arith

IsBelow-cons :
    (z x : PeerInfo) (xs : List PeerInfo) → NotLess x z → IsBelow z xs → IsBelow z (x ∷ xs)
IsBelow-cons z x xs h b = (forall_mem-cons (λ y. Bool-set (ltb_ℤ y.uptime z.uptime) false)).1 (h, b)

-- The two of a comparison, the one that goes first and the other.
abbrev higher : PeerInfo → PeerInfo → PeerInfo
higher p q = if ltb_ℤ p.uptime q.uptime then q else p

abbrev lower : PeerInfo → PeerInfo → PeerInfo
lower p q = if ltb_ℤ p.uptime q.uptime then p else q

lower-NotLess : (p q : PeerInfo) → NotLess (higher p q) (lower p q)
lower-NotLess p q = ground arith

higher-perm : (p q : PeerInfo) (r : List PeerInfo) → Perm (higher p q ∷ lower p q ∷ r) (p ∷ q ∷ r)
higher-perm p q r = elim (Bool-cases (ltb_ℤ p.uptime q.uptime)) [
  | inl less ↦ rw less (Perm.swap p q r)
  | inr not_less ↦ rw not_less Perm.rfl
]

-- What a pass over the peers before `suf` leaves: one that is not above any other, at their end.
record Passed (k : ℕ) (xs suf : List PeerInfo) : Type 0 where
  init : List PeerInfo
  last : PeerInfo
  split : bubble_pass k (xs ++ suf) ≡ init ++ last ∷ suf
  perm : Perm (last ∷ init) xs
  below : IsBelow last init
  size : length init ≡ k

bubble_pass-Passed : (k : ℕ) (xs suf : List PeerInfo) → length xs ≡ suc k → Passed k xs suf
unfolding bubble_pass
bubble_pass-Passed k [] suf n = absurd (omega (arith, n))
bubble_pass-Passed zero (x ∷ []) suf n = record {
  init = [];
  last = x;
  split = refl;
  perm = Perm.rfl;
  below = λ y m. absurd (not-mem-nil m);
  size = refl;
}
bubble_pass-Passed (suc k) (x ∷ []) suf n = absurd (omega (arith, n))
bubble_pass-Passed zero (x ∷ y ∷ r) suf n = absurd (omega (arith, n))
bubble_pass-Passed (suc k) (p ∷ q ∷ r) suf n =
    let ih = bubble_pass-Passed k (lower p q ∷ r) suf (omega (arith, n)) in
    let in_rest : Mem (lower p q) (ih.last ∷ ih.init) = (Perm.mem_iff ih.perm).1 mem-cons_self in
    let under =
      (forall_mem-cons (λ y. Bool-set (ltb_ℤ y.uptime ih.last.uptime) false)).1
        (NotLess-refl ih.last, ih.below) in
    record {
      init = higher p q ∷ ih.init;
      last = ih.last;
      split = ap (λ (l : List PeerInfo). higher p q ∷ l) ih.split;
      perm =
          Perm.trans (Perm.swap (higher p q) ih.last ih.init)
            (Perm.trans (Perm.cons (higher p q) ih.perm) (higher-perm p q r));
      below =
          IsBelow-cons ih.last (higher p q) ih.init
            (NotLess-trans (higher p q) (lower p q) ih.last (lower-NotLess p q)
              (under (lower p q) in_rest))
            ih.below;
      size = ap suc ih.size;
    }

module _ {k : ℕ} {xs suf : List PeerInfo} (pass : Passed k xs suf) where
  whole-perm : Perm (pass.init ++ pass.last ∷ suf) (xs ++ suf)
  whole-perm = Perm.trans (perm_middle pass.init suf) (Perm.append_right suf pass.perm)

  from_passed : {y : PeerInfo} → Mem y (pass.last ∷ pass.init) → Mem y xs
  from_passed m = (Perm.mem_iff pass.perm).0 m

-- The peers of `suf` are in order and not above any of `xs`, which the passes still go over.
bubble_passes-sorted :
    (k : ℕ) (xs suf : List PeerInfo)
    → length xs ≡ suc k
    → Pairwise NotLess suf
    → ((y : PeerInfo) → Mem y suf → IsBelow y xs)
    → Pairwise NotLess (bubble_passes k (xs ++ suf))
      × Perm (bubble_passes k (xs ++ suf)) (xs ++ suf)
unfolding bubble_passes
bubble_passes-sorted k [] suf n sorted above = absurd (omega (arith, n))
bubble_passes-sorted zero (x ∷ []) suf n sorted above =
    (Pairwise.cons (λ y m. above y m x mem-cons_self) sorted, Perm.rfl)
bubble_passes-sorted zero (x ∷ y ∷ r) suf n sorted above = absurd (omega (arith, n))
bubble_passes-sorted (suc k) (x ∷ r) suf n sorted above =
    let pass = bubble_pass-Passed (suc k) (x ∷ r) suf n in
    let (done, same) =
      bubble_passes-sorted k pass.init (pass.last ∷ suf) pass.size
        (Pairwise.cons (λ y m. above y m pass.last (from_passed pass mem-cons_self)) sorted)
        (λ y m z in_init.
          (forall_mem-cons (λ w. Bool-set (ltb_ℤ z.uptime w.uptime) false)).1
            (
              pass.below z in_init,
              λ w later. above w later z (from_passed pass (mem-cons_of_mem pass.last in_init)),
            )
            y m) in
    subst (λ l. Pairwise NotLess (bubble_passes k l) × Perm (bubble_passes k l) (x ∷ r ++ suf))
      (sym pass.split) (done, Perm.trans same (whole-perm pass))

-- The bubble sort puts the peers in the order of their uptime, the longest first, and loses none.
pub sort_by_uptime_lem :
    (peers : List PeerInfo)
    → Pairwise NotLess (sort_by_uptime peers) × Perm (sort_by_uptime peers) peers
unfolding sort_by_uptime bubble_passes
sort_by_uptime_lem [] = (Pairwise.nil, Perm.rfl)
sort_by_uptime_lem (p ∷ peers) =
    let (sorted, same) =
      bubble_passes-sorted (length peers) (p ∷ peers) [] refl Pairwise.nil
        (λ y m. absurd (not-mem-nil m)) in
    let one_less : length (p ∷ peers) - 1 ≡ length peers = omega arith in
    let all : (p ∷ peers) ++ [] ≡ p ∷ peers = append-nil (p ∷ peers) in
    rw one_less (
      subst
        (λ l.
          Pairwise NotLess (bubble_passes (length peers) l)
          × Perm (bubble_passes (length peers) l) l)
        all (sorted, same))
