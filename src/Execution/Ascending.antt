-- ===== src/Execution/Ascending.antt =====
-- Ascending lists of positions: two that are permutations of one another are equal.
use mathlib.Core.Path.{ap₂}
use mathlib.Core.Logic.Or
use mathlib.Core.List.{Mem, Perm, mem-cons, mem-cons_self, not-mem-nil}
use mathlib.Core.List.Perm
use native.Mathlib.Bridge.{le_prop}
use orbit_flow_evo.Base.{ℕ, zero, suc, ◌+◌, ◌≤◌, ◌≡◌, List, [], ◌∷◌, arith}
use orbit_flow_evo.Execution.Defs.{positions}

-- Ascending, from `lo` on.
abbrev pub Above : ℕ → List ℕ → Type 0
Above lo [] = Unit
Above lo (x ∷ xs) = (lo ≤ x) × Above x xs

pub Above-down : (lo lo' : ℕ) (xs : List ℕ) → lo ≤ lo' → Above lo' xs → Above lo xs
Above-down lo lo' [] h a = tt
Above-down lo lo' (x ∷ xs) h a = (omega arith, a.1)

le_of_mem : (lo x : ℕ) (xs : List ℕ) → Above lo xs → Mem x xs → lo ≤ x
le_of_mem lo x [] a m = absurd (not-mem-nil m)
le_of_mem lo x (y ∷ ys) a m =
    Or.elim le_prop (mem-cons.0 m) (λ e. rw e a.0)
      (λ m'. le_of_mem lo x ys (Above-down lo y ys (omega arith) a.1) m')

pub Above-eq_of_perm :
    (lo lo' : ℕ) (xs ys : List ℕ) → Above lo xs → Above lo' ys → Perm xs ys → xs ≡ ys
Above-eq_of_perm lo lo' [] ys a b p = Perm.nil-eq p
Above-eq_of_perm lo lo' (x ∷ xs) [] a b p = Perm.eq-nil p
Above-eq_of_perm lo lo' (x ∷ xs) (y ∷ ys) a b p =
    let x-le-y : x ≤ y =
      le_of_mem x y (x ∷ xs) (omega arith, a.1) ((Perm.mem_iff p).1 mem-cons_self) in
    let y-le-x : y ≤ x =
      le_of_mem y x (y ∷ ys) (omega arith, b.1) ((Perm.mem_iff p).0 mem-cons_self) in
    let heads : x ≡ y = omega arith in
    ap₂ ◌∷◌ heads (
      Above-eq_of_perm x y xs ys a.1 b.1
        (Perm.cons_inv (Perm.trans p (Perm.symm (Perm.cons' heads Perm.rfl)))))

pub Above-positions : (first count : ℕ) → Above first (positions first count)
unfolding positions
Above-positions first zero = tt
Above-positions first (suc count) =
    (omega arith, Above-down first (first + 1) _ (omega arith) (Above-positions (first + 1) count))
