-- ===== src/Prelude/Slots.antt =====
-- Occurrences of a number in a list, and a memory as a function that is updated at one address.
use Prim.Native.Nat.{ℕ, zero, suc, ◌+◌}
use mathlib.Core.Path.{◌≡◌}
use mathlib.Core.List.{List, [], ◌∷◌}
use native.Mathlib.Omega.{arith}
use ki.Prelude.Tests.{◌==◌, ltb, if◌then◌else◌}

-- 1 where the two numbers are equal, and 0 elsewhere.
abbrev pub one_if_eq : ℕ → ℕ → ℕ
one_if_eq a b = if a == b then 1 else 0

abbrev pub count : ℕ → List ℕ → ℕ
count a [] = 0
count a (x ∷ xs) = one_if_eq a x + count a xs

-- The numbers below `n`, in ascending order from `i`.
unfoldable pub range_from : ℕ → ℕ → List ℕ
range_from i zero = []
range_from i (suc n) = i ∷ range_from (suc i) n

abbrev pub update {ℓ} : {A : Type ℓ} → (ℕ → A) → ℕ → A → ℕ → A
update f i a j = if i == j then a else f j

pub count-range_from :
    (a i n : ℕ) → count a (range_from i n) ≡ (if ltb a i then 0 else if ltb a (i + n) then 1 else 0)
unfolding range_from
count-range_from a i zero = ground arith
count-range_from a i (suc n) = ground (arith, count-range_from a (suc i) n)

pub one_if_eq_refl : (a : ℕ) → one_if_eq a a ≡ 1
one_if_eq_refl a = ground arith
