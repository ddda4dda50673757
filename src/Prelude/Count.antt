-- ===== src/Prelude/Count.antt =====
-- How many entries of a list pass a Boolean test, and what filters do to that number.
use Prim.Native.Nat.{ℕ, suc, ◌+◌, ◌≤◌}
use mathlib.Core.Path.{◌≡◌, refl}
use mathlib.Core.Bool.{Bool, true, false, ◌||◌}
use mathlib.Core.List.{List, [], ◌∷◌, ◌++◌}
use native.Mathlib.Omega.{arith}
use predixa_learn.Prelude.Tests.{◌==◌, if◌then◌else◌}
use predixa_learn.Prelude.Lists.{keep, contains, without, length}

module _ {ℓ} {A : Type ℓ} where
  unfoldable pub count : (A → Bool) → List A → ℕ
  count p [] = 0
  count p (x ∷ xs) = let rest = count p xs in if p x then suc rest else rest

  pub count-append : (p : A → Bool) (xs ys : List A) → count p (xs ++ ys) ≡ count p xs + count p ys
  unfolding count
  count-append p [] ys = omega arith
  count-append p (x ∷ xs) ys = ground (arith, count-append p xs ys)

  pub count-keep : (p q : A → Bool) (xs : List A) → count p (keep q xs) ≤ count p xs
  unfolding count keep
  count-keep p q [] = omega arith
  count-keep p q (x ∷ xs) = ground (arith, count-keep p q xs)

  pub length-keep : (q : A → Bool) (xs : List A) → length (keep q xs) ≤ length xs
  unfolding keep
  length-keep q [] = omega arith
  length-keep q (x ∷ xs) = ground (arith, length-keep q xs)

  -- A test that implies another counts no more.
  pub count_mono :
      (p q : A → Bool) (xs : List A) → ((x : A) → p x ≡ true → q x ≡ true) → count p xs ≤ count q xs
  unfolding count
  count_mono p q [] h = omega arith
  count_mono p q (x ∷ xs) h = ground (arith, count_mono p q xs h, h x)

pub count-without : (p : ℕ → Bool) (k : ℕ) (xs : List ℕ) → count p (without k xs) ≤ count p xs
unfolding count without
count-without p k [] = omega arith
count-without p k (x ∷ xs) = ground (arith, count-without p k xs)

module _ {ℓ} {A : Type ℓ} where
  -- What passes one test passes one of two others.
  pub count_split :
      (p a b : A → Bool) (xs : List A)
      → ((x : A) → p x ≡ true → (a x || b x) ≡ true)
      → count p xs ≤ count a xs + count b xs
  unfolding count
  count_split p a b [] h = omega arith
  count_split p a b (x ∷ xs) h = ground (arith, count_split p a b xs h, h x)

pub count-not_contained : (k : ℕ) (xs : List ℕ) → contains k xs ≡ false → count (λ x. k == x) xs ≡ 0
unfolding count contains
count-not_contained k [] h = refl
count-not_contained k (x ∷ xs) h = ground (arith, count-not_contained k xs)
