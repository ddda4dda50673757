-- ===== src/Prelude/Arrangements.antt =====
-- What does not depend on the order in which a table has its rows.
use Prim.Native.Nat.{ℕ, zero, suc}
use mathlib.Core.Path.{◌≡◌, refl, ap, subst, sym, ◌∙◌}
use mathlib.Core.Bool.{Bool, true, false, not}
use mathlib.Core.Logic.{inl, inr}
use mathlib.Core.Option.{none, some, none-ne-some}
use mathlib.Core.List.{List, [], ◌∷◌, ◌++◌, map}
use mathlib.Core.List.{reverse, reverse-cons}
use mathlib.Core.List.Permᴰ
use mathlib.Core.List.{Permᴰ}
use native.Mathlib.Omega.{arith}
use predixa_learn.Prelude.Tests.{if◌then◌else◌, if_either, Bool-cases}
use predixa_learn.Prelude.Lists.{All, any, keep, first, take}
use predixa_learn.Prelude.Count.{count}

module _ {ℓ} {A : Type ℓ} (p : A → Bool) where
  pub any-perm : {xs ys : List A} → Permᴰ xs ys → any p xs ≡ any p ys
  unfolding any
  any-perm Permᴰ.nil = refl
  any-perm (Permᴰ.cons e d) = rw (e, any-perm d) refl
  any-perm (Permᴰ.swap {l = l} e₁ e₂) = rw (e₁, e₂) (ground arith)
  any-perm (Permᴰ.trans d₁ d₂) = any-perm d₁ ∙ any-perm d₂

  pub count-perm : {xs ys : List A} → Permᴰ xs ys → count p xs ≡ count p ys
  unfolding count
  count-perm Permᴰ.nil = refl
  count-perm (Permᴰ.cons e d) = rw e (ground (arith, count-perm d))
  count-perm (Permᴰ.swap e₁ e₂) = rw (e₁, e₂) (ground arith)
  count-perm (Permᴰ.trans d₁ d₂) = count-perm d₁ ∙ count-perm d₂

  kept_or_not :
      (c : Bool) (a : A) {xs ys : List A}
      → Permᴰ xs ys
      → Permᴰ (if c then a ∷ xs else xs) (if c then a ∷ ys else ys)
  kept_or_not true a d = Permᴰ.cons refl d
  kept_or_not false a d = d

  kept_both :
      (c d : Bool) (a b : A) (xs : List A)
      → Permᴰ
          (if c then a ∷ (if d then b ∷ xs else xs) else (if d then b ∷ xs else xs))
          (if d then b ∷ (if c then a ∷ xs else xs) else (if c then a ∷ xs else xs))
  kept_both true true a b xs = Permᴰ.swap refl refl
  kept_both true false a b xs = Permᴰ.refl (a ∷ xs)
  kept_both false true a b xs = Permᴰ.refl (b ∷ xs)
  kept_both false false a b xs = Permᴰ.refl xs

  pub keep-perm : {xs ys : List A} → Permᴰ xs ys → Permᴰ (keep p xs) (keep p ys)
  unfolding keep
  keep-perm Permᴰ.nil = Permᴰ.nil
  keep-perm (Permᴰ.cons {b = b} e d) = rw e (kept_or_not (p b) b (keep-perm d))
  keep-perm (Permᴰ.swap {a' = b} {b' = a} {l = l} e₁ e₂) =
      rw (e₁, e₂) (kept_both (p a) (p b) a b (keep p l))
  keep-perm (Permᴰ.trans d₁ d₂) = Permᴰ.trans (keep-perm d₁) (keep-perm d₂)

  -- A table is the rows that a condition picks, and the others.
  pub partition-perm : (xs : List A) → Permᴰ xs (keep p xs ++ keep (λ x. not (p x)) xs)
  unfolding keep
  partition-perm [] = Permᴰ.nil
  partition-perm (x ∷ xs) = branch (p x) (partition-perm xs)
    where
      branch :
          (c : Bool)
          → Permᴰ xs (keep p xs ++ keep (λ y. not (p y)) xs)
          → Permᴰ (x ∷ xs) (
              (if c then x ∷ keep p xs else keep p xs)
              ++ (if not c then x ∷ keep (λ y. not (p y)) xs else keep (λ y. not (p y)) xs))
      branch true d = Permᴰ.cons refl d
      branch false d =
          Permᴰ.trans (Permᴰ.cons refl d)
            (Permᴰ.symm (Permᴰ.middle x (keep p xs) (keep (λ y. not (p y)) xs)))

  pub first_holds : (xs : List A) (x : A) → first p xs ≡ some x → p x ≡ true
  unfolding first
  first_holds [] x h = absurd (ground arith)
  first_holds (y ∷ ys) x h = elim (Bool-cases (p y)) [
    | inl e ↦ subst (λ z. p z ≡ true) (ground (arith, e)) e
    | inr e ↦ first_holds ys x (simp e at h)
  ]

  pub first-append : (xs ys : List A) → first p xs ≡ none → first p (xs ++ ys) ≡ first p ys
  unfolding first
  first-append [] ys h = refl
  first-append (x ∷ xs) ys h = elim (Bool-cases (p x)) [
    | inl e ↦ absurd (none-ne-some x (sym (simp e at h)))
    | inr e ↦ simp e (first-append xs ys (simp e at h))
  ]

  pub keep-append : (xs ys : List A) → keep p (xs ++ ys) ≡ keep p xs ++ keep p ys
  unfolding keep
  keep-append [] ys = refl
  keep-append (x ∷ xs) ys = ground (arith, keep-append xs ys)

  pub keep-All : (xs : List A) → All (λ x. p x ≡ true) xs → keep p xs ≡ xs
  unfolding keep
  keep-All [] h = refl
  keep-All (x ∷ xs) h = simp h.0 (ap (◌∷◌ x) (keep-All xs h.1))

  pub keep_none : (xs : List A) → All (λ x. p x ≡ false) xs → keep p xs ≡ []
  unfolding keep
  keep_none [] h = refl
  keep_none (x ∷ xs) h = simp h.0 (keep_none xs h.1)

  pub keep-holds : (xs : List A) → All (λ x. p x ≡ true) (keep p xs)
  unfolding keep
  keep-holds [] = tt
  keep-holds (x ∷ xs) = branch (p x) refl (keep-holds xs)
    where
      branch :
          (c : Bool)
          → p x ≡ c
          → All (λ y. p y ≡ true) (keep p xs)
          → All (λ y. p y ≡ true) (if c then x ∷ keep p xs else keep p xs)
      branch true e h = (e, h)
      branch false e h = h

module _ {ℓ κ} {A : Type ℓ} {B : Type κ} (f : A → B) where
  pub map-perm : {xs ys : List A} → Permᴰ xs ys → Permᴰ (map f xs) (map f ys)
  map-perm Permᴰ.nil = Permᴰ.nil
  map-perm (Permᴰ.cons e d) = Permᴰ.cons (ap f e) (map-perm d)
  map-perm (Permᴰ.swap e₁ e₂) = Permᴰ.swap (ap f e₁) (ap f e₂)
  map-perm (Permᴰ.trans d₁ d₂) = Permᴰ.trans (map-perm d₁) (map-perm d₂)

module _ {ℓ κ} {A : Type ℓ} (P : A → Type κ) where
  pub All-perm : {xs ys : List A} → Permᴰ xs ys → All P xs → All P ys
  All-perm Permᴰ.nil h = tt
  All-perm (Permᴰ.cons e d) h = (subst P e h.0, All-perm d h.1)
  All-perm (Permᴰ.swap e₁ e₂) h = (subst P e₂ h.1.0, (subst P e₁ h.0, h.1.1))
  All-perm (Permᴰ.trans d₁ d₂) h = All-perm d₂ (All-perm d₁ h)

  pub All-join : (xs ys : List A) → All P xs → All P ys → All P (xs ++ ys)
  All-join [] ys h k = k
  All-join (x ∷ xs) ys h k = (h.0, All-join xs ys h.1 k)

  pub All-left : (xs ys : List A) → All P (xs ++ ys) → All P xs
  All-left [] ys h = tt
  All-left (x ∷ xs) ys h = (h.0, All-left xs ys h.1)

  pub All-right : (xs ys : List A) → All P (xs ++ ys) → All P ys
  All-right [] ys h = h
  All-right (x ∷ xs) ys h = All-right xs ys h.1

module _ {ℓ κ} {A : Type ℓ} (P : A → Type κ) (p : A → Bool) where
  pub All-keep : (xs : List A) → All P xs → All P (keep p xs)
  unfolding keep
  All-keep [] h = tt
  All-keep (x ∷ xs) h = if_either (All P) (p x) (h.0, All-keep xs h.1) (All-keep xs h.1)

-- A relation between each row and every later one.
module _ {ℓ κ} {A : Type ℓ} (R : A → A → Type κ) where
  abbrev pub Apart : List A → Type κ
  Apart [] = Unit
  Apart (x ∷ xs) = All (R x) xs × Apart xs

  pub Apart-perm :
      {xs ys : List A} → ((x y : A) → R x y → R y x) → Permᴰ xs ys → Apart xs → Apart ys
  Apart-perm flip Permᴰ.nil h = tt
  Apart-perm flip (Permᴰ.cons {l₂ = l₂} e d) h =
      (subst (λ a. All (R a) l₂) e (All-perm (R _) d h.0), Apart-perm flip d h.1)
  Apart-perm flip (Permᴰ.swap {a = a} {b = b} {b' = b'} {l = l} e₁ e₂) h =
      subst (λ u. Apart (u ∷ b' ∷ l)) e₂
        (subst (λ v. Apart (b ∷ v ∷ l)) e₁ ((flip a b h.0.0, h.1.0), (h.0.1, h.1.1)))
  Apart-perm flip (Permᴰ.trans d₁ d₂) h = Apart-perm flip d₂ (Apart-perm flip d₁ h)

  pub Apart-keep : (p : A → Bool) (xs : List A) → Apart xs → Apart (keep p xs)
  unfolding keep
  Apart-keep p [] h = tt
  Apart-keep p (x ∷ xs) h =
      if_either Apart (p x) (All-keep (R x) p xs h.0, Apart-keep p xs h.1) (Apart-keep p xs h.1)

  pub Apart-left : (xs ys : List A) → Apart (xs ++ ys) → Apart xs
  Apart-left [] ys h = tt
  Apart-left (x ∷ xs) ys h = (All-left (R x) xs ys h.0, Apart-left xs ys h.1)

module _ {ℓ} {A : Type ℓ} (p : A → Bool) (f : A → A) (same_test : (x : A) → p (f x) ≡ p x) where
  pub keep-map : (xs : List A) → keep p (map f xs) ≡ map f (keep p xs)
  unfolding keep
  keep-map [] = refl
  keep-map (x ∷ xs) = rw same_test (branch (p x) (keep-map xs))
    where
      branch :
          (b : Bool)
          → keep p (map f xs) ≡ map f (keep p xs)
          → (if b then f x ∷ keep p (map f xs) else keep p (map f xs))
            ≡ map f (if b then x ∷ keep p xs else keep p xs)
      branch true e = ap (◌∷◌ (f x)) e
      branch false e = e

module _ {ℓ κ} {A : Type ℓ} (P : A → Type κ) where
  pub All-take : (n : ℕ) (xs : List A) → All P xs → All P (take n xs)
  All-take zero xs h = tt
  All-take (suc n) [] h = tt
  All-take (suc n) (x ∷ xs) h = (h.0, All-take n xs h.1)

module _ {ℓ κ} {A : Type ℓ} (R : A → A → Type κ) where
  pub Apart-take : (n : ℕ) (xs : List A) → Apart R xs → Apart R (take n xs)
  Apart-take zero xs h = tt
  Apart-take (suc n) [] h = tt
  Apart-take (suc n) (x ∷ xs) h = (All-take (R x) n xs h.0, Apart-take n xs h.1)

module _ {ℓ κ μ} {A : Type ℓ} (P : A → Type κ) (Q : A → Type μ) where
  pub All-both : (xs : List A) → All P xs → All Q xs → All (λ x. P x × Q x) xs
  All-both [] h k = tt
  All-both (x ∷ xs) h k = ((h.0, k.0), All-both xs h.1 k.1)

module _ {ℓ κ} {A : Type ℓ} (R : A → A → Type κ) where
  Apart-last : (xs : List A) (x : A) → Apart R xs → All (λ y. R y x) xs → Apart R (xs ++ x ∷ [])
  Apart-last [] x h k = (tt, tt)
  Apart-last (y ∷ ys) x h k = (All-join (R y) ys (x ∷ []) h.0 (k.0, tt), Apart-last ys x h.1 k.1)

module _ {ℓ κ} {A : Type ℓ} (R : A → A → Type κ) where
  pub Apart-reverse : (xs : List A) → Apart R xs → Apart (λ x y. R y x) (reverse xs)
  Apart-reverse [] h = tt
  Apart-reverse (x ∷ xs) h = subst (Apart (λ x y. R y x)) (sym (reverse-cons x xs)) (
      Apart-last (λ x y. R y x) (reverse xs) x (Apart-reverse xs h.1)
        (All-perm (R x) (Permᴰ.symm (Permᴰ.reverse xs)) h.0))
