-- ===== src/Prelude/Sorting.antt =====
-- A query's `ORDER BY` a numeric key, and when two tables give the same sorted rows.
use Prim.Native.Nat.{ℕ, ◌<◌, ◌≤◌}
use mathlib.Core.Path.{◌≡◌, refl, ap, subst, sym, ◌∙◌}
use mathlib.Core.Bool.{Bool, true, false}
use mathlib.Core.Logic.{◌≢◌, inl, inr}
use mathlib.Core.List.{List, [], ◌∷◌, map}
use mathlib.Core.List.Permᴰ
use mathlib.Core.List.{Permᴰ}
use native.Mathlib.Decide.{dec_lt}
use native.Mathlib.Omega.{arith}
use predixa_learn.Prelude.Tests.{Bool-cases, ◌==◌, leb, if◌then◌else◌}
use predixa_learn.Prelude.Lists.{All}
use predixa_learn.Prelude.Count.{count}
use predixa_learn.Prelude.Arrangements.{count-perm, Apart, All-perm}

leb_of_lt : {a b : ℕ} → a < b → leb a b ≡ true
leb_of_lt h = ground arith

leb_of_gt : {a b : ℕ} → b < a → leb a b ≡ false
leb_of_gt h = ground arith

module _ {ℓ} {A : Type ℓ} (key : A → ℕ) where
  unfoldable pub insert : A → List A → List A
  insert x [] = x ∷ []
  insert x (y ∷ ys) = let rest = insert x ys in if leb (key x) (key y) then x ∷ y ∷ ys else y ∷ rest

  unfoldable pub sort : List A → List A
  sort [] = []
  sort (x ∷ xs) = insert x (sort xs)

  -- Each key is smaller than the keys after it.
  abbrev pub IsStrict : List A → Type 0
  IsStrict [] = Unit
  IsStrict (x ∷ xs) = All (λ y. key x < key y) xs × IsStrict xs

  -- No key occurs twice.
  abbrev pub HasUniqueKeys : List A → Type 0
  HasUniqueKeys xs = (k : ℕ) → count (λ x. key x == k) xs ≤ 1

  pub insert-perm : (x : A) (ys : List A) → Permᴰ (x ∷ ys) (insert x ys)
  unfolding insert
  insert-perm x [] = Permᴰ.refl (x ∷ [])
  insert-perm x (y ∷ ys) = branch (leb (key x) (key y)) (insert-perm x ys)
    where
      branch :
          (b : Bool)
          → Permᴰ (x ∷ ys) (insert x ys)
          → Permᴰ (x ∷ y ∷ ys) (if b then x ∷ y ∷ ys else y ∷ insert x ys)
      branch true p = Permᴰ.refl (x ∷ y ∷ ys)
      branch false p = Permᴰ.trans (Permᴰ.swap refl refl) (Permᴰ.cons refl p)

  pub sort-perm : (xs : List A) → Permᴰ xs (sort xs)
  unfolding sort
  sort-perm [] = Permᴰ.nil
  sort-perm (x ∷ xs) = Permᴰ.trans (Permᴰ.cons refl (sort-perm xs)) (insert-perm x (sort xs))

  -- Each key is at most the keys after it.
  abbrev pub IsSorted : List A → Type 0
  IsSorted xs = Apart (λ x y. key x ≤ key y) xs

  insert-IsSorted : (x : A) (ys : List A) → IsSorted ys → IsSorted (insert x ys)
  unfolding insert
  insert-IsSorted x [] h = (tt, tt)
  insert-IsSorted x (y ∷ ys) h = elim (Bool-cases (leb (key x) (key y))) [
    | inl e ↦ simp e ((ground (arith, e), above (ground (arith, e)) ys h.0), h)
    | inr e ↦ simp e (
      All-perm (λ z. key y ≤ key z) (insert-perm x ys) (ground (arith, e), h.0),
      insert-IsSorted x ys h.1,
    )
  ]
    where
      above :
          key x ≤ key y → (zs : List A) → All (λ z. key y ≤ key z) zs → All (λ z. key x ≤ key z) zs
      above l [] k = tt
      above l (z ∷ zs) k = (omega (arith, l, k.0), above l zs k.1)

  pub sort-IsSorted : (xs : List A) → IsSorted (sort xs)
  unfolding sort
  sort-IsSorted [] = tt
  sort-IsSorted (x ∷ xs) = insert-IsSorted x (sort xs) (sort-IsSorted xs)

  insert_commutes :
      (x y : A) (zs : List A) → key x ≢ key y → insert x (insert y zs) ≡ insert y (insert x zs)
  unfolding insert
  insert_commutes x y [] h = grind arith
  insert_commutes x y (z ∷ zs) h = ground (arith, insert_commutes x y zs h)

  insert_first : (x : A) (ys : List A) → All (λ y. key x < key y) ys → insert x ys ≡ x ∷ ys
  unfolding insert
  insert_first x [] h = refl
  insert_first x (y ∷ ys) h = ground (arith, h.0)

  pub sort_of_strict : (xs : List A) → IsStrict xs → sort xs ≡ xs
  unfolding sort
  sort_of_strict [] h = refl
  sort_of_strict (x ∷ xs) h = ap (insert x) (sort_of_strict xs h.1) ∙ insert_first x xs h.0

  unique-perm : {xs ys : List A} → Permᴰ xs ys → HasUniqueKeys xs → HasUniqueKeys ys
  unique-perm d h k = omega (arith, h k, count-perm (λ x. key x == k) d)

  unique_rest : (x : A) (xs : List A) → HasUniqueKeys (x ∷ xs) → HasUniqueKeys xs
  unfolding count
  unique_rest x xs h k = ground (arith, h k)

  keys_differ : (x y : A) (xs : List A) → HasUniqueKeys (x ∷ y ∷ xs) → key x ≢ key y
  unfolding count
  keys_differ x y xs h e = ground (arith, h (key x))

  -- Rows with distinct keys sort to one list, whatever order the table has them in.
  sort-eq : {xs ys : List A} → Permᴰ xs ys → HasUniqueKeys xs → sort xs ≡ sort ys
  unfolding sort
  sort-eq Permᴰ.nil h = refl
  sort-eq (Permᴰ.cons {a = a} {b = b} {l₁ = l₁} {l₂ = l₂} e d) h =
      rw e (ap (insert b) (sort-eq d (unique_rest a l₁ h)))
  sort-eq (Permᴰ.swap {a = a} {b = b} {l = l} e₁ e₂) h =
      rw (sym e₁, sym e₂) (insert_commutes a b (sort l) (keys_differ a b l h))
  sort-eq (Permᴰ.trans d₁ d₂) h = sort-eq d₁ h ∙ sort-eq d₂ (unique-perm d₁ h)

  none_equal : (k : ℕ) (xs : List A) → All (λ y. k < key y) xs → count (λ x. key x == k) xs ≡ 0
  unfolding count
  none_equal k [] h = refl
  none_equal k (x ∷ xs) h = ground (arith, h.0, none_equal k xs h.1)

  All-lower : (j k : ℕ) (xs : List A) → j < k → All (λ y. k < key y) xs → All (λ y. j < key y) xs
  All-lower j k [] l h = tt
  All-lower j k (x ∷ xs) l h = (omega (arith, h.0), All-lower j k xs l h.1)

  unique_of_strict : (xs : List A) → IsStrict xs → HasUniqueKeys xs
  unfolding count
  unique_of_strict [] h k = omega arith
  unique_of_strict (x ∷ xs) h k = ground (arith, unique_of_strict xs h.1 k, same_key)
    where
      same_key : key x ≡ k → count (λ y. key y == k) xs ≡ 0
      same_key e = none_equal k xs (subst (λ j. All (λ y. j < key y) xs) e h.0)

  All-insert :
      (k : ℕ) (x : A) (ys : List A)
      → k < key x
      → All (λ y. k < key y) ys
      → All (λ y. k < key y) (insert x ys)
  unfolding insert
  All-insert k x [] l h = (l, tt)
  All-insert k x (y ∷ ys) l h = branch (leb (key x) (key y)) (All-insert k x ys l h.1)
    where
      branch :
          (b : Bool)
          → All (λ y. k < key y) (insert x ys)
          → All (λ y. k < key y) (if b then x ∷ y ∷ ys else y ∷ insert x ys)
      branch true r = (l, h)
      branch false r = (h.0, r)

  unique_skip : (x y : A) (xs : List A) → HasUniqueKeys (x ∷ y ∷ xs) → HasUniqueKeys (x ∷ xs)
  unfolding count
  unique_skip x y xs h k = ground (arith, h k)

  insert-IsStrict :
      (x : A) (ys : List A) → IsStrict ys → HasUniqueKeys (x ∷ ys) → IsStrict (insert x ys)
  unfolding insert
  insert-IsStrict x [] h u = (tt, tt)
  insert-IsStrict x (y ∷ ys) h u = elim (dec_lt (key x) (key y)) [
    | yes l ↦ simp (leb_of_lt l) ((l, All-lower (key x) (key y) ys l h.0), h)
    | no g ↦
        let l : key y < key x = omega (arith, keys_differ x y ys u) in
        simp (leb_of_gt l)
          (All-insert (key y) x ys l h.0, insert-IsStrict x ys h.1 (unique_skip x y ys u))
  ]

  pub sort-IsStrict : (xs : List A) → HasUniqueKeys xs → IsStrict (sort xs)
  unfolding sort
  sort-IsStrict [] h = tt
  sort-IsStrict (x ∷ xs) h =
      insert-IsStrict x (sort xs) (sort-IsStrict xs (unique_rest x xs h))
        (unique-perm (Permᴰ.cons refl (sort-perm xs)) h)

  -- The strictly ordered arrangement of a table's rows is what the query returns.
  pub sort-arrangement : (xs ys : List A) → Permᴰ xs ys → IsStrict ys → sort xs ≡ ys
  sort-arrangement xs ys d s =
      sort-eq d (unique-perm (Permᴰ.symm d) (unique_of_strict ys s)) ∙ sort_of_strict ys s

  keys_above :
      (k : ℕ) (xs ys : List A)
      → map key xs ≡ map key ys
      → All (λ y. k < key y) xs
      → All (λ y. k < key y) ys
  keys_above k [] [] e h = tt
  keys_above k [] (y ∷ ys) e h = absurd (ground arith)
  keys_above k (x ∷ xs) [] e h = absurd (ground arith)
  keys_above k (x ∷ xs) (y ∷ ys) e h = (ground (arith, h.0), keys_above k xs ys (ground arith) h.1)

  -- Whether the keys ascend does not depend on the rest of the rows.
  pub IsStrict-keys : (xs ys : List A) → map key xs ≡ map key ys → IsStrict xs → IsStrict ys
  IsStrict-keys [] [] e h = tt
  IsStrict-keys [] (y ∷ ys) e h = absurd (ground arith)
  IsStrict-keys (x ∷ xs) [] e h = absurd (ground arith)
  IsStrict-keys (x ∷ xs) (y ∷ ys) e h = (
    keys_above (key y) xs ys (ground arith)
        (subst (λ k. All (λ z. k < key z) xs) (ground arith) h.0),
    IsStrict-keys xs ys (ground arith) h.1,
  )

  module _ (f : A → A) (same_key : (x : A) → key (f x) ≡ key x) where
    insert-map : (x : A) (ys : List A) → insert (f x) (map f ys) ≡ map f (insert x ys)
    unfolding insert
    insert-map x [] = refl
    insert-map x (y ∷ ys) =
        rw (same_key x, same_key y) (branch (leb (key x) (key y)) (insert-map x ys))
      where
        branch :
            (b : Bool)
            → insert (f x) (map f ys) ≡ map f (insert x ys)
            → (if b then f x ∷ f y ∷ map f ys else f y ∷ insert (f x) (map f ys))
              ≡ map f (if b then x ∷ y ∷ ys else y ∷ insert x ys)
        branch true e = refl
        branch false e = ap (◌∷◌ (f y)) e

    -- A change that keeps the keys keeps the order.
    pub sort-map : (xs : List A) → sort (map f xs) ≡ map f (sort xs)
    unfolding sort
    sort-map [] = refl
    sort-map (x ∷ xs) = ap (insert (f x)) (sort-map xs) ∙ insert-map x (sort xs)
