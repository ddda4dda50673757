-- ===== src/Institution/Workers/Rows.antt =====
-- What every row of a table keeps when a query's rows are assigned to
-- (apps/institution-server/institution_server/workers.py).
use predixa_learn.Prelude.{
  ℕ, zero, suc, ◌≡◌, refl, Bool, true, false, List, [], ◌∷◌, ◌++◌, All, ◌&&◌, some, first, arith,
  subst, sym, ap, ◌∙◌, Bool-cases, inl, inr,
}
use predixa_learn.Institution.Workers.State.{update, update_first}

module _ {ℓ κ} {A : Type ℓ} (P : A → Type κ) where
  pub All-append : (xs : List A) (y : A) → All P xs → P y → All P (xs ++ y ∷ [])
  All-append [] y h p = (p, tt)
  All-append (x ∷ xs) y h p = (h.0, All-append xs y h.1 p)

  module _ {μ} (Q : A → Type μ) where
    pub All-mono : (xs : List A) → ((x : A) → Q x → P x) → All Q xs → All P xs
    All-mono [] h all = tt
    All-mono (x ∷ xs) h all = (h x all.0, All-mono xs h all.1)

  module _ {μ} (Q : A → Type μ) (p : A → Bool) (f : A → A) where
    pub All-update :
        (xs : List A)
        → ((x : A) → Q x → p x ≡ true → P (f x))
        → ((x : A) → Q x → p x ≡ false → P x)
        → All Q xs
        → All P (update p f xs)
    unfolding update
    All-update [] hit miss h = tt
    All-update (x ∷ xs) hit miss h = (
      elim (Bool-cases (p x)) [ inl e ↦ simp e (hit x h.0 e) | inr e ↦ simp e (miss x h.0 e) ],
      All-update xs hit miss h.1,
    )

    pub All-update_first :
        (n : ℕ) (xs : List A)
        → ((x : A) → Q x → p x ≡ true → P (f x))
        → ((x : A) → Q x → P x)
        → All Q xs
        → All P (update_first p f n xs)
    unfolding update_first
    All-update_first n [] hit miss h = tt
    All-update_first zero (x ∷ xs) hit miss h = All-mono Q (x ∷ xs) miss h
    All-update_first (suc n) (x ∷ xs) hit miss h = elim (Bool-cases (p x)) [
      | inl e ↦ simp e (hit x h.0 e, All-update_first n xs hit miss h.1)
      | inr e ↦ simp e (miss x h.0, All-update_first (suc n) xs hit miss h.1)
    ]

-- A table after an operation: each row has become its `R`-successor, and rows with `Q` may be added.
module _ {ℓ} {A : Type ℓ} (R : A → A → Type 0) (Q : A → Type 0) where
  abbrev pub Grown : List A → List A → Type 0
  Grown [] ys = All Q ys
  Grown (x ∷ xs) [] = ⊥
  Grown (x ∷ xs) (y ∷ ys) = R x y × Grown xs ys

  module _ (keep : (x : A) → R x x) where
    pub Grown-refl : (xs : List A) → Grown xs xs
    Grown-refl [] = tt
    Grown-refl (x ∷ xs) = (keep x, Grown-refl xs)

    pub Grown-append : (xs ys : List A) → All Q ys → Grown xs (xs ++ ys)
    Grown-append [] ys h = h
    Grown-append (x ∷ xs) ys h = (keep x, Grown-append xs ys h)

    module _ (p : A → Bool) (f : A → A) (hit : (x : A) → p x ≡ true → R x (f x)) where
      pub Grown-update : (xs : List A) → Grown xs (update p f xs)
      unfolding update
      Grown-update [] = tt
      Grown-update (x ∷ xs) = (
        elim (Bool-cases (p x)) [ inl e ↦ simp e (hit x e) | inr e ↦ simp e (keep x) ],
        Grown-update xs,
      )

      pub Grown-update_first : (n : ℕ) (xs : List A) → Grown xs (update_first p f n xs)
      unfolding update_first
      Grown-update_first n [] = tt
      Grown-update_first zero (x ∷ xs) = Grown-refl (x ∷ xs)
      Grown-update_first (suc n) (x ∷ xs) = elim (Bool-cases (p x)) [
        | inl e ↦ simp e (hit x e, Grown-update_first n xs)
        | inr e ↦ simp e (keep x, Grown-update_first (suc n) xs)
      ]

-- The rows that no row is added to.
abbrev pub IsNoRow {ℓ} : {A : Type ℓ} → A → Type 0
IsNoRow x = ⊥

module _ {ℓ} {A : Type ℓ} (S : A → A → Type 0) where
  pub Grown-trans :
      (xs ys zs : List A)
      → ((x y z : A) → S x y → S y z → S x z)
      → Grown S IsNoRow xs ys
      → Grown S IsNoRow ys zs
      → Grown S IsNoRow xs zs
  Grown-trans [] [] zs t h k = k
  Grown-trans [] (y ∷ ys) zs t h k = absurd h.0
  Grown-trans (x ∷ xs) (y ∷ ys) (z ∷ zs) t h k = (t x y z h.0 k.0, Grown-trans xs ys zs t h.1 k.1)
  Grown-trans (x ∷ xs) [] zs t h k = absurd h
  Grown-trans (x ∷ xs) (y ∷ ys) [] t h k = absurd k

module _ {ℓ} {A : Type ℓ} (P Q : A → Type 0) where
  -- A property that the rows keep and the new rows have is one that all rows have.
  pub All-Grown :
      (xs ys : List A)
      → ((y : A) → Q y → P y)
      → Grown (λ x y. P x → P y) Q xs ys
      → All P xs
      → All P ys
  All-Grown [] ys new h all = All-mono P Q ys new h
  All-Grown (x ∷ xs) [] new h all = absurd h
  All-Grown (x ∷ xs) (y ∷ ys) new h all = (h.0 all.0, All-Grown xs ys new h.1 all.1)

-- The row that a query returned, after an assignment to it.
module _ {ℓ} {A : Type ℓ} (p q : A → Bool) (f : A → A) (c : A → Bool) where
  pub first-update :
      (xs : List A) (x : A)
      → ((y : A) → p (f y) ≡ p y)
      → ((y : A) → q y ≡ (p y && c y))
      → c x ≡ true
      → first p xs ≡ some x
      → first p (update q f xs) ≡ some (f x)
  unfolding first update
  first-update [] x keeps picks hit h = absurd (ground arith)
  first-update (y ∷ ys) x keeps picks hit h = elim (Bool-cases (p y)) [
    | inl e ↦
        let it : y ≡ x = ground (arith, e) in
        let picked : q y ≡ true = picks y ∙ rw e (subst (λ z. c z ≡ true) (sym it) hit) in
        let stays : p (f y) ≡ true = keeps y ∙ e in simp (picked, stays) (ap (λ z. some (f z)) it)
    | inr e ↦
        let missed : q y ≡ false = picks y ∙ rw e refl in
        simp (missed, e) (first-update ys x keeps picks hit (simp e at h))
  ]
