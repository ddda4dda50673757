-- ===== src/Institution/Storage/Paths.antt =====
-- Where a key that passes leads (apps/institution-server/institution_server/storage.py).
use predixa_learn.Prelude.{
  ◌≡◌, refl, ap, ◌∙◌, true, false, ◌||◌, Option, none, some, List, [], ◌∷◌, ◌++◌, ◌==◌, Text, same,
  same_refl, starts_with, occurs, arith, All, Bool-cases, inl, inr, ◌⊎◌,
}
use predixa_learn.Institution.Storage.{
  slash, dot, is_refused, validate_key, segment, later_segments, enter_segment, walk, same_names,
  has_nul, is_below, located, path, with_slashes, drop_slashes, drop_last_slashes,
}

-- A text that starts with the segment `p` starts with `p` and a slash, once one is added at the end.
starts_with-segment :
    (p n : Text)
    → same (segment n) p ≡ true
    → starts_with (p ++ slash ∷ []) (n ++ slash ∷ []) ≡ true
unfolding segment same starts_with
starts_with-segment [] [] h = refl
starts_with-segment (x ∷ p) [] h = cc
starts_with-segment [] (c ∷ cs) h = ground arith
starts_with-segment (x ∷ p) (c ∷ cs) h = ground (arith, starts_with-segment p cs)

-- No segment is `..`.
abbrev IsPlain : Text → Type 0
IsPlain s = same s (dot ∷ dot ∷ []) ≡ false

segment-IsPlain :
    (n : Text)
    → starts_with (dot ∷ dot ∷ slash ∷ []) (n ++ slash ∷ []) ≡ false
    → IsPlain (segment n)
segment-IsPlain n h = ground (arith, starts_with-segment (dot ∷ dot ∷ []) n)

segments-IsPlain :
    (n : Text)
    → occurs (dot ∷ dot ∷ slash ∷ []) (n ++ slash ∷ []) ≡ false
    → IsPlain (segment n) × All IsPlain (later_segments n)
unfolding later_segments occurs segment
segments-IsPlain [] h = (unfold same in refl, tt)
segments-IsPlain (c ∷ cs) h =
    let here : starts_with (dot ∷ dot ∷ slash ∷ []) (c ∷ cs ++ slash ∷ []) ≡ false = ground arith in
    let later = segments-IsPlain cs (ground arith) in
    (
      segment-IsPlain (c ∷ cs) here,
      elim (Bool-cases (c == slash)) [ inl e ↦ simp e (later.0, later.1) | inr e ↦ simp e later.1 ],
    )

below_child :
    (root here : List Text) (s : Text) → is_below root here ≡ true → is_below root (s ∷ here) ≡ true
unfolding is_below
below_child root here s h = ground arith

-- A walk along segments that are not `..` does not leave the directory.
enter_segment-is_below :
    (root here : List Text) (s : Text)
    → IsPlain s
    → is_below root here ≡ true
    → is_below root (enter_segment s here) ≡ true
unfolding enter_segment is_below
enter_segment-is_below root here s plain h = elim (Bool-cases (same s [] || same s (dot ∷ []))) [
  | inl e ↦ simp e h
  | inr e ↦ simp (e, plain) (below_child root here s h)
]

walk-is_below :
    (root here : List Text) (ss : List Text)
    → All IsPlain ss
    → is_below root here ≡ true
    → is_below root (walk ss here) ≡ true
unfolding walk
walk-is_below root here [] plain h = h
walk-is_below root here (s ∷ ss) plain h =
    walk-is_below root (enter_segment s here) ss plain.1
      (enter_segment-is_below root here s plain.0 h)

pub same_names_refl : (xs : List Text) → same_names xs xs ≡ true
same_names_refl [] = refl
same_names_refl (x ∷ xs) = ground (arith, same_refl x, same_names_refl xs)

is_below_refl : (root : List Text) → is_below root root ≡ true
unfolding is_below
is_below_refl [] = refl
is_below_refl (d ∷ ds) = ground (arith, same_names_refl (d ∷ ds))

accepted-is_below :
    (root : List Text) (n : Text)
    → is_refused n ≡ false
    → is_below root (walk (segment n ∷ later_segments n) root) ≡ true
unfolding is_refused occurs
accepted-is_below root n h =
    let plain = segments-IsPlain n (ground arith) in
    walk-is_below root root (segment n ∷ later_segments n) plain (is_below_refl root)

accepted-located :
    (root : List Text) (o : Option Text) (n : Text)
    → o ≡ some n
    → is_refused n ≡ false
    → ((has_nul n ≡ true) × (located root o ≡ none))
      ⊎ ((has_nul n ≡ false) × (located root o ≡ some (walk (segment n ∷ later_segments n) root)))
accepted-located root o n e ok = elim (Bool-cases (has_nul n)) [
  | inl k ↦ inl (k, ap (located root) e ∙ simp k)
  | inr k ↦ inr (k, ap (located root) e ∙ simp (k, accepted-is_below root n ok))
]

-- `_path` raises for exactly the keys that `validate_key` refuses and those with the character NUL, so
-- that its own check `relative_to` never fires, and what it returns lies below the root.
pub path-is_below :
    (root : List Text) (key : Text)
    → (validate_key key ≡ none × path root key ≡ none)
      ⊎ ((n : Text) × (validate_key key ≡ some n)
          × (((has_nul n ≡ true) × (path root key ≡ none))
              ⊎ ((has_nul n ≡ false)
                  × ((p : List Text) × (path root key ≡ some p) × (is_below root p ≡ true)))))
unfolding path validate_key
path-is_below root key =
    let n = drop_last_slashes (drop_slashes (with_slashes key)) in
    elim (Bool-cases (is_refused n)) [
      | inl e ↦ inl (simp e, simp e)
      | inr e ↦ inr (
        n,
        simp e,
        elim (accepted-located root (validate_key key) n (unfold validate_key in simp e) e) [
          | inl k ↦ inl k
          | inr (k, there) ↦
              inr (k, (walk (segment n ∷ later_segments n) root, there, accepted-is_below root n e))
        ],
      )
    ]
