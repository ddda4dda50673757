-- ===== src/Institution/Storage/Normal.antt =====
-- A key that was validated is validated again without change
-- (apps/institution-server/institution_server/storage.py, `validate_key`).
use predixa_learn.Prelude.{
  ℕ, ◌≡◌, refl, sym, ap, subst, ◌∙◌, Bool, true, false, not, ◌&&◌, none, some, [], ◌∷◌, ◌==◌,
  if◌then◌else◌, Text, arith, Bool-cases, inl, inr,
}
use predixa_learn.Institution.Storage.{
  slash, with_slashes, drop_slashes, last_slash, drop_last_slashes, is_refused, validate_key,
}

-- No backslash is left.
abbrev is_clean : Text → Bool
is_clean [] = true
is_clean (c ∷ cs) = not (c == 92) && is_clean cs

clean-with_slashes : (s : Text) → is_clean (with_slashes s) ≡ true
unfolding with_slashes
clean-with_slashes [] = refl
clean-with_slashes (c ∷ cs) = ground (arith, clean-with_slashes cs)

with_slashes-clean : (s : Text) → is_clean s ≡ true → with_slashes s ≡ s
unfolding with_slashes
with_slashes-clean [] h = refl
with_slashes-clean (c ∷ cs) h = ground (arith, with_slashes-clean cs)

clean-drop_slashes : (s : Text) → is_clean s ≡ true → is_clean (drop_slashes s) ≡ true
unfolding drop_slashes
clean-drop_slashes [] h = refl
clean-drop_slashes (c ∷ cs) h = ground (arith, clean-drop_slashes cs)

clean-last_slash :
    (c : ℕ) (s : Text) → not (c == 92) ≡ true → is_clean s ≡ true → is_clean (last_slash c s) ≡ true
clean-last_slash c [] a h = ground arith
clean-last_slash c (d ∷ ds) a h = ground arith

clean-drop_last_slashes : (s : Text) → is_clean s ≡ true → is_clean (drop_last_slashes s) ≡ true
unfolding drop_last_slashes
clean-drop_last_slashes [] h = refl
clean-drop_last_slashes (c ∷ cs) h =
    clean-last_slash c (drop_last_slashes cs) (ground arith)
      (clean-drop_last_slashes cs (ground arith))

abbrev leads : Text → Bool
leads [] = false
leads (c ∷ cs) = c == slash

leads-drop_slashes : (s : Text) → leads (drop_slashes s) ≡ false
unfolding drop_slashes
leads-drop_slashes [] = refl
leads-drop_slashes (c ∷ cs) = ground (arith, leads-drop_slashes cs)

drop_slashes-leads : (s : Text) → leads s ≡ false → drop_slashes s ≡ s
unfolding drop_slashes
drop_slashes-leads [] h = refl
drop_slashes-leads (c ∷ cs) h = ground arith

leads-last_slash : (c : ℕ) (s : Text) → (c == slash) ≡ false → leads (last_slash c s) ≡ false
leads-last_slash c [] h = ground arith
leads-last_slash c (d ∷ ds) h = h

leads-drop_last_slashes : (s : Text) → leads s ≡ false → leads (drop_last_slashes s) ≡ false
unfolding drop_last_slashes
leads-drop_last_slashes [] h = refl
leads-drop_last_slashes (c ∷ cs) h = leads-last_slash c (drop_last_slashes cs) h

drop_last_slashes-last_slash :
    (c : ℕ) (s : Text)
    → drop_last_slashes s ≡ s
    → drop_last_slashes (last_slash c s) ≡ last_slash c s
unfolding drop_last_slashes
drop_last_slashes-last_slash c [] h = elim (Bool-cases (c == slash)) [
  | inl e ↦ simp e
  | inr e ↦ simp e
]
drop_last_slashes-last_slash c (d ∷ ds) h = ap (last_slash c) h

drop_last_slashes_idem : (s : Text) → drop_last_slashes (drop_last_slashes s) ≡ drop_last_slashes s
unfolding drop_last_slashes
drop_last_slashes_idem [] = refl
drop_last_slashes_idem (c ∷ cs) =
    drop_last_slashes-last_slash c (drop_last_slashes cs) (drop_last_slashes_idem cs)

normal_form : Text → Text
normal_form key = drop_last_slashes (drop_slashes (with_slashes key))

normal_form_idem : (key : Text) → normal_form (normal_form key) ≡ normal_form key
unfolding normal_form
normal_form_idem key =
    let s = with_slashes key in
    let clean =
      clean-drop_last_slashes (drop_slashes s) (clean-drop_slashes s (clean-with_slashes key)) in
    let led = leads-drop_last_slashes (drop_slashes s) (leads-drop_slashes s) in
    ap (λ x. drop_last_slashes (drop_slashes x)) (with_slashes-clean _ clean)
    ∙ ap drop_last_slashes (drop_slashes-leads _ led)
    ∙ drop_last_slashes_idem (drop_slashes s)

validate_normal :
    (key : Text)
    → validate_key key ≡ (if is_refused (normal_form key) then none else some (normal_form key))
unfolding validate_key normal_form
validate_normal key = refl

accepted : (b : Bool) (x n : Text) → (if b then none else some x) ≡ some n → (b ≡ false) × (x ≡ n)
accepted true x n h = absurd (ground arith)
accepted false x n h = ground arith

-- What `validate_key` returns passes it unchanged, so that a stored key names the file it was given.
pub validate_key_idem : (key n : Text) → validate_key key ≡ some n → validate_key n ≡ some n
validate_key_idem key n h =
    let x = normal_form key in
    let both = accepted (is_refused x) x n (sym (validate_normal key) ∙ h) in
    let same = normal_form_idem key in
    subst (λ y. validate_key y ≡ some y) both.1
      (validate_normal x
        ∙ ap (λ y. if is_refused y then none else some y) same
        ∙ ap (λ b. if b then none else some x) both.0)
