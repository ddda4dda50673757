-- ===== src/Institution/Storage/Files.antt =====
-- What the operations of the local adapter do to the files
-- (apps/institution-server/institution_server/storage.py).
use mathlib.Core.Option.{some-injective}
use predixa_learn.Prelude.{
  ℕ, ◌++◌, false, Bool, ◌≡◌, refl, sym, ap, ◌∙◌, true, Option, none, some, List, [], ◌∷◌, Text,
  eq_of_same, arith, Bool-cases, inl, inr, ◌≢◌,
}
use predixa_learn.Institution.Storage.Paths.{same_names_refl}
use predixa_learn.Institution.Storage.{
  same_names, path, LocalObjectStorage, with_file, part, Disk, works, no_directory, write_fails,
  replace_fails, put_at, delete_at, read_at, put, read, delete,
}

eq_of_same_names : (xs ys : List Text) → same_names xs ys ≡ true → xs ≡ ys
eq_of_same_names [] [] h = refl
eq_of_same_names [] (y ∷ ys) h = cc
eq_of_same_names (x ∷ xs) [] h = cc
eq_of_same_names (x ∷ xs) (y ∷ ys) h = ground (arith, eq_of_same x y, eq_of_same_names xs ys)

-- A file written or removed is the only one that changes.
read_at-others :
    (s : LocalObjectStorage) (p : List Text) (content : Option Text) (o : Option (List Text))
    → o ≢ some p
    → read_at (with_file p content s) o ≡ read_at s o
unfolding with_file
read_at-others s p content none other = refl
read_at-others s p content (some q) other = elim (Bool-cases (same_names p q)) [
  | inl e ↦ absurd (other (ap some (sym (eq_of_same_names p q e))))
  | inr e ↦ simp e
]

read_at-own :
    (s : LocalObjectStorage) (p : List Text) (content : Option Text)
    → read_at (with_file p content s) (some p) ≡ content
unfolding with_file
read_at-own s p content = simp (same_names_refl p)

longer : (d : Text) (c : ℕ) (cs : Text) → d ≢ d ++ c ∷ cs
longer [] c cs h = absurd (ground (arith, h))
longer (x ∷ d) c cs h = longer d c cs (ap tail h)
  where
    tail : Text → Text
    tail [] = []
    tail (y ∷ ys) = ys

part-other : (p : List Text) → p ≢ part p
part-other [] h = absurd (ground (arith, h))
part-other (d ∷ ds) h = longer d _ _ (ap name h)
  where
    name : List Text → Text
    name [] = []
    name (y ∷ ys) = y

some_other : (p q : List Text) → p ≢ q → some p ≢ some q
some_other p q h e = h (some-injective p q e)

module _ (s : LocalObjectStorage) (p : List Text) (bytes : Text) where
  put_at-others :
      (io : Disk) (o : Option (List Text))
      → o ≢ some p
      → o ≢ some (part p)
      → read_at (put_at s (some p) bytes io).0 o ≡ read_at s o
  put_at-others works o a b =
      read_at-others (with_file (part p) none s) p (some bytes) o a
      ∙ read_at-others s (part p) none o b
  put_at-others no_directory o a b = refl
  put_at-others (write_fails left) o a b = read_at-others s (part p) left o b
  put_at-others replace_fails o a b = read_at-others s (part p) (some bytes) o b

  -- What a `put` that did not go through leaves under its key
  put_at-failed :
      (io : Disk)
      → (put_at s (some p) bytes io).1 ≡ false
      → read_at (put_at s (some p) bytes io).0 (some p) ≡ read_at s (some p)
  put_at-failed works h = absurd (ground arith)
  put_at-failed no_directory h = refl
  put_at-failed (write_fails left) h =
      read_at-others s (part p) left (some p) (some_other p (part p) (part-other p))
  put_at-failed replace_fails h =
      read_at-others s (part p) (some bytes) (some p) (some_other p (part p) (part-other p))

  part_gone : read_at (put_at s (some p) bytes works).0 (some (part p)) ≡ none
  part_gone =
      read_at-others (with_file (part p) none s) p (some bytes) (some (part p))
        (some_other (part p) p λ e. part-other p (sym e))
      ∙ read_at-own s (part p) none

module _ (s : LocalObjectStorage) (key bytes : Text) (p : List Text)
    (h : path s.root key ≡ some p) where
  read-put :
      (io : Disk) (other : Text)
      → read (put s key bytes io).0 other
        ≡ read_at (put_at s (some p) bytes io).0 (path s.root other)
  unfolding put read with_file
  read-put io other = ap (λ o. read (put_at s o bytes io).0 other) h ∙ kept io
    where
      kept :
          (io : Disk)
          → read (put_at s (some p) bytes io).0 other
            ≡ read_at (put_at s (some p) bytes io).0 (path s.root other)
      kept works = refl
      kept no_directory = refl
      kept (write_fails left) = refl
      kept replace_fails = refl

  put-at : (io : Disk) → put s key bytes io ≡ put_at s (some p) bytes io
  unfolding put
  put-at io = ap (λ o. put_at s o bytes io) h

  delete-at : (raises : Bool) → delete s key raises ≡ delete_at s (some p) raises
  unfolding delete
  delete-at raises = ap (λ o. delete_at s o raises) h

  read-delete :
      (other : Text)
      → read (delete s key false).0 other ≡ read_at (with_file p none s) (path s.root other)
  unfolding delete read with_file
  read-delete other = ap (λ o. read (delete_at s o false).0 other) h

  read_own : read s key ≡ read_at s (some p)
  unfolding read
  read_own = ap (read_at s) h

-- What `put` and `delete` do for a key that has a path. A `put` where nothing raises goes through, and
-- the key reads as what was put; but a key whose path has `.part` at its end reads as none afterwards,
-- whatever it had. A `put` that does not go through leaves the key as it was. Whatever raises, every
-- other key reads as before. After a `delete` that goes through the key has no file and every other key
-- reads as before; one that raises changes nothing.
pub read-put-delete :
    (s : LocalObjectStorage) (key bytes : Text) (p : List Text)
    → path s.root key ≡ some p
    → ((put s key bytes works).1 ≡ true)
      × (read (put s key bytes works).0 key ≡ some bytes)
      × ((other : Text)
          → path s.root other ≡ some (part p)
          → read (put s key bytes works).0 other ≡ none)
      × ((io : Disk)
          → (put s key bytes io).1 ≡ false
          → read (put s key bytes io).0 key ≡ read s key)
      × ((io : Disk) (other : Text)
          → path s.root other ≢ some p
          → path s.root other ≢ some (part p)
          → read (put s key bytes io).0 other ≡ read s other)
      × ((delete s key false).1 ≡ true)
      × (read (delete s key false).0 key ≡ none)
      × ((other : Text)
          → path s.root other ≢ some p
          → read (delete s key false).0 other ≡ read s other)
      × (delete s key true ≡ (s, false))
unfolding read
read-put-delete s key bytes p h = (
  ap (λ r. r.1) (put-at s key bytes p h works),
  read-put s key bytes p h works key
      ∙ ap (read_at (put_at s (some p) bytes works).0) h
      ∙ read_at-own (with_file (part p) none s) p (some bytes),
  λ other e.
      read-put s key bytes p h works other
      ∙ ap (read_at (put_at s (some p) bytes works).0) e
      ∙ part_gone s p bytes,
  λ io e.
      read-put s key bytes p h io key
      ∙ ap (read_at (put_at s (some p) bytes io).0) h
      ∙ put_at-failed s p bytes io (sym (ap (λ r. r.1) (put-at s key bytes p h io)) ∙ e)
      ∙ sym (read_own s key bytes p h),
  λ io other a b.
      read-put s key bytes p h io other ∙ put_at-others s p bytes io (path s.root other) a b,
  ap (λ r. r.1) (delete-at s key bytes p h false),
  read-delete s key bytes p h key ∙ ap (read_at (with_file p none s)) h ∙ read_at-own s p none,
  λ other a. read-delete s key bytes p h other ∙ read_at-others s p none (path s.root other) a,
  delete-at s key bytes p h true,
)
