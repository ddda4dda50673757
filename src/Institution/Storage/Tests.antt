-- ===== src/Institution/Storage/Tests.antt =====
-- Runs of the storage adapter on concrete keys.
use predixa_learn.Prelude.{
  ◌≡◌, refl, true, false, none, some, List, [], ◌∷◌, Text, text, same, ◌⊎◌, ◌≢◌,
}
use predixa_learn.Institution.Storage.{
  with_slashes, drop_slashes, drop_last_slashes, is_refused, validate_key, segment, later_segments,
  enter_segment, walk, is_below, path, LocalObjectStorage, put, read, delete, has_nul, part, Disk,
  works,
}
use predixa_learn.Institution.Storage.Paths.{path-is_below}
use predixa_learn.Institution.Storage.Files.{read-put-delete}

abbrev store : LocalObjectStorage
store = record { root = text "store" ∷ []; files = λ p. none }

plain_key : validate_key (text "\\tenant/a.pdf/") ≡ some (text "tenant/a.pdf")
unfolding validate_key is_refused with_slashes drop_slashes drop_last_slashes same
plain_key = refl

climbing_key : validate_key (text "tenant/../../etc") ≡ none
unfolding validate_key is_refused with_slashes drop_slashes drop_last_slashes same
climbing_key = refl

path-is_below_example :
    (validate_key (text "t/a") ≡ none × path (text "store" ∷ []) (text "t/a") ≡ none)
    ⊎ ((n : Text) × (validate_key (text "t/a") ≡ some n)
        × (((has_nul n ≡ true) × (path (text "store" ∷ []) (text "t/a") ≡ none))
            ⊎ ((has_nul n ≡ false)
                × ((p : List Text) × (path (text "store" ∷ []) (text "t/a") ≡ some p)
                    × (is_below (text "store" ∷ []) p ≡ true)))))
path-is_below_example = path-is_below (text "store" ∷ []) (text "t/a")

located_key : path store.root (text "t/a") ≡ some (text "a" ∷ text "t" ∷ text "store" ∷ [])
unfolding path validate_key is_refused with_slashes drop_slashes drop_last_slashes walk segment
    later_segments enter_segment is_below same
located_key = refl

-- The path of the key "t/a"
abbrev place : List Text
place = text "a" ∷ text "t" ∷ text "store" ∷ []

read-put-delete_example :
    ((put store (text "t/a") (text "x") works).1 ≡ true)
    × (read (put store (text "t/a") (text "x") works).0 (text "t/a") ≡ some (text "x"))
    × ((other : Text)
        → path store.root other ≡ some (part place)
        → read (put store (text "t/a") (text "x") works).0 other ≡ none)
    × ((io : Disk)
        → (put store (text "t/a") (text "x") io).1 ≡ false
        → read (put store (text "t/a") (text "x") io).0 (text "t/a") ≡ read store (text "t/a"))
    × ((io : Disk) (other : Text)
        → path store.root other ≢ some place
        → path store.root other ≢ some (part place)
        → read (put store (text "t/a") (text "x") io).0 other ≡ read store other)
    × ((delete store (text "t/a") false).1 ≡ true)
    × (read (delete store (text "t/a") false).0 (text "t/a") ≡ none)
    × ((other : Text)
        → path store.root other ≢ some place
        → read (delete store (text "t/a") false).0 other ≡ read store other)
    × (delete store (text "t/a") true ≡ (store, false))
read-put-delete_example = read-put-delete store (text "t/a") (text "x") place located_key
