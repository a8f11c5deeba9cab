-- ===== src/Wayland/Impl/Children.antt =====
-- The lists of children, as what util/list.c makes of the data pointers: a null pointer is `none`.
use cuts.Base.{ℕ, zero, suc, ◌+◌, Option, none, some, List, [], ◌∷◌, ◌++◌, ◌==◌, if◌then◌else◌}

-- `c_list_push`, with the `c_list_new` in front of it
abbrev pub push_child : ℕ → Option (List ℕ) → Option (List ℕ)
push_child a none = some (a ∷ [])
push_child a (some children) = some (children ++ a ∷ [])

abbrev pub erase_child : ℕ → List ℕ → List ℕ
erase_child a [] = []
erase_child a (c ∷ children) = if c == a then children else c ∷ erase_child a children

-- `c_list_remove`, which leaves an empty list behind
abbrev pub remove_child : ℕ → Option (List ℕ) → Option (List ℕ)
remove_child a none = none
remove_child a (some children) = some (erase_child a children)

-- `c_list_idx`: the place, and none for -1
abbrev pub index_of : ℕ → List ℕ → Option ℕ
index_of a [] = none
index_of a (c ∷ children) =
    if c == a then some 0 else elim (index_of a children) [ none ↦ none | some i ↦ some (i + 1) ]

-- `c_list_insert` in front of the place `i`, which the list has or ends before
abbrev pub insert_child : ℕ → ℕ → List ℕ → List ℕ
insert_child zero a children = a ∷ children
insert_child (suc i) a [] = a ∷ []
insert_child (suc i) a (c ∷ children) = c ∷ insert_child i a children
