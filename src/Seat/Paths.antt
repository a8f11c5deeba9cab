-- ===== src/Seat/Paths.antt =====
-- util/helpers.c: `starts_with`, and the paths that seat/session/impl/diazepam/daemon.c opens.
use cuts.Base.{ℕ, Bool, true, false, List, [], ◌∷◌, ◌==◌, if◌then◌else◌}

-- `strncmp` on the length of the prefix. A path is its bytes in front of the first 0.
unfoldable pub starts_with : List ℕ → List ℕ → Bool
starts_with path [] = true
starts_with [] (p ∷ prefix) = false
starts_with (x ∷ path) (p ∷ prefix) =
    let rest = starts_with path prefix in if x == p then rest else false

-- "/dev/dri/card" and "/dev/input/event"
abbrev pub dri_card : List ℕ
dri_card = 47 ∷ 100 ∷ 101 ∷ 118 ∷ 47 ∷ 100 ∷ 114 ∷ 105 ∷ 47 ∷ 99 ∷ 97 ∷ 114 ∷ 100 ∷ []

abbrev pub input_event : List ℕ
input_event =
    47 ∷ 100 ∷ 101 ∷ 118 ∷ 47 ∷ 105 ∷ 110 ∷ 112 ∷ 117 ∷ 116 ∷ 47 ∷ 101 ∷ 118 ∷ 101 ∷ 110 ∷ 116 ∷ []
