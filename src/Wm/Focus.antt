-- ===== src/Wm/Focus.antt =====
-- cuts.c: the selection of a window by its number among the windows of the tags in view.
use cuts.Base.{
  ℕ, zero, suc, ◌+◌, ◌-◌, ◌%◌, ◌^◌, ◌<◌, ◌≡◌, refl, ap, ◌∙◌, inl, inr, true, false, ◌&&◌, Option,
  none, some, List, [], ◌∷◌, arith, ltb, ◌==◌, if◌then◌else◌, ltb→lt, Bool-cases,
}
use cuts.Base.Lists.{length, get_elem?, lt_of_get_elem?}
use native.Mathlib.Nat.{add-mod_right, mod-eq_of_lt, mod_self}
use cuts.Wm.Layout.{Client, in_tag}

unfoldable pub count_windows : ℕ → List Client → ℕ
count_windows tag [] = 0
count_windows tag (c ∷ cs) =
    let rest = count_windows tag cs in if in_tag tag c && c.is_window then rest + 1 else rest

-- The second loop of `tag_select_client`, from the count `k` on
unfoldable pub select_loop : ℕ → ℕ → ℕ → List Client → Option Client
select_loop tag index k [] = none
select_loop tag index k (c ∷ cs) =
    let window = in_tag tag c && c.is_window in
    let rest = select_loop tag index (if window then k + 1 else k) cs in
    if window && (index == k) then some c else rest

-- `tag_select_client`: `direction` and the index are taken as `uint32_t`, as their sum with the
-- number of clients is. The result has the new index.
unfoldable pub tag_select_client : ℕ → (direction index : ℕ) → List Client → ℕ × Option Client
unfolding count_windows select_loop
tag_select_client tag direction index clients =
    let n = count_windows tag clients in
    let index' = (index + direction + n) % 2 ^ 32 % n in
    if n == 0 then (index, none) else (index', select_loop tag index' 0 clients)

abbrev pub windows : ℕ → List Client → List Client
windows tag [] = []
windows tag (c ∷ cs) = if in_tag tag c && c.is_window then c ∷ windows tag cs else windows tag cs

pub count_windows_lem :
    (tag : ℕ) (cs : List Client) → count_windows tag cs ≡ length (windows tag cs)
unfolding count_windows
count_windows_lem tag [] = refl
count_windows_lem tag (c ∷ cs) = elim (Bool-cases (in_tag tag c && c.is_window)) [
  | inl t ↦ let rest = count_windows_lem tag cs in rw t (omega arith)
  | inr t ↦ rw t (count_windows_lem tag cs)
]

select_loop_lem :
    (tag k i : ℕ) (cs : List Client) → select_loop tag (k + i) k cs ≡ get_elem? (windows tag cs) i
unfolding select_loop
select_loop_lem tag k i [] = refl
select_loop_lem tag k zero (c ∷ cs) = elim (Bool-cases (in_tag tag c && c.is_window)) [
  | inl t ↦ let here : (k + 0 == k) ≡ true = ground arith in rw (t, here) refl
  | inr t ↦ rw t (select_loop_lem tag k 0 cs)
]
select_loop_lem tag k (suc i) (c ∷ cs) = elim (Bool-cases (in_tag tag c && c.is_window)) [
  | inl t ↦
      let further : (k + suc i == k) ≡ false = ground arith in
      rw (t, further)
        (ap (λ m. select_loop tag m (k + 1) cs) (omega arith) ∙ select_loop_lem tag (k + 1) i cs)
  | inr t ↦ rw t (select_loop_lem tag k (suc i) cs)
]

around : (a n : ℕ) → a < n → (a + n) % n ≡ a
around a n less = add-mod_right a n ∙ mod-eq_of_lt less

around_twice : (n : ℕ) → (n + n) % n ≡ 0
around_twice n = add-mod_right n n ∙ mod_self n

module _ (tag d index a : ℕ) (cs : List Client)
    (reduced : (index + d + length (windows tag cs)) % 2 ^ 32 % length (windows tag cs) ≡ a)
    (less : a < length (windows tag cs)) where
  -- The number that is looked for is that of a window.
  tag_select_client_lem : tag_select_client tag d index cs ≡ (a, get_elem? (windows tag cs) a)
  unfolding tag_select_client
  tag_select_client_lem =
      let some_windows : (length (windows tag cs) == 0) ≡ false = ground arith in
      let chosen : select_loop tag a 0 cs ≡ get_elem? (windows tag cs) a =
        ap (λ m. select_loop tag m 0 cs) (omega arith) ∙ select_loop_lem tag 0 a cs in
      rw (count_windows_lem tag cs, some_windows, reduced, chosen) refl

forward : (i n : ℕ) → i + 1 < n → n < 2 ^ 31 → (i + 1 + n) % 2 ^ 32 % n ≡ i + 1
forward i n less few =
    let word : (i + 1 + n) % 2 ^ 32 ≡ i + 1 + n = omega arith in rw word (around (i + 1) n less)

forward_last : (i n : ℕ) → i + 1 ≡ n → n < 2 ^ 31 → (i + 1 + n) % 2 ^ 32 % n ≡ 0
forward_last i n last few =
    let word : (i + 1 + n) % 2 ^ 32 ≡ n + n = omega arith in rw word (around_twice n)

backward : (i n : ℕ) → i < n → n < 2 ^ 31 → (i + 1 + (2 ^ 32 - 1) + n) % 2 ^ 32 % n ≡ i
backward i n less few =
    let word : (i + 1 + (2 ^ 32 - 1) + n) % 2 ^ 32 ≡ i + n = omega arith in
    rw word (around i n less)

backward_first : (i n : ℕ) → i + 1 ≡ n → n < 2 ^ 31 → (0 + (2 ^ 32 - 1) + n) % 2 ^ 32 % n ≡ i
backward_first i n last few =
    let word : (0 + (2 ^ 32 - 1) + n) % 2 ^ 32 ≡ i = omega arith in
    rw word (mod-eq_of_lt (omega arith))

-- From the index of a window in view, `tag_select_client` by one and back selects that window, also
-- around the end of the list.
pub select_back :
    (tag index : ℕ) (cs : List Client) (c : Client)
    → length (windows tag cs) < 2 ^ 31
    → get_elem? (windows tag cs) index ≡ some c
    → tag_select_client tag (2 ^ 32 - 1) (tag_select_client tag 1 index cs).0 cs ≡ (index, some c)
select_back tag index cs c few found =
    let n = length (windows tag cs) in
    let less = lt_of_get_elem? (windows tag cs) index found in
    elim (Bool-cases (ltb (index + 1) (length (windows tag cs)))) [
      | inl t ↦
          let next : index + 1 < length (windows tag cs) = ltb→lt _ _ t in
          rw
            (
              tag_select_client_lem tag 1 index (index + 1) cs (forward index n next few) next,
              tag_select_client_lem tag (2 ^ 32 - 1) (index + 1) index cs
                  (backward index n less few) less,
              found,
            )
            refl
      | inr t ↦
          let last : index + 1 ≡ n = ground arith in
          rw
            (
              tag_select_client_lem tag 1 index 0 cs (forward_last index n last few) (omega arith),
              tag_select_client_lem tag (2 ^ 32 - 1) 0 index cs (backward_first index n last few)
                  less,
              found,
            )
            refl
    ]
