-- ===== src/Wayland/Wire/Strings.antt =====
-- Strings and arrays in the buffer.
use cuts.Base.{
  ℕ, ◌+◌, ◌%◌, ◌^◌, ◌≤◌, ◌<◌, ◌≡◌, refl, ◌∙◌, subst, true, false, List, [], ◌∷◌, ◌++◌, arith, ltb,
  ◌==◌, lt→ltb, ok,
}
use cuts.Base.Bytes.{Bytes}
use cuts.Base.Lists.{length, replicate, length-append, length-replicate}
use cuts.Wayland.Wire.{
  padded4, write_u32, read_string, write_string, read_array, write_array, copy_in, copy_out, clear,
  terminated,
}
use cuts.Wayland.Wire.Region.{
  Holds, Holds-same, Holds-append, Holds_left, Holds_right, copy_in_lem, copy_out_lem, clear_lem,
}
use cuts.Wayland.Wire.Numbers.{le32, write_u32_lem, read_u32_lem}

-- `b'` is `b` with `vs` written at `offset`, and no byte changed outside `offset` up to `end`.
pub record Filled (b : Bytes) (offset end : ℕ) (vs : List ℕ) (b' : Bytes) : Type 0 where
  pub holds : Holds b' offset vs
  pub len : b'.len ≡ b.len
  pub before : (j : ℕ) → j < offset → b'.at j ≡ b.at j
  pub after : (j : ℕ) → end ≤ j → b'.at j ≡ b.at j

pub padded4_bounds : (n : ℕ) → n + 3 < 2 ^ 32 → (n ≤ padded4 n) × (padded4 n < n + 4)
unfolding padded4
padded4_bounds n h = (omega arith, omega arith)

-- The size of a string with its end, as the wire has it.
abbrev pub string_size : List ℕ → ℕ
string_size s = length s + 1

length-terminated : (s : List ℕ) → length (terminated s) ≡ string_size s
length-terminated s = omega (arith, length-append s (0 ∷ []))

-- The size, cleared padding, and then the bytes: what both writers do.
fill_lem :
    (b : Bytes) (offset n : ℕ) (vs : List ℕ)
    → length vs ≤ n
    → offset + 4 + n ≤ b.len
    → (size : ℕ)
    → (b1 b2 b3 : Bytes) × (write_u32 b offset size ≡ ok (b1, offset + 4))
      × (clear b1 (offset + 4) n ≡ ok b2)
      × (copy_in b2 (offset + 4) vs ≡ ok b3)
      × Filled b offset (offset + 4 + n) (le32 size ++ vs) b3
fill_lem b offset n vs fits room size =
    let (b1, run1, w1) = write_u32_lem b offset size (omega arith) in
    let (b2, run2, w2) = clear_lem b1 (offset + 4) n (omega (arith, w1.len)) in
    let (b3, run3, w3) = copy_in_lem b2 (offset + 4) vs (omega (arith, w1.len, w2.len)) in
    let len_n : length {A = ℕ} (replicate n 0) ≡ n = length-replicate n 0 in
    let low = λ (j : ℕ) (h : j < offset + 4). w3.before j h ∙ w2.before j h in
    (
      b1,
      b2,
      b3,
      run1,
      run2,
      run3,
      record {
        holds =
            Holds-append b3 offset (le32 size) vs
              (Holds-same b1 b3 offset (le32 size) w1.holds (w3.len ∙ w2.len)
                (λ j lo hi. low j (omega arith)))
              w3.holds;
        len = w3.len ∙ w2.len ∙ w1.len;
        before = λ j h. low j (omega arith) ∙ w1.before j h;
        after = λ j h.
            w3.after j (omega arith) ∙ w2.after j (omega (arith, len_n)) ∙ w1.after j (omega arith);
      },
    )

-- A string is written with its size and its end, and the next argument starts on a multiple of 4
-- from here.
pub write_string_lem :
    (b : Bytes) (offset : ℕ) (s : List ℕ)
    → string_size s + 3 < 2 ^ 32
    → offset + 4 + padded4 (string_size s) ≤ b.len
    → (b' : Bytes) × (write_string b offset s ≡ ok (b', offset + 4 + padded4 (string_size s)))
      × Filled b offset
          (offset + 4 + padded4 (string_size s))
          (le32 (string_size s) ++ terminated s)
          b'
unfolding write_string
write_string_lem b offset s small room =
    let n = padded4 (string_size s) in
    let (lo, hi) = padded4_bounds (string_size s) small in
    let (b1, b2, b3, run1, run2, run3, w) =
      fill_lem b offset n (terminated s) (omega (arith, lo, length-terminated s)) room
        (string_size s) in
    let e : (length s + 1) % 2 ^ 32 ≡ length s + 1 = omega arith in
    let z : (n == 0) ≡ false = ground (arith, lo) in (b3, rw (e, run1, run2, run3, z), w)

pub read_string_lem :
    (b : Bytes) (offset out_size : ℕ) (s : List ℕ)
    → string_size s < out_size
    → string_size s < 2 ^ 32
    → Holds b offset (le32 (string_size s) ++ terminated s)
    → read_string b offset out_size ≡ ok (terminated s, offset + 4 + padded4 (string_size s))
unfolding read_string
read_string_lem b offset out_size s fits small h =
    let head = Holds_left b offset (le32 (string_size s)) (terminated s) h in
    let tail = Holds_right b offset (le32 (string_size s)) (terminated s) h in
    let t = lt→ltb (string_size s) out_size fits in
    let z : (string_size s == 0) ≡ false = ground arith in
    let c : copy_out b (offset + 4) (string_size s) ≡ ok (terminated s) =
      subst (λ n. copy_out b (offset + 4) n ≡ ok (terminated s)) (length-terminated s)
        (copy_out_lem b (offset + 4) (terminated s) tail) in
    rw (read_u32_lem b offset (string_size s) small head, t, z, c)

-- A string that was written is read back with its end, if it fits the reader's array, and both
-- leave the same offset.
pub read_string-write_string :
    (b : Bytes) (offset out_size : ℕ) (s : List ℕ)
    → string_size s + 3 < 2 ^ 32
    → offset + 4 + padded4 (string_size s) ≤ b.len
    → string_size s < out_size
    → (b' : Bytes) × (end : ℕ) × (write_string b offset s ≡ ok (b', end))
      × (read_string b' offset out_size ≡ ok (terminated s, end))
read_string-write_string b offset out_size s small room fits =
    let (b', run, w) = write_string_lem b offset s small room in
    (
      b',
      offset + 4 + padded4 (string_size s),
      run,
      read_string_lem b' offset out_size s fits (omega arith) w.holds,
    )

pub write_array_lem :
    (b : Bytes) (offset : ℕ) (vs : List ℕ)
    → length vs + 3 < 2 ^ 32
    → offset + 4 + padded4 (length vs) ≤ b.len
    → (b' : Bytes) × (write_array b offset vs ≡ ok (b', offset + 4 + padded4 (length vs)))
      × Filled b offset (offset + 4 + padded4 (length vs)) (le32 (length vs) ++ vs) b'
unfolding write_array
write_array_lem b offset [] small room =
    let (b1, run, w) = write_u32_lem b offset 0 (omega arith) in
    let p : padded4 0 ≡ 0 = unfold padded4 in refl in
    (
      b1,
      rw run,
      record {
        holds = w.holds;
        len = w.len;
        before = w.before;
        after = λ j h. w.after j (omega (arith, h));
      },
    )
write_array_lem b offset (v ∷ vs) small room =
    let n = padded4 (length (v ∷ vs)) in
    let (lo, hi) = padded4_bounds (length (v ∷ vs)) small in
    let (b1, b2, b3, run1, run2, run3, w) =
      fill_lem b offset n (v ∷ vs) lo room (length (v ∷ vs)) in
    let t : ltb 0 (length (v ∷ vs)) ≡ true = ground arith in (b3, rw (run1, t, run2, run3), w)

-- An array that was written is read back, if its size is below the bound.
pub read_array-write_array :
    (b : Bytes) (offset size : ℕ) (vs : List ℕ)
    → length vs + 3 < 2 ^ 32
    → offset + 4 + padded4 (length vs) ≤ b.len
    → length vs < size
    → (b' : Bytes) × (end : ℕ) × (write_array b offset vs ≡ ok (b', end))
      × (read_array b' offset size ≡ ok (vs, end))
unfolding read_array
read_array-write_array b offset size vs small room fits =
    let (b', run, w) = write_array_lem b offset vs small room in
    let head = Holds_left b' offset (le32 (length vs)) vs w.holds in
    let tail = Holds_right b' offset (le32 (length vs)) vs w.holds in
    (
      b',
      offset + 4 + padded4 (length vs),
      run,
      rw (
        read_u32_lem b' offset (length vs) (omega arith) head,
        lt→ltb (length vs) size fits,
        copy_out_lem b' (offset + 4) vs tail,
      ),
    )
