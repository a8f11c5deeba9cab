-- ===== src/Wayland/Wire/Region.antt =====
-- A run of bytes inside a buffer: what the copies read and write.
use cuts.Base.{
  ℕ, zero, suc, ◌+◌, ◌≤◌, ◌<◌, ◌≡◌, refl, sym, ◌∙◌, subst, List, [], ◌∷◌, ◌++◌, arith, ok,
}
use cuts.Base.Bytes.{Bytes, put, load-ok, store-ok}
use cuts.Base.Lists.{length, replicate}
use cuts.Wayland.Wire.{copy_out, copy_in, clear}

-- The bytes from `offset` on are `vs`, inside the buffer.
abbrev pub Holds : Bytes → ℕ → List ℕ → Type 0
Holds b offset [] = Unit
Holds b offset (v ∷ vs) = (b.at offset ≡ v) × (offset < b.len) × Holds b (offset + 1) vs

-- `b'` is `b` with `vs` written at `offset`, and no other byte changed.
pub record Wrote (b : Bytes) (offset : ℕ) (vs : List ℕ) (b' : Bytes) : Type 0 where
  pub holds : Holds b' offset vs
  pub len : b'.len ≡ b.len
  pub before : (j : ℕ) → j < offset → b'.at j ≡ b.at j
  pub after : (j : ℕ) → offset + length vs ≤ j → b'.at j ≡ b.at j

pub Holds-same :
    (b b' : Bytes) (offset : ℕ) (vs : List ℕ)
    → Holds b offset vs
    → b'.len ≡ b.len
    → ((j : ℕ) → offset ≤ j → j < offset + length vs → b'.at j ≡ b.at j)
    → Holds b' offset vs
Holds-same b b' offset [] h len same = tt
Holds-same b b' offset (v ∷ vs) h len same = (
  same offset (omega arith) (omega arith) ∙ h.0,
  omega (arith, h.1, len),
  Holds-same b b' (offset + 1) vs h.2 len (λ j lo hi. same j (omega arith) (omega arith)),
)

pub Holds-append :
    (b : Bytes) (offset : ℕ) (vs ws : List ℕ)
    → Holds b offset vs
    → Holds b (offset + length vs) ws
    → Holds b offset (vs ++ ws)
Holds-append b offset [] ws h k =
    let e : offset + 0 ≡ offset = omega arith in subst (λ n. Holds b n ws) e k
Holds-append b offset (v ∷ vs) ws h k =
    let e : offset + suc (length vs) ≡ offset + 1 + length vs = omega arith in
    (h.0, h.1, Holds-append b (offset + 1) vs ws h.2 (subst (λ n. Holds b n ws) e k))

pub Holds_left :
    (b : Bytes) (offset : ℕ) (vs ws : List ℕ) → Holds b offset (vs ++ ws) → Holds b offset vs
Holds_left b offset [] ws h = tt
Holds_left b offset (v ∷ vs) ws h = (h.0, h.1, Holds_left b (offset + 1) vs ws h.2)

pub Holds_right :
    (b : Bytes) (offset : ℕ) (vs ws : List ℕ)
    → Holds b offset (vs ++ ws)
    → Holds b (offset + length vs) ws
Holds_right b offset [] ws h =
    let e : offset + 0 ≡ offset = omega arith in subst (λ n. Holds b n ws) (sym e) h
Holds_right b offset (v ∷ vs) ws h =
    let e : offset + suc (length vs) ≡ offset + 1 + length vs = omega arith in
    subst (λ n. Holds b n ws) (sym e) (Holds_right b (offset + 1) vs ws h.2)

pub copy_out_lem :
    (b : Bytes) (offset : ℕ) (vs : List ℕ)
    → Holds b offset vs
    → copy_out b offset (length vs) ≡ ok vs
unfolding copy_out
copy_out_lem b offset [] h = refl
copy_out_lem b offset (v ∷ vs) h =
    rw (load-ok b offset h.1, copy_out_lem b (offset + 1) vs h.2, h.0)

pub copy_in_lem :
    (b : Bytes) (offset : ℕ) (vs : List ℕ)
    → offset + length vs ≤ b.len
    → (b' : Bytes) × (copy_in b offset vs ≡ ok b') × Wrote b offset vs b'
unfolding copy_in
copy_in_lem b offset [] h =
    (b, refl, record { holds = tt; len = refl; before = λ j lt. refl; after = λ j lt. refl })
copy_in_lem b offset (v ∷ vs) h =
    let b1 = put b offset v in
    let (b', run, w) = copy_in_lem b1 (offset + 1) vs (omega arith) in
    (
      b',
      rw (store-ok b offset v (omega arith)) run,
      record {
        holds = (w.before offset (omega arith) ∙ ground arith, omega (arith, w.len), w.holds);
        len = w.len;
        before = λ j lt. w.before j (omega arith) ∙ ground arith;
        after = λ j le. w.after j (omega arith) ∙ ground arith;
      },
    )

pub clear_lem :
    (b : Bytes) (offset n : ℕ)
    → offset + n ≤ b.len
    → (b' : Bytes) × (clear b offset n ≡ ok b') × Wrote b offset (replicate n 0) b'
unfolding clear
clear_lem b offset zero h =
    (b, refl, record { holds = tt; len = refl; before = λ j lt. refl; after = λ j lt. refl })
clear_lem b offset (suc n) h =
    let b1 = put b offset 0 in
    let (b', run, w) = clear_lem b1 (offset + 1) n (omega arith) in
    (
      b',
      rw (store-ok b offset 0 (omega arith)) run,
      record {
        holds = (w.before offset (omega arith) ∙ ground arith, omega (arith, w.len), w.holds);
        len = w.len;
        before = λ j lt. w.before j (omega arith) ∙ ground arith;
        after = λ j le. w.after j (omega arith) ∙ ground arith;
      },
    )
