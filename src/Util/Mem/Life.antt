-- ===== src/Util/Mem/Life.antt =====
-- The life of a block under `c_ref` and `c_unref`.
use cuts.Base.{
  ℕ, zero, suc, ◌+◌, ◌-◌, ◌%◌, ◌^◌, ◌<◌, ◌≡◌, refl, sym, ap, ◌∙◌, ◌≢◌, false, Option, none, some,
  List, [], ◌∷◌, ◌++◌, arith, ◌==◌, Exec, ok, undefined, ◌>>=◌,
}
use cuts.Base.Lists.{length}
use cuts.Util.Mem.{Metadata, Memory, metadata_of, write, ref, free, run_defer, unref}

-- A caller takes a reference or gives one back.
pub data Use : Type 0 where
  take_ref give_ref : Use

-- The plain count, from `n` references on; `none` is a block that is gone.
unfoldable pub count_after : ℕ → List Use → Option (Option ℕ)
count_after n [] = some (some n)
count_after n (take_ref ∷ uses) = count_after (n + 1) uses
count_after zero (give_ref ∷ uses) = none
count_after (suc zero) (give_ref ∷ []) = some none
count_after (suc zero) (give_ref ∷ u ∷ uses) = none
count_after (suc (suc n)) (give_ref ∷ uses) = count_after (suc n) uses

module _ (call : ℕ → ℕ → Memory → Exec Memory) where
  unfoldable pub run_uses : ℕ → List Use → Memory → Exec Memory
  run_uses p [] s = ok s
  run_uses p (take_ref ∷ uses) s = do s' ← ref p s; run_uses p uses s'
  run_uses p (give_ref ∷ uses) s = do s' ← unref call p s; run_uses p uses s'

-- A `defer` function that ends and leaves the blocks and the record of calls alone.
abbrev pub Leaves : (ℕ → ℕ → Memory → Exec Memory) → Type 0
Leaves call = (f p : ℕ) (s : Memory) → call f p s ≡ ok s

-- The block at `p` after the uses: the count, or none.
abbrev pub left_over : Option ℕ → Option ℕ → Option Metadata
left_over defer none = none
left_over defer (some n) = some (record { ref_count = n; defer = defer })

-- `defer` ran once, when the block went.
abbrev pub calls : ℕ → Option ℕ → Option ℕ → List ℕ
calls p none final = []
calls p (some f) none = p ∷ []
calls p (some f) (some n) = []

abbrev held : ℕ → Option ℕ → Metadata
held n defer = record { ref_count = n; defer = defer }

pub write_self : (s : Memory) (p : ℕ) (c : Option Metadata) → (write s p c).metadata p ≡ c
write_self s p c = ground arith

pub write_other :
    (s : Memory) (p : ℕ) (c : Option Metadata) (a : ℕ)
    → a ≢ p
    → (write s p c).metadata a ≡ s.metadata a
write_other s p c a apart = ground (arith, apart)

pub metadata_of_lem :
    (p : ℕ) (s : Memory) {m : Metadata} → s.metadata p ≡ some m → metadata_of p s ≡ ok m
unfolding metadata_of
metadata_of_lem p s here =
    ap {B = Exec Metadata} (λ (c : Option Metadata). elim c [ none ↦ undefined | some m ↦ ok m ])
      here

ref_lem :
    (p n : ℕ) (defer : Option ℕ) (s : Memory)
    → s.metadata p ≡ some (held n defer)
    → n + 1 < 2 ^ 64
    → ref p s ≡ ok (write s p (some (held (n + 1) defer)))
unfolding ref
ref_lem p n defer s here small =
    let e : (n + 1) % 2 ^ 64 ≡ n + 1 = omega arith in rw (metadata_of_lem p s here, e) refl

calls-some : (p : ℕ) (defer : Option ℕ) (n : ℕ) → calls p defer (some n) ≡ []
calls-some p none n = refl
calls-some p (some f) n = refl

run_defer_lem :
    (call : ℕ → ℕ → Memory → Exec Memory) (leaves : Leaves call) (p : ℕ) (defer : Option ℕ)
    (s : Memory)
    → run_defer call defer p s ≡ ok (record s { deferred = calls p defer none ++ s.deferred })
unfolding run_defer
run_defer_lem call leaves p none s = refl
run_defer_lem call leaves p (some f) s = leaves f p _

module _ (call : ℕ → ℕ → Memory → Exec Memory) (leaves : Leaves call) (p : ℕ)
    (defer : Option ℕ) where
  unref_more :
      (n : ℕ) (s : Memory)
      → s.metadata p ≡ some (held (suc (suc n)) defer)
      → suc (suc n) < 2 ^ 64
      → unref call p s ≡ ok (write s p (some (held (suc n) defer)))
  unfolding unref
  unref_more n s here small =
      let e : (suc (suc n) + 2 ^ 64 - 1) % 2 ^ 64 ≡ suc n = omega arith in
      let z : (suc n == 0) ≡ false = ground arith in rw (metadata_of_lem p s here, e, z) refl

  unref_last :
      (s : Memory)
      → s.metadata p ≡ some (held 1 defer)
      → (s' : Memory) × (unref call p s ≡ ok s')
        × (s'.metadata p ≡ none)
        × (s'.deferred ≡ calls p defer none ++ s.deferred)
        × ((a : ℕ) → a ≢ p → s'.metadata a ≡ s.metadata a)
  unfolding unref run_defer free
  unref_last s here =
      let s1 = write s p (some (held 0 defer)) in
      let s2 = record s1 { deferred = calls p defer none ++ s.deferred } in
      (
        write s2 p none,
        rw
            (
              metadata_of_lem p s here,
              run_defer_lem call leaves p defer s1,
              metadata_of_lem p s2 (write_self s p _),
            )
            refl,
        write_self s2 p none,
        refl,
        λ a apart. write_other s2 p none a apart ∙ write_other s p _ a apart,
      )

  -- Where the `defer` function leaves the blocks alone (that of a wl_buffer does not):
  -- a sequence of uses that gives back no more references than there are: no call fails, the block
  -- is there with the right count as long as one is left, and at the last one it is freed, after
  -- one call of its `defer` if it has one. Other blocks are as before.
  pub run_uses-count_after :
      (n : ℕ) (uses : List Use) (s : Memory) (final : Option ℕ)
      → 0 < n
      → n + length uses < 2 ^ 64
      → s.metadata p ≡ some (record { ref_count = n; defer = defer })
      → count_after n uses ≡ some final
      → (s' : Memory) × (run_uses call p uses s ≡ ok s')
        × (s'.metadata p ≡ left_over defer final)
        × (s'.deferred ≡ calls p defer final ++ s.deferred)
        × ((a : ℕ) → a ≢ p → s'.metadata a ≡ s.metadata a)
  unfolding run_uses count_after
  run_uses-count_after n [] s final some_ref small here e =
      let q : some n ≡ final = cc in
      let no_calls : calls p defer final ≡ [] = ap (calls p defer) (sym q) ∙ calls-some p defer n in
      (
        s,
        refl,
        here ∙ ap (left_over defer) q,
        ap (λ c. c ++ s.deferred) (sym no_calls),
        λ a apart. refl,
      )
  run_uses-count_after n (take_ref ∷ uses) s final some_ref small here e =
      let s1 = write s p (some (held (n + 1) defer)) in
      let (s', run, block, deferred, others) =
        run_uses-count_after (n + 1) uses s1 final (omega arith) (omega arith) (write_self s p _)
          e in
      (
        s',
        rw (ref_lem p n defer s here (omega arith)) run,
        block,
        deferred,
        λ a apart. others a apart ∙ write_other s p _ a apart,
      )
  run_uses-count_after zero (give_ref ∷ uses) s final some_ref small here e = absurd (omega arith)
  run_uses-count_after (suc zero) (give_ref ∷ []) s final some_ref small here e =
      let q : none ≡ final = cc in
      let (s', run, block, deferred, others) = unref_last s here in
      (
        s',
        rw run refl,
        block ∙ ap (left_over defer) q,
        deferred ∙ ap (λ c. calls p defer c ++ s.deferred) q,
        others,
      )
  run_uses-count_after (suc zero) (give_ref ∷ u ∷ uses) s final some_ref small here e = cc
  run_uses-count_after (suc (suc n)) (give_ref ∷ uses) s final some_ref small here e =
      let s1 = write s p (some (held (suc n) defer)) in
      let (s', run, block, deferred, others) =
        run_uses-count_after (suc n) uses s1 final (omega arith) (omega arith) (write_self s p _)
          e in
      (
        s',
        rw (unref_more n s here (omega arith)) run,
        block,
        deferred,
        λ a apart. others a apart ∙ write_other s p _ a apart,
      )
