-- ===== src/Examples/References.antt =====
-- util/mem.c: a block that is shared once and given back twice.
use cuts.Base.{ℕ, ◌≡◌, refl, ◌≢◌, none, some, [], ◌∷◌, arith, ◌==◌, if◌then◌else◌, Exec, ok, ◌>>=◌}
use cuts.Util.Mem.{Metadata, Memory, malloc, set_defer}
use cuts.Util.Mem.Life.{take_ref, give_ref, run_uses, run_uses-count_after}

abbrev ignore : ℕ → ℕ → Memory → Exec Memory
ignore func data_ptr s = ok s

abbrev nothing : Memory
nothing = record { metadata = λ a. none; deferred = [] }

abbrev shared : Memory
shared = record {
  metadata = λ a. if a == 4 then some (record { ref_count = 1; defer = some 9 }) else none;
  deferred = [];
}

allocated :
    (do (p, s) ← malloc 4 nothing; s' ← set_defer p 9 s; ok (s'.metadata 4))
    ≡ ok (shared.metadata 4)
unfolding malloc set_defer cuts.Util.Mem.metadata_of
allocated = refl

run_uses-count_after_example :
    (s' : Memory) × (run_uses ignore 4 (take_ref ∷ give_ref ∷ give_ref ∷ []) shared ≡ ok s')
    × (s'.metadata 4 ≡ none)
    × (s'.deferred ≡ 4 ∷ [])
    × ((a : ℕ) → a ≢ 4 → s'.metadata a ≡ shared.metadata a)
unfolding cuts.Util.Mem.Life.count_after
run_uses-count_after_example =
    run_uses-count_after ignore (λ f p s. refl) 4 (some 9) 1 (take_ref ∷ give_ref ∷ give_ref ∷ [])
      shared none (omega arith) (omega arith) refl refl
