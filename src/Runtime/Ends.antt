-- ===== src/Runtime/Ends.antt =====
-- The end of a thread and the deletion of its buffer keep the invariant.
use constexpr_fmt_str.Prelude.{
  ℕ, ◌≡◌, ◌≢◌, sym, ap, ◌∙◌, inl, inr, true, false, Option, none, some, arith, some-same,
}
use native.Mathlib.Decide.{ℕ_discrete}
use constexpr_fmt_str.Runtime.{ThreadBuffer, Runtime, set, destroy_thread, get_elem?, delete_buffer}
use constexpr_fmt_str.Runtime.Pointers.{
  set-here, set-there, set-cases, get_elem?-erase, get_elem?-kept,
}
use constexpr_fmt_str.Runtime.Inv.{IsAllocated, Inv}

module _ (r : Runtime) (inv : Inv r) where
  pub destroy_thread-Inv :
      (t p : ℕ) (b : ThreadBuffer)
      → r.staging_buffer t ≡ some p
      → r.listed t ≡ true
      → r.heap p ≡ some b
      → Inv (destroy_thread t p b r)
  unfolding destroy_thread
  destroy_thread-Inv t p b mine old there =
      let marked : ThreadBuffer = record b {
        staging = record b.staging { should_deallocate = true };
      } in
      let still : (u q : ℕ)
          → set t none r.staging_buffer u ≡ some q
          → (u ≢ t) × (r.staging_buffer u ≡ some q) =
        λ u q h. elim (set-cases t u none (some q) r.staging_buffer h) [
          | inl (e, same) ↦ ground (arith, same)
          | inr both ↦ both
        ] in
      record {
        in_use = λ u q h.
            let (other, at) = still u q h in
            let (c, its, unmarked) = inv.in_use u q at in
            (
              c,
              set-there p q (some marked) r.heap
                    (λ e. other (inv.own u t q at (mine ∙ ap some (sym e))))
                  ∙ its,
              unmarked,
            );
        own = λ u v q h k. inv.own u v q (still u q h).1 (still v q k).1;
        allocated = λ i q h.
            let (c, at) = inv.allocated i q h in
            elim (ℕ_discrete q p) [
              | yes e ↦
                  (marked, ap (set p (some marked) r.heap) e ∙ set-here p (some marked) r.heap)
              | no e ↦ (c, set-there p q (some marked) r.heap e ∙ at)
            ];
        once = inv.once;
        below = λ q c h. elim (set-cases p q (some marked) (some c) r.heap h) [
          | inl (e, same) ↦ inv.below q b (ap r.heap e ∙ there)
          | inr (e, at) ↦ inv.below q c at
        ];
        unlisted = λ u q i h k. inv.unlisted u q i (still u q h).1 k;
        found = λ q c h.
            let kept : IsAllocated r q = elim (set-cases p q (some marked) (some c) r.heap h) [
              | inl (e, same) ↦ (b, ap r.heap e ∙ there)
              | inr (e, at) ↦ (c, at)
            ] in
            elim (inv.found q kept.0 kept.1) [
              | inl at ↦ inl at
              | inr (u, its, new) ↦
                  let other : u ≢ t = λ e.
                    let clash : true ≡ false = sym old ∙ ap r.listed (sym e) ∙ new in
                    ground (arith, clash) in
                  inr (u, set-there t u none r.staging_buffer other ∙ its, new)
            ];
      }

  pub delete_buffer-Inv :
      (i p : ℕ) (b : ThreadBuffer)
      → get_elem? r.thread_buffers i ≡ some p
      → r.heap p ≡ some b
      → b.staging.should_deallocate ≡ true
      → Inv (delete_buffer i p r)
  unfolding delete_buffer
  delete_buffer-Inv i p b at there marked =
      let none' : Option ThreadBuffer = none in
      record {
        in_use = λ u q h.
            let (c, its, unmarked) = inv.in_use u q h in
            (
              c,
              set-there p q none' r.heap (λ e.
                    let same : c ≡ b = some-same c b (sym its ∙ ap r.heap e ∙ there) in
                    let clash : true ≡ false =
                      sym marked ∙ ap (λ z. z.staging.should_deallocate) (sym same) ∙ unmarked in
                    ground (arith, clash))
                  ∙ its,
              unmarked,
            );
        own = inv.own;
        allocated = λ j q h.
            let (k, old, apart, place) = get_elem?-erase r.thread_buffers i j q h in
            let (c, its) = inv.allocated k q old in
            (
              c,
              set-there p q none' r.heap (λ e. apart (inv.once k i q old (at ∙ ap some (sym e))))
                  ∙ its,
            );
        once = λ j j' q h h'.
            let (k, old, apart, place) = get_elem?-erase r.thread_buffers i j q h in
            let (k', old', apart', place') = get_elem?-erase r.thread_buffers i j' q h' in
            let same = inv.once k k' q old old' in ground (arith, place, place', same);
        below = λ q c h. elim (set-cases p q none' (some c) r.heap h) [
          | inl (e, same) ↦ ground (arith, same)
          | inr (e, its) ↦ inv.below q c its
        ];
        unlisted = λ u q j h k g.
            let (k', old, apart, place) = get_elem?-erase r.thread_buffers i j q g in
            inv.unlisted u q k' h k old;
        found = λ q c h. elim (set-cases p q none' (some c) r.heap h) [
          | inl (e, same) ↦ ground (arith, same)
          | inr (e, its) ↦ elim (inv.found q c its) [
            | inl (k, old) ↦ inl (
                get_elem?-kept r.thread_buffers i k q old
                  (λ same. e (some-same q p (sym old ∙ ap (get_elem? r.thread_buffers) same ∙ at))))
            | inr fresh ↦ inr fresh
          ]
        ];
      }
