-- ===== src/Runtime/Inv.antt =====
-- The invariant of the pointers to staging buffers.
use constexpr_fmt_str.Prelude.{
  ℕ, ◌<◌, ◌≡◌, ◌≢◌, refl, sym, ap, ◌∙◌, ◌⊎◌, inl, inr, true, false, none, some, List, arith, length,
  some-same,
}
use native.Mathlib.Decide.{ℕ_discrete}
use constexpr_fmt_str.Runtime.{
  ThreadBuffer, Runtime, set, set_name, store, allocate_buffer, new_buffer, list_buffer, get_elem?,
  initial_runtime,
}
use constexpr_fmt_str.Runtime.Pointers.{
  set-here, set-there, set-cases, get_elem?-push, get_elem?-before, get_elem?-last,
}

-- a buffer is allocated at `p`; and one that is not to be deleted
abbrev pub IsAllocated : Runtime → ℕ → Type 0
IsAllocated r p = (b : ThreadBuffer) × (r.heap p ≡ some b)

abbrev pub IsInUse : Runtime → ℕ → Type 0
IsInUse r p = (b : ThreadBuffer) × (r.heap p ≡ some b) × (b.staging.should_deallocate ≡ false)

-- a pointer stands in the list, or its thread has not listed it yet
abbrev pub IsFound : Runtime → ℕ → Type 0
IsFound r p =
    ((i : ℕ) × (get_elem? r.thread_buffers i ≡ some p))
    ⊎ ((t : ℕ) × (r.staging_buffer t ≡ some p) × (r.listed t ≡ false))

pub record Inv (r : Runtime) : Type 0 where
  pub in_use : (t p : ℕ) → r.staging_buffer t ≡ some p → IsInUse r p
  pub own : (t u p : ℕ) → r.staging_buffer t ≡ some p → r.staging_buffer u ≡ some p → t ≡ u
  pub allocated : (i p : ℕ) → get_elem? r.thread_buffers i ≡ some p → IsAllocated r p
  pub once :
      (i j p : ℕ)
      → get_elem? r.thread_buffers i ≡ some p
      → get_elem? r.thread_buffers j ≡ some p
      → i ≡ j
  pub below : (p : ℕ) (b : ThreadBuffer) → r.heap p ≡ some b → p < r.next_pointer
  pub unlisted :
      (t p i : ℕ)
      → r.staging_buffer t ≡ some p
      → r.listed t ≡ false
      → get_elem? r.thread_buffers i ≢ some p
  pub found : (p : ℕ) (b : ThreadBuffer) → r.heap p ≡ some b → IsFound r p

pub initial-Inv : Inv initial_runtime
initial-Inv = record {
  in_use = λ t p h. ground (arith, h);
  own = λ t u p h k. ground (arith, h);
  allocated = λ i p h. ground (arith, h);
  once = λ i j p h k. ground (arith, h);
  below = λ p b h. ground (arith, h);
  unlisted = λ t p i h k e. ground (arith, h);
  found = λ p b h. ground (arith, h);
}

module _ (r : Runtime) (inv : Inv r) where
  -- a buffer is changed, and not marked
  pub store-Inv :
      (p : ℕ) (b b' : ThreadBuffer)
      → r.heap p ≡ some b
      → b'.staging.should_deallocate ≡ b.staging.should_deallocate
      → Inv (store p b' r)
  store-Inv p b b' there kept = record {
    in_use = λ t q h.
        let (c, at, unmarked) = inv.in_use t q h in
        elim (ℕ_discrete q p) [
          | yes e ↦
              let same : c ≡ b = some-same c b (sym at ∙ ap r.heap e ∙ there) in
              (
                b',
                ap (set p (some b') r.heap) e ∙ set-here p (some b') r.heap,
                kept ∙ ap (λ z. z.staging.should_deallocate) (sym same) ∙ unmarked,
              )
          | no e ↦ (c, set-there p q (some b') r.heap e ∙ at, unmarked)
        ];
    own = inv.own;
    allocated = λ i q h.
        let (c, at) = inv.allocated i q h in
        elim (ℕ_discrete q p) [
          | yes e ↦ (b', ap (set p (some b') r.heap) e ∙ set-here p (some b') r.heap)
          | no e ↦ (c, set-there p q (some b') r.heap e ∙ at)
        ];
    once = inv.once;
    below = λ q c h. elim (ℕ_discrete q p) [
      | yes e ↦ inv.below q b (ap r.heap e ∙ there)
      | no e ↦ inv.below q c (sym (set-there p q (some b') r.heap e) ∙ h)
    ];
    unlisted = inv.unlisted;
    found = λ q c h. elim (set-cases p q (some b') (some c) r.heap h) [
      | inl (e, same) ↦ inv.found q b (ap r.heap e ∙ there)
      | inr (e, at) ↦ inv.found q c at
    ];
  }

  pub allocate-Inv :
      (size : ℕ) (tid_name : ℕ → List ℕ) (t : ℕ)
      → r.staging_buffer t ≡ none
      → Inv (allocate_buffer size tid_name t r)
  unfolding allocate_buffer set_name
  allocate-Inv size tid_name t unset =
      let p0 = r.next_pointer in
      let b0 : ThreadBuffer = new_buffer size tid_name t in
      let old : (q : ℕ) (c : ThreadBuffer)
          → r.heap q ≡ some c
          → set p0 (some b0) r.heap q ≡ some c =
        λ q c h. set-there p0 q (some b0) r.heap (λ e. omega (arith, inv.below q c h)) ∙ h in
      let not_new : (q : ℕ) → IsAllocated r q → p0 ≢ q =
        λ q (c, h) e. omega (arith, inv.below q c h) in
      let holds : (u q : ℕ) → r.staging_buffer u ≡ some q → IsAllocated r q =
        λ u q h. let (c, at, unmarked) = inv.in_use u q h in (c, at) in
      record {
        in_use = λ u q h. elim (set-cases t u (some p0) (some q) r.staging_buffer h) [
          | inl (e, same) ↦ (
            b0,
            ap (set p0 (some b0) r.heap) (sym (some-same p0 q same)) ∙ set-here p0 (some b0) r.heap,
            refl,
          )
          | inr (e, at) ↦
              let (c, there, unmarked) = inv.in_use u q at in (c, old q c there, unmarked)
        ];
        own = λ u v q h k. elim (set-cases t u (some p0) (some q) r.staging_buffer h) [
          | inl (e, same) ↦ elim (set-cases t v (some p0) (some q) r.staging_buffer k) [
            | inl (e', same') ↦ e ∙ sym e'
            | inr (e', at') ↦ absurd (not_new q (holds v q at') (some-same p0 q same))
          ]
          | inr (e, at) ↦ elim (set-cases t v (some p0) (some q) r.staging_buffer k) [
            | inl (e', same') ↦ absurd (not_new q (holds u q at) (some-same p0 q same'))
            | inr (e', at') ↦ inv.own u v q at at'
          ]
        ];
        allocated = λ i q h. let (c, at) = inv.allocated i q h in (c, old q c at);
        once = inv.once;
        below = λ q c h. elim (set-cases p0 q (some b0) (some c) r.heap h) [
          | inl (e, same) ↦ omega arith
          | inr (e, at) ↦ omega (arith, inv.below q c at)
        ];
        unlisted = λ u q i h k g. elim (set-cases t u (some p0) (some q) r.staging_buffer h) [
          | inl (e, same) ↦ not_new q (inv.allocated i q g) (some-same p0 q same)
          | inr (e, at) ↦ inv.unlisted u q i at (sym (set-there t u false r.listed e) ∙ k) g
        ];
        found = λ q c h. elim (set-cases p0 q (some b0) (some c) r.heap h) [
          | inl (e, same) ↦ inr (
            t,
            set-here t (some p0) r.staging_buffer ∙ ap some (sym e),
            set-here t false r.listed,
          )
          | inr (e, at) ↦ elim (inv.found q c at) [
            | inl (i, there) ↦ inl (i, there)
            | inr (u, its, new) ↦
                let other : u ≢ t = λ same.
                  let clash : none ≡ some q = sym unset ∙ ap r.staging_buffer (sym same) ∙ its in
                  ground (arith, clash) in
                inr (
                  u,
                  set-there t u (some p0) r.staging_buffer other ∙ its,
                  set-there t u false r.listed other ∙ new,
                )
          ]
        ];
      }

  pub list_buffer-Inv :
      (size : ℕ) (tid_name : ℕ → List ℕ) (t p : ℕ)
      → r.staging_buffer t ≡ some p
      → r.listed t ≡ false
      → Inv (list_buffer size tid_name t p r)
  unfolding list_buffer
  list_buffer-Inv size tid_name t p mine new =
      let (b, there, unmarked) = inv.in_use t p mine in
      let ps = r.thread_buffers in
      record {
        in_use = inv.in_use;
        own = inv.own;
        allocated = λ i q h. elim (get_elem?-push ps p q i h) [
          | inl old ↦ inv.allocated i q old
          | inr (e, same) ↦ (b, ap r.heap (sym same) ∙ there)
        ];
        once = λ i j q h k. elim (get_elem?-push ps p q i h) [
          | inl old ↦ elim (get_elem?-push ps p q j k) [
            | inl old' ↦ inv.once i j q old old'
            | inr (e', same') ↦ absurd (inv.unlisted t p i mine new (old ∙ ap some (sym same')))
          ]
          | inr (e, same) ↦ elim (get_elem?-push ps p q j k) [
            | inl old' ↦ absurd (inv.unlisted t p j mine new (old' ∙ ap some (sym same)))
            | inr (e', same') ↦ e ∙ sym e'
          ]
        ];
        below = inv.below;
        unlisted = λ u q i h k g. elim (set-cases t u true false r.listed k) [
          | inl (e, same) ↦ ground (arith, same)
          | inr (e, at) ↦ elim (get_elem?-push ps p q i g) [
            | inl old ↦ inv.unlisted u q i h at old
            | inr (e', same) ↦ e (inv.own u t q h (mine ∙ ap some same))
          ]
        ];
        found = λ q c h. elim (inv.found q c h) [
          | inl (i, at) ↦ inl (i, get_elem?-before ps p i q at)
          | inr (u, its, fresh) ↦ elim (ℕ_discrete u t) [
            | yes e ↦
                let same : p ≡ q = some-same p q (sym mine ∙ ap r.staging_buffer (sym e) ∙ its) in
                inl (length ps, get_elem?-last ps p ∙ ap some same)
            | no e ↦ inr (u, its, set-there t u true r.listed e ∙ fresh)
          ]
        ];
      }
