-- ===== src/Runtime/Pointers.antt =====
-- Lists of pointers by index, and functions changed at one place.
use constexpr_fmt_str.Prelude.{
  ℕ, zero, suc, ◌<◌, ◌≤◌, ◌≡◌, ◌≢◌, refl, sym, ap, ◌∙◌, ◌⊎◌, inl, inr, some, List, [], ◌∷◌, ◌++◌,
  arith, length,
}
use native.Mathlib.Decide.{ℕ_discrete}
use constexpr_fmt_str.Runtime.{get_elem?, erase, set}

pub set-here : {A : Type 0} (k : ℕ) (v : A) (f : ℕ → A) → set k v f k ≡ v
set-here k v f = ground arith

pub set-there : {A : Type 0} (k n : ℕ) (v : A) (f : ℕ → A) → n ≢ k → set k v f n ≡ f n
set-there k n v f h = ground (arith, h)

-- a value of the changed function is the new one at its place, or an old one
pub set-cases :
    {A : Type 0} (k n : ℕ) (v w : A) (f : ℕ → A)
    → set k v f n ≡ w
    → ((n ≡ k) × (v ≡ w)) ⊎ ((n ≢ k) × (f n ≡ w))
set-cases k n v w f h = elim (ℕ_discrete n k) [
  | yes e ↦ inl (e, sym (set-here k v f) ∙ ap (set k v f) (sym e) ∙ h)
  | no e ↦ inr (e, sym (set-there k n v f e) ∙ h)
]

-- an entry behind `push_back` is an old one, or the new one at the end
pub get_elem?-push :
    (ps : List ℕ) (p q i : ℕ)
    → get_elem? (ps ++ (p ∷ [])) i ≡ some q
    → (get_elem? ps i ≡ some q) ⊎ ((i ≡ length ps) × (p ≡ q))
get_elem?-push [] p q zero h = inr (refl, cc h)
get_elem?-push [] p q (suc i) h = inl h
get_elem?-push (o ∷ ps) p q zero h = inl h
get_elem?-push (o ∷ ps) p q (suc i) h = elim (get_elem?-push ps p q i h) [
  | inl old ↦ inl old
  | inr (e, same) ↦ inr (ap suc e, same)
]

pub get_elem?-inside : (ps : List ℕ) (i q : ℕ) → get_elem? ps i ≡ some q → i < length ps
get_elem?-inside [] i q h = ground (arith, h)
get_elem?-inside (p ∷ ps) zero q h = omega arith
get_elem?-inside (p ∷ ps) (suc i) q h = omega (arith, get_elem?-inside ps i q h)

-- an entry behind `erase` stood at the same index or one further, and not at the erased one
pub get_elem?-erase :
    (ps : List ℕ) (i j q : ℕ)
    → get_elem? (erase ps i) j ≡ some q
    → (k : ℕ) × (get_elem? ps k ≡ some q) × (k ≢ i) × ((j < i) × (k ≡ j) ⊎ (i ≤ j) × (k ≡ suc j))
get_elem?-erase [] i j q h = ground (arith, h)
get_elem?-erase (p ∷ ps) zero j q h = (suc j, h, (λ e. omega arith), inr (omega arith, refl))
get_elem?-erase (p ∷ ps) (suc i) zero q h = (zero, h, (λ e. omega arith), inl (omega arith, refl))
get_elem?-erase (p ∷ ps) (suc i) (suc j) q h =
    let (k, at, apart, place) = get_elem?-erase ps i j q h in
    (
      suc k,
      at,
      (λ e. apart (omega arith)),
      elim place [
        | inl (less, same) ↦ inl (omega arith, omega arith)
        | inr (more, same) ↦ inr (omega arith, omega arith)
      ],
    )

-- an entry is kept by `push_back`, the new one stands at the end, and `erase` keeps all but one
pub get_elem?-before :
    (ps : List ℕ) (p i q : ℕ) → get_elem? ps i ≡ some q → get_elem? (ps ++ (p ∷ [])) i ≡ some q
get_elem?-before [] p i q h = ground (arith, h)
get_elem?-before (o ∷ ps) p zero q h = h
get_elem?-before (o ∷ ps) p (suc i) q h = get_elem?-before ps p i q h

pub get_elem?-last : (ps : List ℕ) (p : ℕ) → get_elem? (ps ++ (p ∷ [])) (length ps) ≡ some p
get_elem?-last [] p = refl
get_elem?-last (o ∷ ps) p = get_elem?-last ps p

pub get_elem?-kept :
    (ps : List ℕ) (i k q : ℕ)
    → get_elem? ps k ≡ some q
    → k ≢ i
    → (j : ℕ) × (get_elem? (erase ps i) j ≡ some q)
get_elem?-kept [] i k q h apart = ground (arith, h)
get_elem?-kept (p ∷ ps) zero zero q h apart = absurd (apart refl)
get_elem?-kept (p ∷ ps) zero (suc k) q h apart = (k, h)
get_elem?-kept (p ∷ ps) (suc i) zero q h apart = (0, h)
get_elem?-kept (p ∷ ps) (suc i) (suc k) q h apart =
    let (j, at) = get_elem?-kept ps i k q h (λ e. apart (ap suc e)) in (suc j, at)
