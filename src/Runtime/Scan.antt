-- ===== src/Runtime/Scan.antt =====
-- What a scan of `poll_` is to leave of the list of buffers, and to hand to the sink.
use constexpr_fmt_str.Prelude.{
  ℕ, suc, ◌≡◌, ◌≢◌, refl, ap, ◌∙◌, Bool, ◌&&◌, not, Option, none, some, List, [], ◌∷◌, ◌++◌, length,
  if◌then◌else◌, ltb,
}
use mathlib.Core.Path.{ap₂}
use constexpr_fmt_str.Runtime.{ThreadBuffer, set, get_elem?, erase, peek_buffer}
use constexpr_fmt_str.Runtime.Pointers.{set-there}

abbrev pub Heap : Type 0
Heap = ℕ → Option ThreadBuffer

-- a buffer with bytes to consume, and one without that its thread has left
abbrev pub has_bytes : ThreadBuffer → Bool
has_bytes b = ltb 0 (peek_buffer b).0

abbrev pub is_left : ThreadBuffer → Bool
is_left b = (peek_buffer b).1.staging.should_deallocate

-- what remains of the list, and what goes to the sink, for a pointer in front of others
abbrev pub keep : Option ThreadBuffer → ℕ → List ℕ → List ℕ
keep none p ps = p ∷ ps
keep (some b) p ps = if not (has_bytes b) && is_left b then ps else p ∷ ps

abbrev pub hand : Option ThreadBuffer → ℕ → List (ℕ × ℕ) → List (ℕ × ℕ)
hand none p hs = hs
hand (some b) p hs = if has_bytes b then (p, (peek_buffer b).0) ∷ hs else hs

abbrev pub kept : Heap → List ℕ → List ℕ
kept heap [] = []
kept heap (p ∷ ps) = keep (heap p) p (kept heap ps)

abbrev pub handed : Heap → List ℕ → List (ℕ × ℕ)
handed heap [] = []
handed heap (p ∷ ps) = hand (heap p) p (handed heap ps)

-- no pointer twice, and all of them of allocated buffers
abbrev pub NotIn : ℕ → List ℕ → Type 0
NotIn p ps = (i : ℕ) → get_elem? ps i ≢ some p

unfoldable pub Fresh : Heap → List ℕ → Type 0
Fresh heap [] = Unit
Fresh heap (p ∷ ps) = ((b : ThreadBuffer) × (heap p ≡ some b)) × NotIn p ps × Fresh heap ps

apart : (p q : ℕ) (ps : List ℕ) → NotIn p (q ∷ ps) → q ≢ p
apart p q ps h e = h 0 (ap some e)

pub set-Fresh :
    (p : ℕ) (v : Option ThreadBuffer) (heap : Heap) (ps : List ℕ)
    → NotIn p ps
    → Fresh heap ps
    → Fresh (set p v heap) ps
unfolding Fresh
set-Fresh p v heap [] out h = _
set-Fresh p v heap (q ∷ ps) out ((b, at), once, h) = (
  (b, set-there p q v heap (apart p q ps out) ∙ at),
  once,
  set-Fresh p v heap ps (λ i. out (suc i)) h,
)

pub set-kept :
    (p : ℕ) (v : Option ThreadBuffer) (heap : Heap) (ps : List ℕ)
    → NotIn p ps
    → kept (set p v heap) ps ≡ kept heap ps
set-kept p v heap [] out = refl
set-kept p v heap (q ∷ ps) out =
    ap₂ (λ b rest. keep b q rest) (set-there p q v heap (apart p q ps out))
      (set-kept p v heap ps λ i. out (suc i))

pub set-handed :
    (p : ℕ) (v : Option ThreadBuffer) (heap : Heap) (ps : List ℕ)
    → NotIn p ps
    → handed (set p v heap) ps ≡ handed heap ps
set-handed p v heap [] out = refl
set-handed p v heap (q ∷ ps) out =
    ap₂ (λ b rest. hand b q rest) (set-there p q v heap (apart p q ps out))
      (set-handed p v heap ps λ i. out (suc i))

pub get_elem?-middle :
    (qs : List ℕ) (p : ℕ) (ps : List ℕ) → get_elem? (qs ++ (p ∷ ps)) (length qs) ≡ some p
get_elem?-middle [] p ps = refl
get_elem?-middle (q ∷ qs) p ps = get_elem?-middle qs p ps

pub get_elem?-end : (qs : List ℕ) → get_elem? (qs ++ []) (length qs) ≡ none
get_elem?-end [] = refl
get_elem?-end (q ∷ qs) = get_elem?-end qs

pub erase-middle :
    (qs : List ℕ) (p : ℕ) (ps : List ℕ) → erase (qs ++ (p ∷ ps)) (length qs) ≡ qs ++ ps
erase-middle [] p ps = refl
erase-middle (q ∷ qs) p ps = ap (λ z. q ∷ z) (erase-middle qs p ps)
