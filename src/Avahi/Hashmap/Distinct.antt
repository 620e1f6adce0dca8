-- ===== src/Avahi/Hashmap/Distinct.antt =====
-- Lists of addresses without repetition, and the memory behind them.
use qt_gretio.Prelude.{
  ℕ, ◌≡◌, refl, inl, inr, true, false, List, [], ◌∷◌, map, arith, ◌==◌, Bool-cases,
}
use qt_gretio.Avahi.Hashmap.{set_at, unlink}
use qt_gretio.Avahi.Hashmap.Refinement.{AllBelow}

-- An address that is not in a list, and lists without repetition.
abbrev pub Misses : ℕ → List ℕ → Type 0
Misses a [] = Unit {0}
Misses a (e ∷ es) = ((e == a) ≡ false) × Misses a es

abbrev pub Distinct : List ℕ → Type 0
Distinct [] = Unit {0}
Distinct (e ∷ es) = Misses e es × Distinct es

unlink-Misses : (a : ℕ) (es : List ℕ) → Misses a es → unlink a es ≡ es
unlink-Misses a [] h = refl
unlink-Misses a (e ∷ es) h = rw (h.0, unlink-Misses a es h.1) refl

Misses-unlink : (a b : ℕ) (es : List ℕ) → Misses a es → Misses a (unlink b es)
Misses-unlink a b [] h = tt
Misses-unlink a b (e ∷ es) h = elim (Bool-cases (e == b)) [
  | inl same ↦ rw same (Misses-unlink a b es h.1)
  | inr other ↦ rw other (h.0, Misses-unlink a b es h.1)
]

pub Distinct-unlink : (b : ℕ) (es : List ℕ) → Distinct es → Distinct (unlink b es)
Distinct-unlink b [] h = tt
Distinct-unlink b (e ∷ es) h = elim (Bool-cases (e == b)) [
  | inl same ↦ rw same (Distinct-unlink b es h.1)
  | inr other ↦ rw other (Misses-unlink e b es h.0, Distinct-unlink b es h.1)
]

pub AllBelow-Misses : (n : ℕ) (es : List ℕ) → AllBelow n es → Misses n es
AllBelow-Misses n [] h = tt
AllBelow-Misses n (e ∷ es) h = (ground arith, AllBelow-Misses n es h.1)

-- The first of a list without repetition is taken out.
pub unlink-first : (e : ℕ) (es : List ℕ) → Misses e es → unlink e (e ∷ es) ≡ es
unlink-first e es h =
    let same : (e == e) ≡ true = ground arith in rw (same, unlink-Misses e es h) refl

pub map-set_at-Misses :
    {A : Type 0} (memory : ℕ → A) (n : ℕ) (x : A) (es : List ℕ)
    → Misses n es
    → map (set_at memory n x) es ≡ map memory es
map-set_at-Misses memory n x [] h = refl
map-set_at-Misses memory n x (e ∷ es) h = rw (h.0, map-set_at-Misses memory n x es h.1) refl
