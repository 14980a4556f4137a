-- ===== src/Events/Ranges.antt =====
-- Lists of sequences that follow one another, as the queries of sse.controller.ts cut them.
use agent_reliability_platfo.Base.{
  ℕ, zero, suc, ◌+◌, ◌-◌, ◌≤◌, ◌≡◌, refl, ap, ◌∙◌, [], ◌∷◌, ◌++◌, arith, ltb, filter, take, range,
  if◌then◌else◌, Bool-cases, inl, inr,
}
use agent_reliability_platfo.Run.Consistent.Defs.{count_up}

abbrev pub smaller : ℕ → ℕ → ℕ
smaller a b = if ltb a b then a else b

pub range-eq : (s t k j : ℕ) → s ≡ t → k ≡ j → range s k ≡ range t j
range-eq s t k j p q = rw (p, q) refl

pub range-append : (s k j : ℕ) → range s k ++ range (s + k) j ≡ range s (k + j)
unfolding range
range-append s zero j = range-eq (s + 0) s j (0 + j) (omega arith) (omega arith)
range-append s (suc k) j =
    ap (λ ns. suc s ∷ (range (suc s) k ++ ns))
      (range-eq (s + suc k) (suc s + k) j j (omega arith) refl)
    ∙ ap (λ ns. suc s ∷ ns) (range-append (suc s) k j)
    ∙ range-eq s s (suc (k + j)) (suc k + j) refl (omega arith)

pub count_up-range : (n : ℕ) → count_up n ≡ range 0 n
unfolding count_up range
count_up-range zero = refl
count_up-range (suc n) =
    ap (λ ns. ns ++ suc n ∷ []) (count_up-range n)
    ∙ ap (λ m. range 0 n ++ suc m ∷ []) (omega arith)
    ∙ range-append 0 n 1
    ∙ range-eq 0 0 (n + 1) (suc n) refl (omega arith)

-- What is above a number in a range is a range.
filter-above : (s t k : ℕ) → s ≤ t → filter (λ x. ltb s x) (range t k) ≡ range t k
unfolding range
filter-above s t zero h = refl
filter-above s t (suc k) h = ground (arith, filter-above s (suc t) k (omega arith))

pub filter-range : (s t k : ℕ) → t ≤ s → filter (λ x. ltb s x) (range t k) ≡ range s (t + k - s)
unfolding range
filter-range s t zero h = range-eq s s 0 (t + 0 - s) refl (omega arith)
filter-range s t (suc k) h = elim (Bool-cases (ltb s (suc t))) [
  | inl above ↦ rw above (
      ap (λ ns. suc t ∷ ns) (filter-above s (suc t) k (ground arith))
      ∙ range-eq t s (suc k) (t + suc k - s) (ground arith) (ground arith))
  | inr below ↦ rw below (
      filter-range s (suc t) k (ground arith)
      ∙ range-eq s s (suc t + k - s) (t + suc k - s) refl (omega arith))
]

pub take-range : (m s k : ℕ) → take m (range s k) ≡ range s (smaller m k)
unfolding range
take-range zero s k = ground arith
take-range (suc m) s zero = range-eq s s 0 (smaller (suc m) 0) refl (ground arith)
take-range (suc m) s (suc k) = ground (arith, take-range m (suc s) k)
