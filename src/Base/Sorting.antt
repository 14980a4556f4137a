-- ===== src/Base/Sorting.antt =====
-- A stable sort by a number, and lists of numbers that follow one another.
use Prim.Native.Nat.{ℕ, zero, suc}
use mathlib.Core.Path.{◌≡◌, refl}
use mathlib.Core.Bool.{Bool, true, false}
use mathlib.Core.List.{List, [], ◌∷◌, map}
use native.Mathlib.Omega.{arith}
use agent_reliability_platfo.Base.Tests.{if◌then◌else◌, leb}
use agent_reliability_platfo.Base.Lists.{All}

-- `range s k`: the `k` numbers that follow `s`.
unfoldable pub range : ℕ → ℕ → List ℕ
range s zero = []
range s (suc k) = suc s ∷ range (suc s) k

module _ {A : Type 0} (key : A → ℕ) where
  unfoldable pub insert_by : A → List A → List A
  insert_by x [] = x ∷ []
  insert_by x (y ∷ ys) =
      let rest = insert_by x ys in if leb (key x) (key y) then x ∷ y ∷ ys else y ∷ rest

  -- `[...xs].sort((a, b) => key(a) - key(b))`, and `orderBy` in ascending order
  unfoldable pub sort_by : List A → List A
  sort_by [] = []
  sort_by (x ∷ xs) = insert_by x (sort_by xs)

  -- A list in order stays as it is.
  pub sort_by-range : (s k : ℕ) (xs : List A) → map key xs ≡ range s k → sort_by xs ≡ xs
  unfolding sort_by insert_by range
  sort_by-range s k [] h = refl
  sort_by-range s zero (x ∷ xs) h = ground arith
  sort_by-range s (suc k) (x ∷ []) h = refl
  sort_by-range s (suc zero) (x ∷ y ∷ ys) h = ground arith
  sort_by-range s (suc (suc k)) (x ∷ y ∷ ys) h =
      ground (arith, sort_by-range (suc s) (suc k) (y ∷ ys))

module _ {A : Type 0} (key : A → ℕ) (P : A → Type 0) where
  insert_by-All : (x : A) (ys : List A) → P x → All P ys → All P (insert_by key x ys)
  unfolding insert_by
  insert_by-All x [] p h = (p, tt)
  insert_by-All x (y ∷ ys) p h = go (leb (key x) (key y)) (insert_by-All x ys p h.1)
    where
      go :
          (b : Bool)
          → All P (insert_by key x ys)
          → All P (if b then x ∷ y ∷ ys else y ∷ insert_by key x ys)
      go true rest = (p, h)
      go false rest = (h.0, rest)

  -- A sort keeps what holds of every element.
  pub sort_by-All : (xs : List A) → All P xs → All P (sort_by key xs)
  unfolding sort_by
  sort_by-All [] h = tt
  sort_by-All (x ∷ xs) h = insert_by-All x (sort_by key xs) h.0 (sort_by-All xs h.1)
