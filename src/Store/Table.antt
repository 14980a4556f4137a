-- ===== src/Store/Table.antt =====
-- A table as the list of its rows, the oldest first; rows are found by a key.
use agent_reliability_platfo.Base.{
  ℕ, ◌≡◌, refl, Bool, Option, none, some, List, [], ◌∷◌, ◌++◌, arith, ◌==◌, if◌then◌else◌,
}
use mathlib.Core.Option

module _ {A : Type 0} (key : A → ℕ) where
  -- `findUnique`
  unfoldable pub find : ℕ → List A → Option A
  find k [] = none
  find k (r ∷ rs) = if key r == k then some r else find k rs

  -- `update` of the row with key `k`
  unfoldable pub modify : ℕ → (A → A) → List A → List A
  modify k f [] = []
  modify k f (r ∷ rs) = (if key r == k then f r else r) ∷ modify k f rs

  -- A read after a write, where the write leaves the keys alone.
  pub find-modify :
      (j k : ℕ) (f : A → A) (rs : List A)
      → ((r : A) → key (f r) ≡ key r)
      → find j (modify k f rs) ≡ (if j == k then Option.map f (find j rs) else find j rs)
  unfolding find modify
  find-modify j k f [] keeps = ground arith
  find-modify j k f (r ∷ rs) keeps = ground (arith, keeps r, find-modify j k f rs keeps)

  pub find-append :
      (j : ℕ) (rs : List A) (r : A)
      → find j (rs ++ r ∷ [])
        ≡ elim (find j rs) [ none ↦ if key r == j then some r else none | some q ↦ some q ]
  unfolding find
  find-append j [] r = refl
  find-append j (q ∷ rs) r = ground (arith, find-append j rs r)

  -- What is found has the key that was asked for.
  pub find-key : (k : ℕ) (rs : List A) (r : A) → find k rs ≡ some r → key r ≡ k
  unfolding find
  find-key k [] r h = ground arith
  find-key k (q ∷ rs) r h = ground (arith, find-key k rs r)

module _ {A : Type 0} (test : A → Bool) where
  -- `findFirst` in ascending order of creation
  unfoldable pub first_where : List A → Option A
  first_where [] = none
  first_where (r ∷ rs) = if test r then some r else first_where rs

  -- `findFirst` in descending order of creation
  unfoldable pub last_where : List A → Option A
  last_where [] = none
  last_where (r ∷ rs) = elim (last_where rs) [
    | none ↦ if test r then some r else none
    | some q ↦ some q
  ]

  -- `updateMany`
  unfoldable pub modify_where : (A → A) → List A → List A
  modify_where f [] = []
  modify_where f (r ∷ rs) = (if test r then f r else r) ∷ modify_where f rs
