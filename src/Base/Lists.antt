-- ===== src/Base/Lists.antt =====
-- Lists measured by native numbers, searches by a test, and predicates by recursion.
use Prim.Native.Nat.{ℕ, zero, suc, ◌+◌, ◌-◌, ◌≤◌, ◌<◌}
use mathlib.Core.Path.{◌≡◌, refl, ap, subst}
use mathlib.Core.Logic.{◌⊎◌, inl, inr}
use mathlib.Core.Bool.{Bool, true, false, ◌||◌}
use mathlib.Core.List.{List, [], ◌∷◌, ◌++◌}
use native.Mathlib.Nat.{zero-add}
use native.Mathlib.Omega.{arith}
use agent_reliability_platfo.Base.Tests.{if◌then◌else◌}

module _ {ℓ} {A : Type ℓ} where
  abbrev pub length : List A → ℕ
  length [] = 0
  length (x ∷ xs) = suc (length xs)

  -- `xs.some(test)`
  abbrev pub any : (A → Bool) → List A → Bool
  any test [] = false
  any test (x ∷ xs) = test x || any test xs

  -- `xs.filter(test)`
  abbrev pub filter : (A → Bool) → List A → List A
  filter test [] = []
  filter test (x ∷ xs) = let rest = filter test xs in if test x then x ∷ rest else rest

  abbrev pub take : ℕ → List A → List A
  take zero xs = []
  take (suc n) [] = []
  take (suc n) (x ∷ xs) = x ∷ take n xs

  abbrev pub drop : ℕ → List A → List A
  drop zero xs = xs
  drop (suc n) [] = []
  drop (suc n) (x ∷ xs) = drop n xs

  pub take-nil : (n : ℕ) → take n [] ≡ []
  take-nil zero = refl
  take-nil (suc n) = refl

  pub drop-nil : (n : ℕ) → drop n [] ≡ []
  drop-nil zero = refl
  drop-nil (suc n) = refl

  pub length-take : (n : ℕ) (xs : List A) → length (take n xs) ≤ n
  length-take zero xs = omega arith
  length-take (suc n) [] = omega arith
  length-take (suc n) (x ∷ xs) = omega (arith, length-take n xs)

  -- What is short is taken whole, by every number above its length.
  pub take_short : (n m : ℕ) (xs : List A) → length (take n xs) < n → n ≤ m → take m xs ≡ take n xs
  take_short zero m xs h k = absurd (omega arith)
  take_short (suc n) zero xs h k = absurd (omega arith)
  take_short (suc n) (suc m) [] h k = refl
  take_short (suc n) (suc m) (x ∷ xs) h k =
      ap (◌∷◌ x) (take_short n m xs (omega arith) (omega arith))

  pub take-append-drop : (n m : ℕ) (xs : List A) → take n xs ++ take m (drop n xs) ≡ take (n + m) xs
  take-append-drop zero m xs = rw zero-add
  take-append-drop (suc n) m [] = rw (take-nil m, take-nil (suc n + m)) refl
  take-append-drop (suc n) m (x ∷ xs) =
      let e : suc n + m ≡ suc (n + m) = omega arith in rw e (ap (◌∷◌ x) (take-append-drop n m xs))

  pub drop-drop : (n m : ℕ) (xs : List A) → drop n (drop m xs) ≡ drop (m + n) xs
  drop-drop n zero xs = rw zero-add
  drop-drop n (suc m) [] = rw (drop-nil n, drop-nil (suc m + n)) refl
  drop-drop n (suc m) (x ∷ xs) =
      let e : suc m + n ≡ suc (m + n) = omega arith in rw e (drop-drop n m xs)

  pub take-append :
      (n : ℕ) (xs ys : List A) → take n (xs ++ ys) ≡ take n xs ++ take (n - length (take n xs)) ys
  take-append zero xs ys = refl
  take-append (suc n) [] ys = let e : suc n - 0 ≡ suc n = omega arith in rw e refl
  take-append (suc n) (x ∷ xs) ys =
      let e : suc n - suc (length (take n xs)) ≡ n - length (take n xs) = omega arith in
      rw e (ap (◌∷◌ x) (take-append n xs ys))

  -- `xss.flat()`
  abbrev pub flat : List (List A) → List A
  flat [] = []
  flat (xs ∷ xss) = xs ++ flat xss

  pub length-append : (xs ys : List A) → length (xs ++ ys) ≡ length xs + length ys
  length-append [] ys = omega arith
  length-append (x ∷ xs) ys = omega (arith, length-append xs ys)

  pub filter-append :
      (test : A → Bool) (xs ys : List A) → filter test (xs ++ ys) ≡ filter test xs ++ filter test ys
  filter-append test [] ys = refl
  filter-append test (x ∷ xs) ys = ground (arith, filter-append test xs ys)

module _ {ℓ κ} {A : Type ℓ} (P : A → Type κ) where
  abbrev pub All : List A → Type κ
  All [] = Unit
  All (x ∷ xs) = P x × All xs

  pub All-append : (xs ys : List A) → All xs → All ys → All (xs ++ ys)
  All-append [] ys hx hy = hy
  All-append (x ∷ xs) ys hx hy = (hx.0, All-append xs ys hx.1 hy)

-- An element at some position of a list.
abbrev pub Among : {A : Type 0} → A → List A → Type 0
Among a [] = ⊥
Among a (b ∷ bs) = (b ≡ a) ⊎ Among a bs

pub All-Among : {A : Type 0} (P : A → Type 0) (a : A) (bs : List A) → All P bs → Among a bs → P a
All-Among P a [] all there = elim there [ ]
All-Among P a (b ∷ bs) all (inl e) = subst P e all.0
All-Among P a (b ∷ bs) all (inr there) = All-Among P a bs all.1 there

module _ {A : Type 0} (P : A → Type 0) where
  -- What is selected passes the test.
  pub filter-All :
      (test : A → Bool) (xs : List A) → All P xs → All (λ x. (test x ≡ true) × P x) (filter test xs)
  filter-All test [] h = tt
  filter-All test (x ∷ xs) h = go (test x) refl (filter-All test xs h.1)
    where
      go :
          (b : Bool)
          → test x ≡ b
          → All (λ y. (test y ≡ true) × P y) (filter test xs)
          → All (λ y. (test y ≡ true) × P y) (if b then x ∷ filter test xs else filter test xs)
      go true e rest = ((e, h.0), rest)
      go false e rest = rest

  pub take-All : (n : ℕ) (xs : List A) → All P xs → All P (take n xs)
  take-All zero xs h = tt
  take-All (suc n) [] h = tt
  take-All (suc n) (x ∷ xs) h = (h.0, take-All n xs h.1)

  pub All-mono : (Q : A → Type 0) (xs : List A) → ((x : A) → P x → Q x) → All P xs → All Q xs
  All-mono Q [] f h = tt
  All-mono Q (x ∷ xs) f h = (f x h.0, All-mono Q xs f h.1)

-- Every element of a list is among its elements.
pub Among-All : {A : Type 0} (xs : List A) → All (λ x. Among x xs) xs
Among-All [] = tt
Among-All (x ∷ xs) = (inl refl, All-mono _ _ xs (λ y h. inr h) (Among-All xs))
