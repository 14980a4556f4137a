-- ===== src/Base/Text.antt =====
-- Texts that the program looks into, as the lists of their UTF-16 code units: prefixes, the longest run
-- of characters that pass a test, and decimal numbers.
use Prim.Native.Nat.{ℕ, zero, suc, ◌+◌, ◌-◌, ◌*◌, ◌/◌, ◌%◌, ◌^◌, ◌≤◌, ◌<◌}
use Prim.Native.Char.{code}
use Prim.Native.String.{String}
use mathlib.Core.Path.{◌≡◌, refl}
use mathlib.Core.Bool.{Bool, true, false, ◌&&◌, ◌||◌}
use mathlib.Core.Option.{Option, none, some}
use mathlib.Core.List.{List, [], ◌∷◌, ◌++◌}
use native.Mathlib.Omega.{arith}
use agent_reliability_platfo.Base.Tests.{ltb, leb, ◌==◌, if◌then◌else◌, is_some}
use agent_reliability_platfo.Base.Lists.{All, length}

abbrev pub Text : Type 0
Text = List ℕ

abbrev pub codes : String → Text
codes String.[] = []
codes (String.◌∷◌ c s) = code c ∷ codes s

-- Equality of texts.
unfoldable pub same_text : Text → Text → Bool
same_text [] [] = true
same_text (a ∷ s) (b ∷ t) = a == b && same_text s t
same_text _ _ = false

-- What follows a prefix, if it is there.
unfoldable pub after : Text → Text → Option Text
after [] s = some s
after (p ∷ ps) [] = none
after (p ∷ ps) (c ∷ s) = if p == c then after ps s else none

-- `s.includes(p)`
unfoldable pub has_text : Text → Text → Bool
unfolding after
has_text p [] = is_some (after p [])
has_text p (c ∷ s) = is_some (after p (c ∷ s)) || has_text p s

-- The longest run of characters that pass a test, and what follows it.
unfoldable pub span : (ℕ → Bool) → Text → Text × Text
span test [] = ([], [])
span test (c ∷ s) = let rest = span test s in if test c then (c ∷ rest.0, rest.1) else ([], c ∷ s)

abbrev pub is_empty : Text → Bool
is_empty [] = true
is_empty (c ∷ s) = false

-- `\d`
abbrev pub is_digit : ℕ → Bool
is_digit c = leb b'0' c && leb c b'9'

-- The first character of a text fails a test, or there is none.
abbrev pub Stops : (ℕ → Bool) → Text → Type 0
Stops test [] = Unit {0}
Stops test (c ∷ s) = test c ≡ false

pub after-append : (p s : Text) → after p (p ++ s) ≡ some s
unfolding after
after-append [] s = refl
after-append (c ∷ p) s = ground (arith, after-append p s)

-- A text is found in every text around it.
pub has_text-append : (p s t : Text) → has_text p (s ++ (p ++ t)) ≡ true
unfolding has_text
has_text-append [] [] [] = unfold after in refl
has_text-append [] [] (c ∷ t) = unfold after in refl
has_text-append (c ∷ p) [] t = unfold after in ground (arith, after-append p t)
has_text-append p (c ∷ s) t = ground (arith, has_text-append p s t)

pub after_inv : (p s t : Text) → after p s ≡ some t → s ≡ p ++ t
unfolding after
after_inv [] s t h = ground arith
after_inv (c ∷ p) [] t h = ground arith
after_inv (c ∷ p) (d ∷ s) t h = ground (arith, after_inv p s t)

pub span-append :
    (test : ℕ → Bool) (run s : Text)
    → All (λ c. test c ≡ true) run
    → Stops test s
    → span test (run ++ s) ≡ (run, s)
unfolding span
span-append test [] [] all stop = refl
span-append test [] (c ∷ s) all stop = rw stop
span-append test (c ∷ run) s all stop = rw (all.0, span-append test run s all.1 stop)

-- The two parts are the text, and the run passes the test.
pub span_parts : (test : ℕ → Bool) (s : Text) → (span test s).0 ++ (span test s).1 ≡ s
unfolding span
span_parts test [] = refl
span_parts test (c ∷ s) = ground (arith, span_parts test s)

pub span_run : (test : ℕ → Bool) (s : Text) → All (λ c. test c ≡ true) (span test s).0
unfolding span
span_run test [] = tt
span_run test (c ∷ s) = ground (arith, span_run test s)

pub same_text_iff : (s t : Text) → same_text s t ≡ true → s ≡ t
unfolding same_text
same_text_iff [] [] h = refl
same_text_iff [] (b ∷ t) h = ground arith
same_text_iff (a ∷ s) [] h = ground arith
same_text_iff (a ∷ s) (b ∷ t) h = ground (arith, same_text_iff s t)

pub same_text_refl : (s : Text) → same_text s s ≡ true
unfolding same_text
same_text_refl [] = refl
same_text_refl (a ∷ s) = ground (arith, same_text_refl s)

-- The number that decimal digits spell, read from the left.
unfoldable pub scan : Text → ℕ → ℕ
scan [] n = n
scan (c ∷ s) n = scan s (n * 10 + (c - b'0'))

-- `Number(digits)`: the double that is nearest, the even one of two. How many bits do not fit into 53:
unfoldable pub excess_bits : ℕ → ℕ → ℕ
excess_bits zero n = 0
excess_bits (suc f) n = let rest = excess_bits f (n / 2) in if ltb n (2 ^ 53) then 0 else suc rest

unfoldable pub nearest : ℕ → ℕ → ℕ
nearest n e =
    let q = n / 2 ^ e in
    let r = n % 2 ^ e in
    (q + (if ltb (2 ^ e) (2 * r) || 2 * r == 2 ^ e && q % 2 == 1 then 1 else 0)) * 2 ^ e

unfoldable pub to_number : Text → ℕ
to_number ds = let n = scan ds 0 in nearest n (excess_bits (4 * length ds) n)

-- A number of digits that a template literal prints, the first digit first.
unfoldable pub print_onto : ℕ → ℕ → Text → Text
print_onto zero n out = (b'0' + n) ∷ out
print_onto (suc f) n out =
    let rest = print_onto f (n / 10) ((b'0' + n % 10) ∷ out) in
    if ltb n 10 then (b'0' + n) ∷ out else rest

-- `${n}`, for a number below 10 ** 21
unfoldable pub print : ℕ → Text
print n = print_onto n n []

scan_last : (n : ℕ) (out : Text) → scan ((b'0' + n % 10) ∷ out) (n / 10) ≡ scan out n
unfolding scan
scan_last n out = ground arith

scan-print_onto : (f n : ℕ) (out : Text) → n ≤ f → scan (print_onto f n out) 0 ≡ scan out n
unfolding scan print_onto
scan-print_onto zero n out h = ground arith
scan-print_onto (suc f) n out h =
    ground (arith, scan_last n out, scan-print_onto f (n / 10) ((b'0' + n % 10) ∷ out))

pub scan-print : (n : ℕ) → scan (print n) 0 ≡ n
unfolding print scan
scan-print n = scan-print_onto n n [] (omega arith)

print_onto-digits :
    (f n : ℕ) (out : Text)
    → n ≤ f
    → All (λ c. is_digit c ≡ true) out
    → All (λ c. is_digit c ≡ true) (print_onto f n out)
unfolding print_onto
print_onto-digits zero n out h all = ground arith
print_onto-digits (suc f) n out h all =
    ground (arith, print_onto-digits f (n / 10) ((b'0' + n % 10) ∷ out))

pub print-digits : (n : ℕ) → All (λ c. is_digit c ≡ true) (print n)
unfolding print
print-digits n = print_onto-digits n n [] (omega arith) tt

excess_bits_small : (f n : ℕ) → n < 2 ^ 53 → excess_bits f n ≡ 0
unfolding excess_bits
excess_bits_small zero n h = refl
excess_bits_small (suc f) n h = ground arith

pub to_number-print : (n : ℕ) → n < 2 ^ 53 → to_number (print n) ≡ n
unfolding to_number nearest
to_number-print n h = rw (scan-print n, excess_bits_small (4 * length (print n)) n h) (ground arith)
