-- ===== src/Github/Redacted.antt =====
-- What the redaction of a log promises: the token of the repository is nowhere in the text.
use mathlib.Core.List.{append-nil}
use agent_reliability_platfo.Base.{
  ◌⊎◌, ℕ, zero, suc, ◌<◌, ◌≡◌, refl, ap, Bool, true, false, some, [], ◌∷◌, ◌++◌, ◌==◌, leb, length,
  arith, All, is_some, if◌then◌else◌, Bool-cases, inl, inr,
}
use agent_reliability_platfo.Base.Text.{Text, codes, after, has_text}
use agent_reliability_platfo.Github.Redaction.{
  is_word, redacted, replace, token_size, github_size, truncated, log_text,
}

abbrev starts : Text → Text → Bool
starts p s = is_some (after p s)

abbrev AreWords : Text → Type 0
AreWords p = All (λ c. is_word c ≡ true) p

-- A word does not reach over a character that is in no word.
starts-cut :
    (p x y : Text) (sep : ℕ)
    → AreWords p
    → is_word sep ≡ false
    → starts p (x ++ sep ∷ y) ≡ starts p x
unfolding after
starts-cut [] x y sep words cut = ground arith
starts-cut (a ∷ p) [] y sep words cut = elim (Bool-cases (a == sep)) [
  | inl same ↦ ground (arith, words.0)
  | inr other ↦ rw other refl
]
starts-cut (a ∷ p) (c ∷ x) y sep words cut = ground (arith, starts-cut p x y sep words.1)

-- A word is in neither part of a text, so it is not in the text.
has_text-cut :
    (p x y : Text) (sep : ℕ)
    → AreWords p
    → 0 < length p
    → is_word sep ≡ false
    → has_text p x ≡ false
    → has_text p y ≡ false
    → has_text p (x ++ sep ∷ y) ≡ false
unfolding has_text
has_text-cut p [] y sep words long cut before behind =
    ground (arith, starts-cut p [] y sep words cut)
has_text-cut p (c ∷ x) y sep words long cut before behind =
    ground (arith, starts-cut p (c ∷ x) y sep words cut, has_text-cut p x y sep words long cut)

-- A text has no longer text in it.
starts_short : (p x : Text) → length x < length p → starts p x ≡ false
unfolding after
starts_short [] x short = ground arith
starts_short (a ∷ p) [] short = refl
starts_short (a ∷ p) (c ∷ x) short = ground (arith, starts_short p x (omega arith))

has_text_short : (p x : Text) → length x < length p → has_text p x ≡ false
unfolding has_text
has_text_short p [] short = starts_short p [] short
has_text_short p (c ∷ x) short =
    ground (arith, starts_short p (c ∷ x) short, has_text_short p x (omega arith))

-- A word that stands at the start of what is left stood there before.
starts-replace :
    (size : Text → ℕ) (p s : Text)
    → AreWords p
    → starts p (replace size 0 s) ≡ true
    → starts p s ≡ true
unfolding after replace
starts-replace size [] s words found = ground arith
starts-replace size (a ∷ p) [] words found = found
starts-replace size (a ∷ p) (c ∷ s) words found = ground (arith, starts-replace size p s words.1)

-- The mark of a redaction brings no long word, and separates what is before it from what is behind it.
has_text-redacted :
    (p s : Text)
    → AreWords p
    → 8 < length p
    → has_text p s ≡ false
    → has_text p (redacted ++ s) ≡ false
has_text-redacted p s words long absent =
    has_text-cut p [] (codes "REDACTED]" ++ s) b'[' words (omega arith) refl
      (has_text_short p [] (omega arith))
      (has_text-cut p (codes "REDACTED") s b']' words (omega arith) refl
        (has_text_short p (codes "REDACTED") (omega arith)) absent)

zero-cases : (n : ℕ) → (n ≡ 0) ⊎ ((k : ℕ) × (n ≡ suc k))
zero-cases zero = inl refl
zero-cases (suc k) = inr (k, refl)

replace-stays :
    (size : Text → ℕ) (c : ℕ) (s : Text)
    → size (c ∷ s) ≡ 0
    → replace size 0 (c ∷ s) ≡ c ∷ replace size 0 s
unfolding replace
replace-stays size c s stays = ground (arith, stays)

replace-goes :
    (size : Text → ℕ) (c n : ℕ) (s : Text)
    → size (c ∷ s) ≡ suc n
    → replace size 0 (c ∷ s) ≡ redacted ++ replace size n s
unfolding replace
replace-goes size c n s goes =
    ap (λ k. elim k [ zero ↦ c ∷ replace size zero s | suc m ↦ redacted ++ replace size m s ]) goes

has_text_none :
    (p : Text) (c : ℕ) (s : Text)
    → starts p (c ∷ s) ≡ false
    → has_text p s ≡ false
    → has_text p (c ∷ s) ≡ false
unfolding has_text
has_text_none p c s first behind = ground (arith, first, behind)

-- One position: a character that stays, or a mark.
absent_at :
    (size : Text → ℕ) (p : Text) (c : ℕ) (s : Text)
    → AreWords p
    → 8 < length p
    → (size (c ∷ s) ≡ 0 → starts p (c ∷ s) ≡ false)
    → ((skip : ℕ) → has_text p (replace size skip s) ≡ false)
    → has_text p (replace size 0 (c ∷ s)) ≡ false
absent_at size p c s words long clear behind = elim (zero-cases (size (c ∷ s))) [
  | inl stays ↦
      (let e : replace size 0 (c ∷ s) ≡ c ∷ replace size 0 s = replace-stays size c s stays in
        let first : starts p (c ∷ replace size 0 s) ≡ false = rw e at (unstarted (clear stays)) in
        rw e (has_text_none p c (replace size 0 s) first (behind 0)))
  | inr (n, goes) ↦
      rw (replace-goes size c n s goes)
        (has_text-redacted p (replace size n s) words long (behind n))
]
  where
    unstarted : starts p (c ∷ s) ≡ false → starts p (replace size 0 (c ∷ s)) ≡ false
    unstarted never = ground (arith, starts-replace size p (c ∷ s) words, never)

-- What starts nowhere where nothing is replaced is not in what is left.
absent_after :
    (size : Text → ℕ) (p s : Text) (skip : ℕ)
    → AreWords p
    → 8 < length p
    → ((t : Text) → size t ≡ 0 → starts p t ≡ false)
    → has_text p (replace size skip s) ≡ false
unfolding replace
absent_after size p [] skip words long clear = has_text_short p [] (omega arith)
absent_after size p (c ∷ s) (suc skip) words long clear =
    absent_after size p s skip words long clear
absent_after size p (c ∷ s) zero words long clear =
    absent_at size p c s words long (clear (c ∷ s))
      (λ skip. absent_after size p s skip words long clear)

-- A word that is in no part of a text is in no part of what is left of it.
still_absent :
    (size : Text → ℕ) (p s : Text) (skip : ℕ)
    → AreWords p
    → 8 < length p
    → has_text p s ≡ false
    → has_text p (replace size skip s) ≡ false
unfolding replace has_text
still_absent size p [] skip words long absent = has_text_short p [] (omega arith)
still_absent size p (c ∷ s) (suc skip) words long absent =
    still_absent size p s skip words long (ground (arith, absent))
still_absent size p (c ∷ s) zero words long absent =
    absent_at size p c s words long (λ stays. ground (arith, absent))
      (λ skip. still_absent size p s skip words long (ground (arith, absent)))

token_absent : (token t : Text) → 0 < length token → token_size token t ≡ 0 → starts token t ≡ false
unfolding token_size
token_absent token t long none_here = ground arith

-- The words of the last line are short.
last_line_absent :
    (p : Text) → AreWords p → 9 < length p → has_text p (codes "[log truncated at 200 KB]") ≡ false
last_line_absent p words long = cut [] b'[' _ refl (short [] refl) (
    cut (codes "log") b' ' _ refl (short (codes "log") refl) (
      cut (codes "truncated") b' ' _ refl (short (codes "truncated") refl) (
        cut (codes "at") b' ' _ refl (short (codes "at") refl) (
          cut (codes "200") b' ' _ refl (short (codes "200") refl)
            (cut (codes "KB") b']' [] refl (short (codes "KB") refl) (short [] refl))))))
  where
    short : (x : Text) → leb (length x) 9 ≡ true → has_text p x ≡ false
    short x h = has_text_short p x (ground (arith, h))

    cut :
        (x : Text) (sep : ℕ) (y : Text)
        → is_word sep ≡ false
        → has_text p x ≡ false
        → has_text p y ≡ false
        → has_text p (x ++ sep ∷ y) ≡ false
    cut x sep y no_word before behind =
        has_text-cut p x y sep words (omega arith) no_word before behind

tail_absent :
    (p : Text) (total : ℕ)
    → AreWords p
    → 9 < length p
    → (x : Text) → has_text p x ≡ false
    → has_text p (x ++ (if leb 200_000 total then truncated else [])) ≡ false
tail_absent p total words long x absent = elim (Bool-cases (leb 200_000 total)) [
  | inl full ↦ rw full (
      has_text-cut p x (codes "[log truncated at 200 KB]") b'\n' words (omega arith) refl absent
        (last_line_absent p words long))
  | inr short ↦ rw (short, append-nil) absent
]

-- The text of a log does not have the token of the repository in it, where the token has at least ten
-- characters, all letters, digits and underscores: neither in what the log said, nor across a redaction,
-- nor in the last line that says where the log was cut.
pub log_text-hides :
    (token text : Text) (total : ℕ)
    → All (λ c. is_word c ≡ true) token
    → 9 < length token
    → has_text token (log_text (some token) text total) ≡ false
unfolding log_text
log_text-hides [] text total words long = ground arith
log_text-hides (c ∷ t) text total words long = tail_absent (c ∷ t) total words long _ (
    still_absent github_size (c ∷ t) _ 0 words (omega arith) (
      absent_after (token_size (c ∷ t)) (c ∷ t) text 0 words (omega arith)
        (λ s. token_absent (c ∷ t) s (omega arith))))
