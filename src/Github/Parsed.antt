-- ===== src/Github/Parsed.antt =====
-- What `parsePrUrl` of modules/github/pr-import.service.ts reads.
use agent_reliability_platfo.Base.{
  ℕ, zero, suc, ◌≤◌, ◌<◌, ◌+◌, ◌/◌, ◌%◌, ◌^◌, ◌≡◌, refl, sym, [], ap, ◌∙◌, ◌↔◌, Bool, true, false,
  some, Option-cases, Bool-cases, inl, inr, subst, ◌∷◌, ◌++◌, arith, All,
}
use agent_reliability_platfo.Base.Text.{
  Text, codes, after, span, is_empty, is_digit, Stops, after-append, after_inv, span-append,
  span_parts, span_run, to_number, print, print-digits, to_number-print, print_onto,
}
use agent_reliability_platfo.Github.Address.{
  Reference, is_name_char, github_prefix, pull_infix, is_positive_digits, is_end, run_of,
  pull_number, pull_behind_name, pull_behind_owner, parse_pr_url,
}

abbrev pub IsName : Text → Type 0
IsName s = (is_empty s ≡ false) × All (λ c. is_name_char c ≡ true) s

-- The address of a pull request, spelled out.
abbrev pub pull_url : Text → Text → Text → Text → Text
pull_url owner name digits tail =
    github_prefix ++ (owner ++ b'/' ∷ (name ++ (pull_infix ++ (digits ++ tail))))

run_of-append :
    (test : ℕ → Bool) (run s : Text)
    → is_empty run ≡ false
    → All (λ c. test c ≡ true) run
    → Stops test s
    → run_of test (run ++ s) ≡ some (run, s)
unfolding run_of
run_of-append test run s full all stop = rw (span-append test run s all stop, full)

is_end-Stops : (s : Text) → is_end s ≡ true → Stops is_digit s
unfolding is_end
is_end-Stops [] h = tt
is_end-Stops (c ∷ s) h = ground arith

pull_number-append :
    (digits tail : Text)
    → is_positive_digits digits ≡ true
    → All (λ c. is_digit c ≡ true) digits
    → is_end tail ≡ true
    → pull_number (digits ++ tail) ≡ some (to_number digits)
unfolding pull_number
pull_number-append digits tail positive all done =
    rw (span-append is_digit digits tail all (is_end-Stops tail done), positive, done)

after_slash : (s : Text) → after (codes "/") (b'/' ∷ s) ≡ some s
unfolding after
after_slash s = refl

pub parse_pr_url-pull_url :
    (owner name digits tail : Text)
    → IsName owner
    → IsName name
    → is_positive_digits digits ≡ true
    → All (λ c. is_digit c ≡ true) digits
    → is_end tail ≡ true
    → parse_pr_url (pull_url owner name digits tail)
      ≡ some (record { repo = owner ++ b'/' ∷ name; number = to_number digits })
unfolding parse_pr_url pull_behind_owner pull_behind_name
parse_pr_url-pull_url owner name digits tail is_owner is_name positive all done =
    rw (after-append github_prefix _) (
      rw (run_of-append is_name_char owner _ is_owner.0 is_owner.1 refl) (
        rw after_slash (
          rw (run_of-append is_name_char name _ is_name.0 is_name.1 refl) (
            rw (after-append pull_infix (digits ++ tail))
              (rw (pull_number-append digits tail positive all done))))))

head_positive :
    (f n : ℕ) (out : Text) → suc 0 ≤ n → n ≤ f → is_positive_digits (print_onto f n out) ≡ true
unfolding print_onto is_positive_digits
head_positive zero n out h k = ground arith
head_positive (suc f) n out h k = ground (arith, head_positive f (n / 10) ((b'0' + n % 10) ∷ out))

-- Round trip: the address that is printed of an owner, a name and a number, with or without a slash
-- behind it, is read back as these, for names of one or more of the characters of `[\w.-]` and a positive
-- number that a double holds exactly.
pub parse_pr_url-print :
    (owner name tail : Text) (n : ℕ)
    → IsName owner
    → IsName name
    → 0 < n
    → n < 2 ^ 53
    → is_end tail ≡ true
    → parse_pr_url (pull_url owner name (print n) tail)
      ≡ some (record { repo = owner ++ b'/' ∷ name; number = n })
unfolding print
parse_pr_url-print owner name tail n is_owner is_name positive fits done =
    parse_pr_url-pull_url owner name (print n) tail is_owner is_name
      (head_positive n n [] positive (omega arith)) (print-digits n) done
    ∙ ap (λ k. some (record { repo = owner ++ b'/' ∷ name; number = k })) (to_number-print n fits)

-- The pieces of an address that `parsePrUrl` accepts.
pub record IsPullAddress (url : Text) (r : Reference) : Type 0 where
  pub owner : Text
  pub name : Text
  pub digits : Text
  pub tail : Text
  pub spelled : url ≡ pull_url owner name digits tail
  pub is_owner : IsName owner
  pub is_name : IsName name
  pub positive : is_positive_digits digits ≡ true
  pub all_digits : All (λ c. is_digit c ≡ true) digits
  pub ended : is_end tail ≡ true
  pub read : r ≡ record { repo = owner ++ b'/' ∷ name; number = to_number digits }

-- A run, as the start of the text that it was cut from.
run_of_inv :
    (test : ℕ → Bool) (s : Text) (cut : Text × Text)
    → run_of test s ≡ some cut
    → (s ≡ cut.0 ++ cut.1) × (is_empty cut.0 ≡ false) × All (λ c. test c ≡ true) cut.0
unfolding run_of
run_of_inv test s cut h = elim (Bool-cases (is_empty (span test s).0)) [
  | inl none_left ↦ absurd (cc (h, none_left))
  | inr full ↦
      (let e : span test s ≡ cut = ground arith in
        subst (λ c. (s ≡ c.0 ++ c.1) × (is_empty c.0 ≡ false) × All (λ x. test x ≡ true) c.0) e
          (sym (span_parts test s), full, span_run test s))
]

pull_number_inv :
    (s : Text) (n : ℕ)
    → pull_number s ≡ some n
    → (cut : Text × Text) × (s ≡ cut.0 ++ cut.1)
      × (is_positive_digits cut.0 ≡ true)
      × All (λ c. is_digit c ≡ true) cut.0
      × (is_end cut.1 ≡ true)
      × (n ≡ to_number cut.0)
unfolding pull_number
pull_number_inv s n h = (
  span is_digit s,
  sym (span_parts is_digit s),
  ground arith,
  span_run is_digit s,
  ground arith,
  ground arith,
)

pull_behind_name_inv :
    (repo s : Text) (r : Reference)
    → pull_behind_name repo s ≡ some r
    → (digits : Text) × (n : ℕ) × (s ≡ pull_infix ++ digits)
      × (pull_number digits ≡ some n)
      × (r ≡ record { repo = repo; number = n })
unfolding pull_behind_name
pull_behind_name_inv repo s r h = elim (Option-cases (after pull_infix s)) [
  | inl missing ↦ absurd (cc (h, missing))
  | inr (digits, e) ↦ elim (Option-cases (pull_number digits)) [
    | inl missing ↦ absurd (cc (h, e, missing))
    | inr (n, k) ↦ (digits, n, after_inv pull_infix s digits e, k, cc (h, e, k))
  ]
]

pull_behind_owner_inv :
    (owner s : Text) (r : Reference)
    → pull_behind_owner owner s ≡ some r
    → (name : Text × Text) × (s ≡ b'/' ∷ (name.0 ++ name.1))
      × IsName name.0
      × (pull_behind_name (owner ++ b'/' ∷ name.0) name.1 ≡ some r)
unfolding pull_behind_owner
pull_behind_owner_inv owner s r h = elim (Option-cases (after (codes "/") s)) [
  | inl missing ↦ absurd (cc (h, missing))
  | inr (behind, e) ↦ elim (Option-cases (run_of is_name_char behind)) [
    | inl missing ↦ absurd (cc (h, e, missing))
    | inr (name, k) ↦
        (let (cut, full, all) = run_of_inv is_name_char behind name k in
          (name, cc (after_inv (codes "/") s behind e, cut), (full, all), cc (h, e, k)))
  ]
]

parse_pr_url_inv : (url : Text) (r : Reference) → parse_pr_url url ≡ some r → IsPullAddress url r
unfolding parse_pr_url
parse_pr_url_inv url r h = elim (Option-cases (after github_prefix url)) [
  | inl missing ↦ absurd (cc (h, missing))
  | inr (rest, e) ↦ elim (Option-cases (run_of is_name_char rest)) [
    | inl missing ↦ absurd (cc (h, e, missing))
    | inr (owner, k) ↦
        (let (o_cut, o_full, o_all) = run_of_inv is_name_char rest owner k in
          let (name, n_cut, is_name, h') = pull_behind_owner_inv owner.0 owner.1 r (cc (h, e, k)) in
          let (digits, n, d_eq, d_num, is_r) = pull_behind_name_inv _ name.1 r h' in
          let (cut, d_cut, d_pos, d_all, d_end, d_read) = pull_number_inv digits n d_num in
          record {
            owner = owner.0;
            name = name.0;
            digits = cut.0;
            tail = cut.1;
            spelled = cc (after_inv github_prefix url rest e, o_cut, n_cut, d_eq, d_cut);
            is_owner = (o_full, o_all);
            is_name = is_name;
            positive = d_pos;
            all_digits = d_all;
            ended = d_end;
            read = cc (is_r, d_read);
          })
  ]
]

-- `parsePrUrl` accepts exactly the addresses `https://github.com/OWNER/NAME/pull/DIGITS`, with or without
-- a slash behind them, whose owner and name are of one or more of the characters of `[\w.-]` and whose
-- digits do not begin with 0; it reads `OWNER/NAME` and the number of the digits, and nothing else.
pub parse_pr_url_iff :
    (url : Text) (r : Reference) → (parse_pr_url url ≡ some r) ↔ IsPullAddress url r
parse_pr_url_iff url r = (parse_pr_url_inv url r, accepted)
  where
    accepted : IsPullAddress url r → parse_pr_url url ≡ some r
    accepted a =
        rw (a.spelled, a.read)
          (parse_pr_url-pull_url a.owner a.name a.digits a.tail a.is_owner a.is_name a.positive
            a.all_digits a.ended)
