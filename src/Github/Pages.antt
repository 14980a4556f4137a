-- ===== src/Github/Pages.antt =====
-- The import of modules/github/pr-import.service.ts reads all pages.
use agent_reliability_platfo.Base.{
  ℕ, zero, suc, ◌+◌, ◌*◌, ◌≡◌, refl, ap, sym, true, Option, none, some, List, [], ◌∷◌, arith, ltb,
  Bool-cases, inl, inr, length, take, drop, flat, take-nil, take-append, if◌then◌else◌, ◌-◌, ◌&&◌,
  take_short, take-append-drop, drop-drop,
}
use agent_reliability_platfo.Base.Text.{Text}
use agent_reliability_platfo.Github.Address.{Reference, parse_pr_url}
use agent_reliability_platfo.Github.Import.{
  GithubApi, PullRequest, PullFile, CheckRun, WorkflowRun, join_pages, collect, same_repo,
  same_full_name, inspection_of, inspect_pull, inspect_found, inspect, read_log,
}

-- A list that the API serves in pages of 100, the first with number 1.
abbrev pub Serves {ℓ} : {A : Type ℓ} → (ℕ → Option (List A)) → List A → Type ℓ
Serves get xs = (p : ℕ) → get (suc p) ≡ some (take 100 (drop (p * 100) xs))

-- A short page is the last one.
last_page {ℓ} :
    {A : Type ℓ} (n k : ℕ) (ys : List A)
    → ltb (length (take n ys)) n ≡ true
    → take n ys ≡ take (n + k) ys
last_page n k ys h = sym (take_short n (n + k) ys (ground arith) (omega arith))

one_more : (p : ℕ) → suc p + 1 ≡ suc (suc p)
one_more p = omega arith

joined {ℓ} :
    {A : Type ℓ} (k : ℕ) (ys : List A)
    → join_pages (some (take 100 ys)) (some (take k (drop 100 ys))) ≡ some (take (100 + k) ys)
unfolding join_pages
joined k ys = elim (Bool-cases (ltb (length (take 100 ys)) 100)) [
  | inl short ↦ rw short (ap some (last_page 100 k ys short))
  | inr full ↦ rw full (ap some (take-append-drop 100 k ys))
]

collect-Serves {ℓ} :
    {A : Type ℓ} (get : ℕ → Option (List A)) (xs : List A)
    → Serves get xs
    → (pages p : ℕ) → collect get pages (suc p) ≡ some (take (pages * 100) (drop (p * 100) xs))
unfolding collect
collect-Serves get xs serves zero p = refl
collect-Serves get xs serves (suc k) p =
    let ys = drop (p * 100) xs in
    let later = collect-Serves get xs serves k (suc p) in
    let n : suc k * 100 ≡ 100 + k * 100 = omega arith in
    let e : suc p * 100 ≡ p * 100 + 100 = omega arith in
    rw (serves p, one_more p, later, n, e, ← drop-drop 100 (p * 100) xs) (joined (k * 100) ys)

-- An import lists the first 3000 files of the pull request, and of the first 1000 checks of its head those
-- that failed, in the order of the API and without gaps, where the API serves its lists in pages of 100; and
-- it is refused exactly if the address names another repository than the project's, or the pull request
-- is not open, or its two ends are in different repositories.
pub inspect-Serves :
    (api : GithubApi) (url repo : Text) (found : Reference) (pr : PullRequest)
    (files : List PullFile) (checks : List CheckRun) (runs : List WorkflowRun)
    → parse_pr_url url ≡ some found
    → api.pull repo found.number ≡ some pr
    → Serves (api.files repo found.number) files
    → Serves (api.checks repo pr.head_sha) checks
    → api.workflow_runs repo pr.head_sha ≡ some runs
    → inspect api url repo ≡ (
        if same_repo found.repo repo && (pr.is_open && same_full_name pr.head_repo pr.base_repo)
        then some (inspection_of pr (take 3_000 files) (take 1_000 checks) runs)
        else none)
unfolding inspect inspect_found inspect_pull
inspect-Serves api url repo found pr files checks runs parsed pulled serves_files serves_checks
      ran =
    elim (Bool-cases (same_repo found.repo repo)) [
      | inr other ↦ rw parsed (rw other)
      | inl same ↦ rw parsed (
          rw same (
            rw pulled (elim (Bool-cases (pr.is_open && same_full_name pr.head_repo pr.base_repo)) [
              | inr closed ↦ rw closed
              | inl ready ↦ rw ready (
                  rw (collect-Serves (api.files repo found.number) files serves_files 30 0) (
                    rw (collect-Serves (api.checks repo pr.head_sha) checks serves_checks 10 0)
                      (rw ran)))
            ])))
    ]

-- A log is kept up to its first 200000 bytes, wherever its chunks begin and end.
pub read_log-flat :
    (total : ℕ) (chunks : List (List ℕ))
    → read_log total chunks ≡ take (200_000 - total) (flat chunks)
unfolding read_log
read_log-flat total [] = sym (take-nil (200_000 - total))
read_log-flat total (chunk ∷ chunks) = elim (Bool-cases (ltb total 200_000)) [
  | inl open_log ↦
      (let part = take (200_000 - total) chunk in
        let e : 200_000 - (total + length part) ≡ 200_000 - total - length part = omega arith in
        rw (open_log, read_log-flat (total + length part) chunks, e)
          (sym (take-append (200_000 - total) chunk (flat chunks))))
  | inr full ↦ (let e : 200_000 - total ≡ 0 = ground arith in rw (full, e) refl)
]
