-- ===== src/Tasks/Pages.antt =====
-- The pages of task.controller.ts show each task once, the newest first.
use mathlib.Core.List.{Perm, map-append}
use mathlib.Core.List.Perm
use agent_reliability_platfo.Base.{
  ℕ, zero, suc, ◌+◌, ◌-◌, ◌*◌, ◌^◌, ◌≤◌, ◌<◌, ◌≡◌, refl, sym, ap, ◌∙◌, true, false, Option, none,
  some, List, [], ◌∷◌, ◌++◌, map, arith, Bool-cases, inl, inr, take, drop, take-append-drop, ◌/◌,
  ◌%◌, All, lt→ltb, le→leb,
}
use agent_reliability_platfo.Base.Text.{
  Text, span, is_digit, is_empty, print, print-digits, to_number-print, print_onto,
}
use agent_reliability_platfo.Store.Rows.{Task, Db}
use agent_reliability_platfo.Tasks.Listing.{
  positive_integer, PageQuery, page_of, parse_query, precedes, insert_task, newest_first, TaskItem,
  item_of, Page, list_page, list,
}

insert_task-perm :
    (rank : ℕ → ℕ) (t : Task) (us : List Task) → Perm (insert_task rank t us) (t ∷ us)
unfolding insert_task
insert_task-perm rank t [] = Perm.rfl
insert_task-perm rank t (u ∷ us) = elim (Bool-cases (precedes rank t u)) [
  | inl first ↦ rw first Perm.rfl
  | inr later ↦ rw later (Perm.trans (Perm.cons u (insert_task-perm rank t us)) (Perm.swap t u us))
]

pub newest_first-perm : (rank : ℕ → ℕ) (ts : List Task) → Perm (newest_first rank ts) ts
unfolding newest_first
newest_first-perm rank [] = Perm.rfl
newest_first-perm rank (t ∷ ts) =
    Perm.trans (insert_task-perm rank t (newest_first rank ts))
      (Perm.cons t (newest_first-perm rank ts))

-- Each task precedes the one behind it.
abbrev pub IsOrdered : (ℕ → ℕ) → List Task → Type 0
IsOrdered rank [] = Unit {0}
IsOrdered rank (t ∷ []) = Unit {0}
IsOrdered rank (t ∷ u ∷ us) = (precedes rank t u ≡ true) × IsOrdered rank (u ∷ us)

precedes_total : (rank : ℕ → ℕ) (a b : Task) → precedes rank a b ≡ false → precedes rank b a ≡ true
unfolding precedes
precedes_total rank a b h = ground arith

insert_task-IsOrdered :
    (rank : ℕ → ℕ) (t : Task) (us : List Task)
    → IsOrdered rank us
    → IsOrdered rank (insert_task rank t us)
unfolding insert_task
insert_task-IsOrdered rank t [] h = tt
insert_task-IsOrdered rank t (u ∷ []) h = ground (arith, precedes_total rank t u)
insert_task-IsOrdered rank t (u ∷ v ∷ us) h =
    ground (arith, precedes_total rank t u, insert_task-IsOrdered rank t (v ∷ us))

pub newest_first-IsOrdered : (rank : ℕ → ℕ) (ts : List Task) → IsOrdered rank (newest_first rank ts)
unfolding newest_first
newest_first-IsOrdered rank [] = tt
newest_first-IsOrdered rank (t ∷ ts) =
    insert_task-IsOrdered rank t (newest_first rank ts) (newest_first-IsOrdered rank ts)

print-ne-nil : (f n : ℕ) (out : Text) → is_empty (print_onto f n out) ≡ false
unfolding print_onto
print-ne-nil zero n out = refl
print-ne-nil (suc f) n out = ground (arith, print-ne-nil f (n / 10) ((b'0' + n % 10) ∷ out))

span-All : (s : Text) → All (λ c. is_digit c ≡ true) s → span is_digit s ≡ (s, [])
unfolding span
span-All [] all = refl
span-All (c ∷ s) all = rw (all.0, span-All s all.1)

positive_integer-print : (n : ℕ) → 0 < n → n < 2 ^ 53 → positive_integer (print n) ≡ some n
unfolding positive_integer print
positive_integer-print n positive fits = rw (
  span-All (print n) (print-digits n),
  print-ne-nil n n [],
  to_number-print n fits,
  lt→ltb 0 n positive,
  lt→ltb n (2 ^ 53) fits,
)

-- The query for a page.
abbrev pub query_for : ℕ → ℕ → PageQuery
query_for page size = record { page = some (print page); page_size = some (print size) }

parse_query-query_for :
    (k size : ℕ)
    → 0 < size
    → size ≤ 100
    → suc k * size < 2 ^ 53
    → parse_query (query_for (suc k) size) ≡ some (suc k, size)
unfolding parse_query page_of
parse_query-query_for k size positive small fits =
    rw
      (
        positive_integer-print (suc k) (omega arith) (grind arith),
        positive_integer-print size positive (grind arith),
      )
      (rw (le→leb size 100 small, lt→ltb ((suc k - 1) * size) (2 ^ 53) (grind arith)))

abbrev items_of : Option Page → List TaskItem
items_of none = []
items_of (some p) = p.items

-- The items of the first pages, one page behind the other.
unfoldable pub shown : (ℕ → ℕ) → Db → ℕ → ℕ → List TaskItem
shown rank db size zero = []
shown rank db size (suc k) =
    shown rank db size k ++ items_of (list rank db (query_for (suc k) size))

shown-take :
    (rank : ℕ → ℕ) (db : Db) (size k : ℕ)
    → 0 < size
    → size ≤ 100
    → k * size < 2 ^ 53
    → shown rank db size k ≡ map (item_of db) (take (k * size) (newest_first rank db.tasks))
unfolding shown list list_page
shown-take rank db size zero positive small fits =
    let none_yet : 0 * size ≡ 0 = grind arith in rw none_yet refl
shown-take rank db size (suc k) positive small fits =
    let tasks = newest_first rank db.tasks in
    let offset : (suc k - 1) * size ≡ k * size = grind arith in
    let sum : suc k * size ≡ k * size + size = grind arith in
    rw
      (
        shown-take rank db size k positive small (grind arith),
        parse_query-query_for k size positive small fits,
        offset,
        sum,
      )
      (sym (map-append (item_of db) (take (k * size) tasks) (take size (drop (k * size) tasks)))
        ∙ ap (map (item_of db)) (take-append-drop (k * size) size tasks))

-- The pages of the task list are the list of the tasks: the first `k` pages of `size` tasks, asked for by
-- their decimal numbers, show one behind the other the first `k * size` tasks of an order in which each
-- task of the database occurs as often as it does there, and each precedes the one behind it; so none is
-- left out or shown twice between two pages. The size is from 1 to 100, and the offset a safe integer.
pub shown-newest_first :
    (rank : ℕ → ℕ) (db : Db) (size k : ℕ)
    → 0 < size
    → size ≤ 100
    → k * size < 2 ^ 53
    → (shown rank db size k ≡ map (item_of db) (take (k * size) (newest_first rank db.tasks)))
      × Perm (newest_first rank db.tasks) db.tasks
      × IsOrdered rank (newest_first rank db.tasks)
shown-newest_first rank db size k positive small fits = (
  shown-take rank db size k positive small fits,
  newest_first-perm rank db.tasks,
  newest_first-IsOrdered rank db.tasks,
)
