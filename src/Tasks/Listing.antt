-- ===== src/Tasks/Listing.antt =====
-- `list` and `get` of task.controller.ts. The database orders identifiers of the same time by its
-- collation, a parameter.
use mathlib.Core.Option
use agent_reliability_platfo.Base.{
  ℕ, ◌-◌, ◌*◌, ◌^◌, Bool, not, ◌&&◌, ◌||◌, Option, none, some, List, [], ◌∷◌, map, ◌==◌, ltb, leb,
  filter, length, take, drop, if◌then◌else◌,
}
use agent_reliability_platfo.Base.Text.{Text, codes, span, is_digit, is_empty, to_number}
use agent_reliability_platfo.Store.Table.{find, first_where}
use agent_reliability_platfo.Store.Rows.{Task, Run, Approval, Db}
use agent_reliability_platfo.Store.Queries.{task_key}

-- `z.string().regex(/^\d+$/).transform(Number).pipe(z.number().int().positive())`: whole numbers of zod
-- are below 2 ** 53.
unfoldable pub positive_integer : Text → Option ℕ
unfolding span to_number
positive_integer s =
    let cut = span is_digit s in
    let n = to_number s in
    if is_empty s || not (is_empty cut.1)
    then none
    else if ltb 0 n && ltb n (2 ^ 53)
    then some n
    else none

abbrev or_text : Option Text → Text → Text
or_text none t = t
or_text (some s) t = s

pub record PageQuery : Type 0 where
  pub page : Option Text
  pub page_size : Option Text

-- `ListTasksSchema`, with its defaults: a page of at most 100, at an offset below 2 ** 53.
abbrev in_range : ℕ → ℕ → Option (ℕ × ℕ)
in_range page page_size =
    if leb page_size 100 && ltb ((page - 1) * page_size) (2 ^ 53)
    then some (page, page_size)
    else none

unfoldable pub page_of : Option ℕ → Option ℕ → Option (ℕ × ℕ)
page_of none size = none
page_of (some page) none = none
page_of (some page) (some size) = in_range page size

unfoldable pub parse_query : PageQuery → Option (ℕ × ℕ)
unfolding positive_integer page_of
parse_query q =
    page_of (positive_integer (or_text q.page (codes "1")))
      (positive_integer (or_text q.page_size (codes "20")))

-- `orderBy: [{ createdAt: 'desc' }, { id: 'desc' }]`
module _ (rank : ℕ → ℕ) where
  unfoldable pub precedes : Task → Task → Bool
  precedes a b =
      ltb b.created_at a.created_at || b.created_at == a.created_at && leb (rank b.id) (rank a.id)

  unfoldable pub insert_task : Task → List Task → List Task
  unfolding precedes
  insert_task t [] = t ∷ []
  insert_task t (u ∷ us) =
      let rest = insert_task t us in if precedes t u then t ∷ u ∷ us else u ∷ rest

  unfoldable pub newest_first : List Task → List Task
  unfolding insert_task
  newest_first [] = []
  newest_first (t ∷ ts) = insert_task t (newest_first ts)

-- A task with its runs and its approval.
pub record TaskItem : Type 0 where
  pub task : Task
  pub runs : List Run
  pub approval : Option Approval

abbrev pub item_of : Db → Task → TaskItem
item_of db t = record {
  task = t;
  runs = filter (λ (r : Run). r.task_id == t.id) db.runs;
  approval = first_where (λ (a : Approval). a.task_id == t.id) db.approvals;
}

pub record Page : Type 0 where
  pub items : List TaskItem
  pub total : ℕ
  pub page : ℕ
  pub page_size : ℕ

-- The transaction of `list`, which sees one state of the database.
unfoldable pub list_page : (ℕ → ℕ) → Db → ℕ × ℕ → Page
unfolding newest_first
list_page rank db (page, size) = record {
  items = map (item_of db) (take size (drop ((page - 1) * size) (newest_first rank db.tasks)));
  total = length db.tasks;
  page = page;
  page_size = size;
}

-- `list`; `none` is the `BadRequestException`.
unfoldable pub list : (ℕ → ℕ) → Db → PageQuery → Option Page
unfolding parse_query list_page
list rank db q = Option.map (list_page rank db) (parse_query q)

-- `get`; `none` is the `NotFoundException`.
unfoldable pub get : Db → ℕ → Option TaskItem
unfolding find first_where
get db id = elim (find task_key id db.tasks) [ none ↦ none | some t ↦ some (item_of db t) ]
