-- ===== src/Evaluation/Batches.antt =====
-- The operations of evaluation.controller.ts on the tables of evaluations. The order of fixtures is that of
-- the database's collation, a parameter.
use Prim.Native.String.{String, len}
use agent_reliability_platfo.Base.{
  ℕ, Option, none, some, List, [], ◌∷◌, ◌++◌, map, take, filter, ◌==◌, sort_by, if◌then◌else◌, leb,
}
use agent_reliability_platfo.Shared.Enums.{AgentKind}
use agent_reliability_platfo.Store.Table.{find, modify}
use agent_reliability_platfo.Evaluation.Summary.{ResultRow, Summary, summarize}

pub record Batch : Type 0 where
  pub id : ℕ
  pub suite : String
  pub agent_kind : AgentKind
  pub fault_injection : Option String
  pub started_at : ℕ
  pub finished_at : Option ℕ

-- The two tables, the rows in the order of their creation.
pub record Evaluations (D : Type 0) : Type 0 where
  pub batches : List Batch
  pub results : List (ResultRow D)

pub data Failure : Type 0 where
  bad_request not_found record_missing : Failure

pub data Answer (D A : Type 0) : Type 0 where
  answer : A → Evaluations D → Answer D A
  failure : Failure → Answer D A

abbrev pub batch_key : Batch → ℕ
batch_key b = b.id

-- `create`: the suite must have a name.
unfoldable pub create :
    {D : Type 0} → String → AgentKind → Option String → ℕ → ℕ → Evaluations D → Answer D Batch
create suite agent_kind fault_injection id now e =
    let b : Batch = record {
      id = id;
      suite = suite;
      agent_kind = agent_kind;
      fault_injection = fault_injection;
      started_at = now;
      finished_at = none;
    } in
    if len suite == 0
    then failure bad_request
    else answer b (record e { batches = e.batches ++ b ∷ [] })

-- `addResult`
unfoldable pub add_result : {D : Type 0} → ℕ → ResultRow D → Evaluations D → Answer D (ResultRow D)
unfolding find
add_result id row e =
    if len row.fixture_id == 0 then failure bad_request else elim (find batch_key id e.batches) [
      | none ↦ failure not_found
      | some b ↦
          answer (record row { evaluation_id = id })
            (record e { results = e.results ++ record row { evaluation_id = id } ∷ [] })
    ]

-- `finish`
unfoldable pub finish : {D : Type 0} → ℕ → ℕ → Evaluations D → Answer D ℕ
unfolding find modify
finish id now e = elim (find batch_key id e.batches) [
  | none ↦ failure record_missing
  | some b ↦ answer id (record e {
    batches = modify batch_key id (λ b. record b { finished_at = some now }) e.batches;
  })
]

-- The rows of a batch.
unfoldable pub results_of : {D : Type 0} → ℕ → Evaluations D → List (ResultRow D)
results_of {D} id e = filter (λ (r : ResultRow D). r.evaluation_id == id) e.results

-- The latest first; of the same time the one that was created later.
unfoldable pub insert_latest : Batch → List Batch → List Batch
insert_latest b [] = b ∷ []
insert_latest b (c ∷ cs) =
    let rest = insert_latest b cs in if leb c.started_at b.started_at then b ∷ c ∷ cs else c ∷ rest

unfoldable pub latest_first : List Batch → List Batch → List Batch
unfolding insert_latest
latest_first done [] = done
latest_first done (b ∷ bs) = latest_first (insert_latest b done) bs

pub record Listed (D : Type 0) : Type 0 where
  pub batch : Batch
  pub summary : Option (Summary D)

pub record Detail (D : Type 0) : Type 0 where
  pub batch : Batch
  pub results : List (ResultRow D)
  pub summary : Option (Summary D)

module _ {D : Type 0} (add : D → D → D) (nothing : D) where
  abbrev pub listed : Evaluations D → Batch → Listed D
  listed e b = record { batch = b; summary = summarize add nothing (results_of b.id e) }

  -- `list`
  unfoldable pub list : Evaluations D → List (Listed D)
  unfolding latest_first results_of
  list e = map (listed e) (take 50 (latest_first [] e.batches))

  -- `get`
  unfoldable pub get : (String → ℕ) → ℕ → Evaluations D → Option (Detail D)
  unfolding find results_of sort_by summarize
  get rank id e = elim (find batch_key id e.batches) [
    | none ↦ none
    | some b ↦
        (let rows = sort_by (λ (r : ResultRow D). rank r.fixture_id) (results_of b.id e) in
          some (record { batch = b; results = rows; summary = summarize add nothing rows }))
  ]
