-- ===== src/StateMachine/Graph.antt =====
-- Histories: the statuses that an entity takes one after another, each by a transition of its table
-- in apps/control-plane/src/state-machine/state-machine.ts.
use agent_reliability_platfo.Base.{
  Bool, true, false, not, ◌&&◌, ◌||◌, ◌≡◌, ◌==◌, length, refl, ap, List, [], ◌∷◌, arith, ◌⊎◌,
}
use agent_reliability_platfo.Shared.Enums.{
  Enum, TaskStatus, RunStatus, ◌===◌, includes, task_status_enum, run_status_enum,
}
use agent_reliability_platfo.StateMachine.{
  task_transitions, run_transitions, can_transition, is_terminal,
}

module _ {S : Type 0} ⦃e : Enum S⦄ (table : S → List S) where
  -- `is_legal table s ts`: from `s` the table allows the statuses `ts` in this order.
  abbrev pub is_legal : S → List S → Bool
  is_legal s [] = true
  is_legal s (t ∷ ts) = can_transition table s t && is_legal t ts

abbrev pub last_status {ℓ} : {S : Type ℓ} → S → List S → S
last_status s [] = s
last_status s (t ∷ ts) = last_status t ts

-- The task statuses that come before an approval, and those that need one.
abbrev is_unapproved : TaskStatus → Bool
is_unapproved s =
    includes
      (TaskStatus.created ∷ TaskStatus.queued ∷ TaskStatus.running ∷ TaskStatus.needs_attention
        ∷ TaskStatus.awaiting_approval ∷ TaskStatus.rejected ∷ TaskStatus.failed
        ∷ TaskStatus.cancelled ∷ [])
      s

unapproved_step :
    (s t : TaskStatus)
    → is_unapproved s ≡ true
    → can_transition task_transitions s t ≡ true
    → (is_unapproved t ≡ true) ⊎ ((t === TaskStatus.approved) ≡ true)
unfolding can_transition task_transitions
unapproved_step s t h k = ground arith

-- A run that has not been verified is in one of these.
abbrev is_unverified : RunStatus → Bool
is_unverified s =
    includes
      (RunStatus.pending ∷ RunStatus.dispatched ∷ RunStatus.running ∷ RunStatus.interrupted
        ∷ RunStatus.recovering ∷ RunStatus.failed ∷ RunStatus.cancelled ∷ [])
      s

unverified_step :
    (s t : RunStatus)
    → is_unverified s ≡ true
    → can_transition run_transitions s t ≡ true
    → (is_unverified t ≡ true) ⊎ ((t === RunStatus.verifying) ≡ true)
unfolding can_transition run_transitions
unverified_step s t h k = ground arith

delivered_not_unapproved :
    (s : TaskStatus)
    → includes (TaskStatus.pr_created ∷ TaskStatus.pr_failed ∷ TaskStatus.resolved ∷ []) s ≡ true
    → is_unapproved s ≡ false
delivered_not_unapproved s h = ground arith

unapproved_history :
    (s : TaskStatus) (ts : List TaskStatus)
    → is_unapproved s ≡ true
    → is_legal task_transitions s ts ≡ true
    → is_unapproved (last_status s ts) ≡ false
    → includes ts TaskStatus.approved ≡ true
unapproved_history s [] h legal after = cc
unapproved_history s (t ∷ ts) h legal after =
    ground (arith, unapproved_step s t, unapproved_history t ts)

-- A task whose pull request was opened, failed or was resolved has been approved: every legal
-- history from `CREATED` to one of these statuses goes through `APPROVED`.
pub delivery_needs_approval :
    (ts : List TaskStatus)
    → is_legal task_transitions TaskStatus.created ts ≡ true
    → includes
        (TaskStatus.pr_created ∷ TaskStatus.pr_failed ∷ TaskStatus.resolved ∷ [])
        (last_status TaskStatus.created ts)
      ≡ true
    → includes ts TaskStatus.approved ≡ true
delivery_needs_approval ts legal delivered =
    unapproved_history TaskStatus.created ts refl legal
      (delivered_not_unapproved (last_status TaskStatus.created ts) delivered)

unverified_history :
    (s : RunStatus) (ts : List RunStatus)
    → is_unverified s ≡ true
    → is_legal run_transitions s ts ≡ true
    → is_unverified (last_status s ts) ≡ false
    → includes ts RunStatus.verifying ≡ true
unverified_history s [] h legal after = cc
unverified_history s (t ∷ ts) h legal after =
    ground (arith, unverified_step s t, unverified_history t ts)

-- A run succeeds only through verification: every legal history from `PENDING` that ends in
-- `SUCCEEDED` goes through `VERIFYING`.
pub success_needs_verification :
    (ts : List RunStatus)
    → is_legal run_transitions RunStatus.pending ts ≡ true
    → last_status RunStatus.pending ts ≡ RunStatus.succeeded
    → includes ts RunStatus.verifying ≡ true
success_needs_verification ts legal done =
    unverified_history RunStatus.pending ts refl legal (ap is_unverified done)

includes-empty :
    {S : Type 0} ⦃e : Enum S⦄ (xs : List S) (t : S) → length xs == 0 ≡ true → includes xs t ≡ false
includes-empty [] t h = refl
includes-empty (x ∷ xs) t h = ground arith

module _ {S : Type 0} ⦃e : Enum S⦄ (table : S → List S) where
  -- In every table, a status that is terminal is left by no history.
  is_terminal-final :
      (s : S) (ts : List S) → is_terminal table s ≡ true → is_legal table s ts ≡ true → ts ≡ []
  unfolding is_terminal can_transition
  is_terminal-final s [] h legal = refl
  is_terminal-final s (t ∷ ts) h legal = ground (arith, includes-empty (table s) t)

-- A run that has not ended can be cancelled, from every status; and so can a task, unless its pull
-- request stands open.
cancellable :
    (s : RunStatus) (t : TaskStatus)
    → (can_transition run_transitions s RunStatus.cancelled ≡ not (is_terminal run_transitions s))
      × (can_transition task_transitions t TaskStatus.cancelled
          ≡ not (is_terminal task_transitions t || t === TaskStatus.pr_created))
unfolding can_transition is_terminal run_transitions task_transitions
cancellable s t = ground arith
