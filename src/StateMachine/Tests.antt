-- ===== src/StateMachine/Tests.antt =====
-- Tests of the transition tables, and the theorems at concrete histories.
use agent_reliability_platfo.Base.{true, ◌≡◌, refl, List, [], ◌∷◌}
use agent_reliability_platfo.Shared.Enums.{
  TaskStatus, RunStatus, AttemptStatus, includes, task_status_enum, run_status_enum,
  attempt_status_enum,
}
use agent_reliability_platfo.StateMachine.{
  Entity, invalid_transition, task_transitions, run_transitions, attempt_transitions, is_terminal,
  can_transition, assert_transition,
}
use agent_reliability_platfo.StateMachine.Graph.{
  delivery_needs_approval, is_legal, success_needs_verification,
}

-- A succeeded run does not go back.
refused :
    assert_transition run_transitions Entity.run RunStatus.succeeded RunStatus.running
    ≡ invalid_transition Entity.run RunStatus.succeeded RunStatus.running
unfolding assert_transition run_transitions
refused = refl

abbrev delivered : List TaskStatus
delivered =
    TaskStatus.queued ∷ TaskStatus.running ∷ TaskStatus.awaiting_approval ∷ TaskStatus.approved
    ∷ TaskStatus.pr_created ∷ []

is_legal-delivered : is_legal task_transitions TaskStatus.created delivered ≡ true
unfolding can_transition task_transitions
is_legal-delivered = refl

delivery_needs_approval_example : includes delivered TaskStatus.approved ≡ true
delivery_needs_approval_example = delivery_needs_approval delivered is_legal-delivered refl

abbrev resumed : List RunStatus
resumed =
    RunStatus.dispatched ∷ RunStatus.running ∷ RunStatus.interrupted ∷ RunStatus.recovering
    ∷ RunStatus.dispatched ∷ RunStatus.running ∷ RunStatus.verifying ∷ RunStatus.succeeded ∷ []

is_legal-resumed : is_legal run_transitions RunStatus.pending resumed ≡ true
unfolding can_transition run_transitions
is_legal-resumed = refl

success_needs_verification_example : includes resumed RunStatus.verifying ≡ true
success_needs_verification_example = success_needs_verification resumed is_legal-resumed refl

crashed_is_terminal : is_terminal attempt_transitions AttemptStatus.crashed ≡ true
unfolding is_terminal attempt_transitions
crashed_is_terminal = refl
