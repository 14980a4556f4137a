-- ===== src/Run/Renewal.antt =====
-- What a heartbeat promises: the monitor takes no attempt whose lease has been renewed in time.
use agent_reliability_platfo.Base.{
  ℕ, ◌+◌, ◌<◌, ◌≡◌, refl, false, some, List, arith, Option-cases, inl, inr,
}
use agent_reliability_platfo.Store.Table.{find, find-key, find-modify}
use agent_reliability_platfo.Store.Rows.{Db}
use agent_reliability_platfo.Store.Tx.{
  ok, commit, pure, ◌>>=◌, ◌>>◌, gets, or_raise, raise_if, alter,
}
use agent_reliability_platfo.Store.Queries.{run_key, attempt_key, find_attempt, update_attempt}
use agent_reliability_platfo.Run.Commands.{Fixture}
use agent_reliability_platfo.Run.Claim.{heartbeat}
use agent_reliability_platfo.Run.Expiry.{is_expired, expire_tx, expire_read, handle_lease_expired}

-- An attempt that is not expired is left alone, whatever the monitor had read.
pub handle_lease_expired-unexpired :
    (seen : Db) (fixtures : List Fixture) (id now : ℕ) (db : Db)
    → is_expired now (find attempt_key id db.attempts) ≡ false
    → commit (handle_lease_expired seen fixtures id now) db ≡ db
unfolding commit handle_lease_expired expire_read expire_tx gets or_raise pure ◌>>=◌
handle_lease_expired-unexpired seen fixtures id now db fresh =
    elim (Option-cases (find attempt_key id seen.attempts)) [
      | inl missing ↦ ground arith
      | inr (a, found) ↦ elim (Option-cases (find run_key a.run_id seen.runs)) [
        | inl missing ↦ ground arith
        | inr (r, run_found) ↦ ground (arith, find-key attempt_key id seen.attempts a found)
      ]
    ]

-- After a heartbeat at `now` is granted, the monitor's transaction for this attempt changes nothing until
-- `now + ttl`, also where the monitor had read the lease before it was renewed.
pub heartbeat-keeps_lease :
    (seen : Db) (fixtures : List Fixture) (id ttl now later granted : ℕ) (db db' : Db)
    → heartbeat id ttl now db ≡ ok granted db'
    → later < now + ttl
    → commit (handle_lease_expired seen fixtures id later) db' ≡ db'
unfolding heartbeat find_attempt update_attempt gets or_raise raise_if alter pure ◌>>=◌ ◌>>◌
heartbeat-keeps_lease seen fixtures id ttl now later granted db db' renewed early =
    elim (Option-cases (find attempt_key id db.attempts)) [
      | inl missing ↦ ground arith
      | inr (a, found) ↦ ground (
        arith,
        find-modify attempt_key id id (λ a. record a { lease_expires_at = some (now + ttl) })
            db.attempts (λ q. refl),
        handle_lease_expired-unexpired seen fixtures id later db',
      )
    ]
