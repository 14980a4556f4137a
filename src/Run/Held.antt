-- ===== src/Run/Held.antt =====
-- What the worker's requests promise: they reach the services only with the token of the attempt's lease.
use agent_reliability_platfo.Base.{ℕ, ◌≡◌, refl, true, Option, arith}
use agent_reliability_platfo.Store.Rows.{Attempt, Run, Db}
use agent_reliability_platfo.Store.Tx.{Result, ok, err, ◌>>=◌, ◌>>◌}
use agent_reliability_platfo.Run.Lease.{IsLeased, lease-IsLeased}
use agent_reliability_platfo.Run.Worker.{lease}
use agent_reliability_platfo.Run.Requests.{lease_of, request_heartbeat}

-- A heartbeat that is granted: the request presented the token of the attempt, which was running and in its
-- time on a run that executed, at the look at its lease.
pub request_heartbeat-IsLeased :
    (seen : Db) (id : ℕ) (token : Option ℕ) (ttl now : ℕ) (db db' : Db) (granted : ℕ)
    → request_heartbeat seen id token ttl now db ≡ ok granted db'
    → (held : Attempt × Run) × IsLeased id token true now seen held
unfolding request_heartbeat lease_of ◌>>=◌ ◌>>◌
request_heartbeat-IsLeased seen id token ttl now db db' granted done =
    look (lease id token true now seen) refl
  where
    look :
        (r : Result (Attempt × Run))
        → lease id token true now seen ≡ r
        → (held : Attempt × Run) × IsLeased id token true now seen held
    look (ok held db'') q = (held, (lease-IsLeased id token true now seen db'' held q).1)
    look (err e) q = ground arith
