-- ===== src/Auth/Tests.antt =====
-- Tests of the guard, and the theorem at a concrete request.
use Prim.Native.String.{String}
use agent_reliability_platfo.Base.{◌≡◌, ◌↔◌, ◌⊎◌, refl, false, none, some, [], ◌∷◌}
use agent_reliability_platfo.Auth.{
  Request, Access, can_activate, check_token, token_matches, is_open, is_local_origin, session_of,
}
use agent_reliability_platfo.Auth.Admitted.{IsOpen, IsTrusted, IsPresented, can_activate-granted}

abbrev browser : Request
browser = record {
  path = "/api/runs/3";
  origin = some "http://localhost:3000";
  authorization = none;
  cookies = "theme=dark" ∷ "arp_session=secret" ∷ [];
}

abbrev worker : String → String
worker access = "worker"

browser_is_granted :
    can_activate worker "secret" "http://localhost:3000" false browser ≡ Access.granted
unfolding can_activate check_token token_matches is_open is_local_origin session_of
browser_is_granted = refl

-- The access token does not open the workers' paths.
internal_is_closed :
    can_activate worker "secret" "http://localhost:3000" false
      (record browser { path = "/internal/claim" })
    ≡ Access.unauthorized
unfolding can_activate check_token token_matches is_open is_local_origin session_of
internal_is_closed = refl

can_activate-granted_example :
    ((can_activate worker "secret" "http://localhost:3000" false browser ≡ Access.granted) ↔ (
      IsOpen false "/api/runs/3"
      ⊎ (IsTrusted "http://localhost:3000" (some "http://localhost:3000")
          × IsPresented false worker "secret" browser)))
    × ((can_activate worker "secret" "http://localhost:3000" false browser ≡ Access.forbidden) ↔ (
        ¬ (
          IsOpen false "/api/runs/3"
          ⊎ IsTrusted "http://localhost:3000" (some "http://localhost:3000"))))
can_activate-granted_example =
    can_activate-granted worker "secret" "http://localhost:3000" false browser
