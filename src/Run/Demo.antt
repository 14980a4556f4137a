-- ===== src/Run/Demo.antt =====
-- apps/control-plane/src/modules/run/public-demo.ts: the limits of the public demonstration.
use Prim.Native.String.{String}
use text.Mathlib.Text.{◌==◌ as text_eq}
use agent_reliability_platfo.Base.{ℕ, Bool, true, false, not, ◌||◌, Option, none, some, ltb, leb}
use agent_reliability_platfo.Shared.Enums.{AgentKind}
use agent_reliability_platfo.Store.Tx.{Tx, ◌>>◌, raise_if, bad_request, conflict}

abbrev pub is_above : Option ℕ → ℕ → Bool
is_above none limit = false
is_above (some n) limit = ltb limit n

abbrev pub is_self : AgentKind → Bool
is_self AgentKind.self_langgraph = true
is_self AgentKind.mini_swe = false

unfoldable pub assert_demo_input :
    String → AgentKind → Option ℕ → Option ℕ → Option ℕ → Tx (Unit {0})
assert_demo_input fixture_id agent_kind tokens seconds turns =
    raise_if
      (not (text_eq fixture_id "py-logic-001" || text_eq fixture_id "ts-logic-001")
        || not (is_self agent_kind)
        || is_above tokens 10_000
        || is_above seconds 180
        || is_above turns 10)
      (bad_request "public demo")

unfoldable pub assert_demo_capacity : ℕ → ℕ → Tx (Unit {0})
assert_demo_capacity active today = do
  raise_if (ltb 0 active) (conflict "demo task running")
  raise_if (leb 100 today) (conflict "demo quota used up")
