-- ===== src/Oms/Runs.antt =====
-- Histories of oms/src/lib.rs: any sequence of intents and execution reports from a new OMS.
use orderbook_replay_lab.Base.{
  ℕ, ◌+◌, ◌≤◌, ◌<◌, ◌≡◌, List, [], ◌∷◌, arith, length, u64_mod, add_u64, nat_eq, text_eq,
}
use orderbook_replay_lab.Trading.{ExecutionReport, Intent}
use orderbook_replay_lab.Base.Assoc.{count}
use orderbook_replay_lab.Oms.Defs.{Oms, new, apply_intent, on_execution_report, open_orders}
use orderbook_replay_lab.Oms.Invariant.{
  IsValid, is_open, new-IsValid, apply_intent-IsValid, on_execution_report-IsValid,
}

-- A call of the engine on the OMS.
pub data Call : Type 0 where
  intends : Intent → ℕ → Call
  reports : ExecutionReport → Call

unfoldable pub step : Oms → Call → Oms
step o (intends i ts) = (apply_intent o i ts).0
step o (reports r) = on_execution_report o r

unfoldable pub run : Oms → List Call → Oms
run o [] = o
run o (c ∷ cs) = run (step o c) cs

-- An intent takes one id at most, and a report none.
pub next_id-apply_intent :
    (o : Oms) (i : Intent) (ts : ℕ)
    → o.next_id + 1 < u64_mod
    → (apply_intent o i ts).0.next_id ≤ o.next_id + 1
unfolding apply_intent add_u64
next_id-apply_intent o i ts h = ground arith

pub next_id-report : (o : Oms) (r : ExecutionReport) → (on_execution_report o r).next_id ≡ o.next_id
unfolding on_execution_report
next_id-report o r = ground arith

next_id-step : (o : Oms) (c : Call) → o.next_id + 1 < u64_mod → (step o c).next_id ≤ o.next_id + 1
unfolding step
next_id-step o (intends i ts) h = next_id-apply_intent o i ts h
next_id-step o (reports r) h = omega (arith, next_id-report o r)

pub step-IsValid : (o : Oms) (c : Call) → o.next_id + 1 < u64_mod → IsValid o → IsValid (step o c)
unfolding step
step-IsValid o (intends i ts) h v = apply_intent-IsValid o i ts h v
step-IsValid o (reports r) h v = on_execution_report-IsValid o r (omega arith) v

pub run-IsValid :
    (o : Oms) (cs : List Call) → o.next_id + length cs < u64_mod → IsValid o → IsValid (run o cs)
unfolding run
run-IsValid o [] h v = v
run-IsValid o (c ∷ cs) h v =
    run-IsValid (step o c) cs (omega (arith, next_id-step o c)) (step-IsValid o c (omega arith) v)

-- After any history of fewer than 2 ^ 64 - 1 calls from a new OMS, the number of open orders that it
-- reports is the number of its orders whose state is not terminal.
pub open_orders-run :
    (cs : List Call)
    → 1 + length cs < u64_mod
    → open_orders (run new cs) ≡ count is_open (run new cs).orders
unfolding new
open_orders-run cs h = (run-IsValid new cs h new-IsValid).counted
