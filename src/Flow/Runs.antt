-- ===== src/Flow/Runs.antt =====
-- Runs of the send window on concrete calls.
use grpc_bridge.Prelude.{◌≡◌, refl, List, [], ◌∷◌, ◌++◌}
use grpc_bridge.Prelude.Int.{pos, negsuc, ◌+ℤ◌, ◌-ℤ◌}
use grpc_bridge.Flow.{
  send_window, Operation, updates, adjusts, consumes, waits, closes, wake, wake_if_positive, update,
  adjust, consume, wait_positive, close, apply, run,
}
use grpc_bridge.Flow.Laws.{
  NoLostWaiter, send_window-NoLostWaiter, run-NoLostWaiter, run_order, run_balance, parked,
  total_change,
}

-- The window runs dry, two writers wait, a lowered initial size takes it below zero, and the second
-- update wakes both.
abbrev calls : List Operation
calls = consumes 5 ∷ waits ∷ waits ∷ adjusts (negsuc 2) ∷ updates 2 ∷ updates 4 ∷ []

resolved : (run (send_window (pos 5)) calls).1 ≡ 0 ∷ 1 ∷ []
unfolding run apply update adjust consume wait_positive wake_if_positive wake send_window ◌+ℤ◌ ◌-ℤ◌
resolved = refl

closed_resolves : (run (send_window (pos 0)) (waits ∷ closes ∷ waits ∷ [])).1 ≡ 0 ∷ []
unfolding run apply close wait_positive wake send_window
closed_resolves = refl

run-NoLostWaiter_example : NoLostWaiter (run (send_window (pos 5)) calls).0
run-NoLostWaiter_example =
    run-NoLostWaiter (send_window (pos 5)) calls (send_window-NoLostWaiter (pos 5))

run_order_example :
    (run (send_window (pos 5)) calls).1 ++ (run (send_window (pos 5)) calls).0.waiters
    ≡ (send_window (pos 5)).waiters ++ parked (send_window (pos 5)) calls
run_order_example = run_order (send_window (pos 5)) calls

run_balance_example :
    (run (send_window (pos 5)) calls).0.available
    ≡ (send_window (pos 5)).available +ℤ total_change calls
run_balance_example = run_balance (send_window (pos 5)) calls
