-- ===== src/Flow.antt =====
-- web/src/h2/flow.ts: `SendWindow`, one direction of one flow-control window. A waiter is the number
-- of the promise that `waitPositive` returned; the operations that wake return what they resolved.
pub mod Laws
pub mod Runs
use grpc_bridge.Prelude.{
  ℕ, zero, suc, ◌+◌, ◌-◌, ◌*◌, ◌/◌, ◌%◌, ◌^◌, ◌≤◌, ◌<◌, min, ◌≡◌, refl, sym, ap, ◌∙◌, ◌≢◌, inl, inr,
  Bool, true, false, not, ◌&&◌, ◌||◌, Option, none, some, List, [], ◌∷◌, ◌++◌, map, length, take,
  drop, get_elem?, replicate, All, ltb, leb, ◌==◌, if◌then◌else◌, length-append, length-take,
  length-drop, take-append_eq, drop-append_eq, take-append_le, drop-append_le, take_all, length_at,
  drop_past, append_assoc, append-nil, Bool-cases, Option-cases, arith,
}
use grpc_bridge.Prelude.Int.{ℤ, pos, negsuc, ◌+ℤ◌, ◌-ℤ◌, ltb_ℤ}

-- `next` numbers the promises; it is the model's own.
pub record SendWindow : Type 0 where
  pub available : ℤ
  pub waiters : List ℕ
  pub closed : Bool
  pub next : ℕ

abbrev pub send_window : ℤ → SendWindow
send_window initial = record { available = initial; waiters = []; closed = false; next = 0 }

-- `wake()`: all waiters, oldest first, and none left.
unfoldable pub wake : SendWindow → SendWindow × List ℕ
wake w = (record w { waiters = [] }, w.waiters)

-- `this.available > 0`.
abbrev pub is_positive : SendWindow → Bool
is_positive w = ltb_ℤ (pos 0) w.available

unfoldable pub wake_if_positive : SendWindow → SendWindow × List ℕ
unfolding wake
wake_if_positive w = if is_positive w then wake w else (w, [])

-- `update(increment)`.
unfoldable pub update : SendWindow → ℕ → SendWindow × List ℕ
unfolding wake_if_positive
update w increment = wake_if_positive (record w { available = w.available +ℤ pos increment })

-- `adjust(delta)`: the delta may be negative.
unfoldable pub adjust : SendWindow → ℤ → SendWindow × List ℕ
unfolding wake_if_positive
adjust w delta = wake_if_positive (record w { available = w.available +ℤ delta })

unfoldable pub consume : SendWindow → ℕ → SendWindow
consume w n = record w { available = w.available -ℤ pos n }

-- `waitPositive()`: `none` is a promise that is resolved already, `some` one that is parked.
unfoldable pub wait_positive : SendWindow → SendWindow × Option ℕ
wait_positive w =
    if is_positive w || w.closed
    then (w, none)
    else (record w { waiters = w.waiters ++ (w.next ∷ []); next = suc w.next }, some w.next)

unfoldable pub close : SendWindow → SendWindow × List ℕ
unfolding wake
close w = wake (record w { closed = true })

-- One call from outside.
pub data Operation : Type 0 where
  updates : ℕ → Operation
  adjusts : ℤ → Operation
  consumes : ℕ → Operation
  waits closes : Operation

-- The window, and the promises that the call resolved.
unfoldable pub apply : SendWindow → Operation → SendWindow × List ℕ
unfolding update adjust consume wait_positive close
apply w (updates n) = update w n
apply w (adjusts d) = adjust w d
apply w (consumes n) = (consume w n, [])
apply w waits = ((wait_positive w).0, [])
apply w closes = close w

-- A sequence of calls, and all promises that they resolved, in order.
unfoldable pub run : SendWindow → List Operation → SendWindow × List ℕ
run w [] = (w, [])
run w (o ∷ os) =
    let (w1, resolved) = apply w o in let (w2, more) = run w1 os in (w2, resolved ++ more)
