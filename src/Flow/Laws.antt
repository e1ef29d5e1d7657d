-- ===== src/Flow/Laws.antt =====
-- What the send window promises its clients.
use grpc_bridge.Prelude.{
  ℕ, ◌≡◌, refl, sym, ap, ◌∙◌, ◌⊎◌, inl, inr, false, ◌||◌, List, [], ◌∷◌, ◌++◌, if◌then◌else◌,
  append_assoc, append-nil, Bool-cases, arith,
}
use grpc_bridge.Prelude.Int.{ℤ, pos, ◌+ℤ◌, ◌-ℤ◌, +ℤ_assoc}
use grpc_bridge.Flow.{
  SendWindow, send_window, is_positive, wake_if_positive, consume, wait_positive, Operation,
  updates, adjusts, consumes, waits, closes, apply, run,
}

-- Nobody is parked on a window that has capacity or is closed.
abbrev pub NoLostWaiter : SendWindow → Type 0
NoLostWaiter w = (w.waiters ≡ []) ⊎ ((is_positive w ≡ false) × (w.closed ≡ false))

pub send_window-NoLostWaiter : (n : ℤ) → NoLostWaiter (send_window n)
unfolding send_window
send_window-NoLostWaiter n = inl refl

wake_if_positive-NoLostWaiter :
    (w : SendWindow) → (w.waiters ≡ []) ⊎ (w.closed ≡ false) → NoLostWaiter (wake_if_positive w).0
unfolding wake_if_positive
wake_if_positive-NoLostWaiter w c = elim (Bool-cases (is_positive w)) [
  | inl p ↦ rw p (inl refl)
  | inr p ↦ rw p (kept p c)
]
  where
    kept : is_positive w ≡ false → (w.waiters ≡ []) ⊎ (w.closed ≡ false) → NoLostWaiter w
    kept p (inl none_left) = inl none_left
    kept p (inr opened) = inr (p, opened)

weaken : (w : SendWindow) → NoLostWaiter w → (w.waiters ≡ []) ⊎ (w.closed ≡ false)
weaken w (inl none_left) = inl none_left
weaken w (inr (p, opened)) = inr opened

consume-NoLostWaiter : (w : SendWindow) (n : ℕ) → NoLostWaiter w → NoLostWaiter (consume w n)
unfolding consume ◌-ℤ◌
consume-NoLostWaiter w n (inl none_left) = inl none_left
consume-NoLostWaiter w n (inr (p, opened)) = inr (ground arith, opened)

wait_positive-NoLostWaiter : (w : SendWindow) → NoLostWaiter w → NoLostWaiter (wait_positive w).0
unfolding wait_positive
wait_positive-NoLostWaiter w inv = elim (Bool-cases (is_positive w || w.closed)) [
  | inl served ↦ rw served inv
  | inr parks ↦ rw parks (inr (ground arith, ground arith))
]

-- No call leaves a waiter parked on a window with capacity, or on a closed one.
pub apply-NoLostWaiter :
    (w : SendWindow) (o : Operation) → NoLostWaiter w → NoLostWaiter (apply w o).0
unfolding apply
apply-NoLostWaiter w (updates n) inv = wake_if_positive-NoLostWaiter _ (weaken w inv)
apply-NoLostWaiter w (adjusts d) inv = wake_if_positive-NoLostWaiter _ (weaken w inv)
apply-NoLostWaiter w (consumes n) inv = consume-NoLostWaiter w n inv
apply-NoLostWaiter w waits inv = wait_positive-NoLostWaiter w inv
apply-NoLostWaiter w closes inv = inl refl

-- A window on which nobody waits in vain stays one through any sequence of calls: a waiter is
-- parked only while there is no capacity and the window is open.
pub run-NoLostWaiter :
    (w : SendWindow) (os : List Operation) → NoLostWaiter w → NoLostWaiter (run w os).0
unfolding run
run-NoLostWaiter w [] inv = inv
run-NoLostWaiter w (o ∷ os) inv = run-NoLostWaiter (apply w o).0 os (apply-NoLostWaiter w o inv)

-- The promises that the calls park, by number: none while there is capacity or after the close.
abbrev pub parked_by : SendWindow → Operation → List ℕ
parked_by w waits = if is_positive w || w.closed then [] else w.next ∷ []
parked_by w _ = []

pub parked : SendWindow → List Operation → List ℕ
parked w [] = []
parked w (o ∷ os) = parked_by w o ++ parked (apply w o).0 os

wake_if_positive_order :
    (w : SendWindow) → (wake_if_positive w).1 ++ (wake_if_positive w).0.waiters ≡ w.waiters
unfolding wake_if_positive
wake_if_positive_order w = elim (Bool-cases (is_positive w)) [
  | inl p ↦ rw p (append-nil w.waiters)
  | inr p ↦ rw p
]

wait_positive_order :
    (w : SendWindow) → (wait_positive w).0.waiters ≡ w.waiters ++ parked_by w waits
unfolding wait_positive
wait_positive_order w = elim (Bool-cases (is_positive w || w.closed)) [
  | inl p ↦ rw p (sym (append-nil w.waiters))
  | inr p ↦ rw p
]

apply_order :
    (w : SendWindow) (o : Operation)
    → (apply w o).1 ++ (apply w o).0.waiters ≡ w.waiters ++ parked_by w o
unfolding apply
apply_order w (updates n) =
    wake_if_positive_order (record w { available = w.available +ℤ pos n })
    ∙ sym (append-nil w.waiters)
apply_order w (adjusts d) =
    wake_if_positive_order (record w { available = w.available +ℤ d }) ∙ sym (append-nil w.waiters)
apply_order w (consumes n) = sym (append-nil w.waiters)
apply_order w waits = wait_positive_order w
apply_order w closes = refl

-- Every promise that is ever parked is resolved once, in the order of parking, or is still parked:
-- none is lost, none is resolved twice and none overtakes another.
pub run_order :
    (w : SendWindow) (os : List Operation)
    → (run w os).1 ++ (run w os).0.waiters ≡ w.waiters ++ parked w os
unfolding run parked
run_order w [] = sym (append-nil w.waiters)
run_order w (o ∷ os) =
    let w1 = (apply w o).0 in
    append_assoc (apply w o).1 (run w1 os).1 (run w1 os).0.waiters
    ∙ ap (◌++◌ (apply w o).1) (run_order w1 os)
    ∙ sym (append_assoc (apply w o).1 w1.waiters (parked w1 os))
    ∙ ap (λ (x : List ℕ). x ++ parked w1 os) (apply_order w o)
    ∙ append_assoc w.waiters (parked_by w o) (parked w1 os)

-- What a call changes of the capacity.
abbrev pub change : Operation → ℤ
change (updates n) = pos n
change (adjusts d) = d
change (consumes n) = pos 0 -ℤ pos n
change _ = pos 0

abbrev pub total_change : List Operation → ℤ
total_change [] = pos 0
total_change (o ∷ os) = change o +ℤ total_change os

apply_balance : (w : SendWindow) (o : Operation) → (apply w o).0.available ≡ w.available +ℤ change o
unfolding apply
apply_balance w (updates n) = ground arith
apply_balance w (adjusts d) = ground arith
apply_balance w (consumes n) = unfold ◌+ℤ◌ ◌-ℤ◌ in ground arith
apply_balance w waits = unfold ◌+ℤ◌ in ground arith
apply_balance w closes = unfold ◌+ℤ◌ in ground arith

-- The capacity is what it was at first, plus what was granted and adjusted, less what was consumed;
-- it is never clamped, so it may be negative.
pub run_balance :
    (w : SendWindow) (os : List Operation) → (run w os).0.available ≡ w.available +ℤ total_change os
unfolding run
run_balance w [] = unfold ◌+ℤ◌ in ground arith
run_balance w (o ∷ os) =
    run_balance (apply w o).0 os
    ∙ ap (λ (x : ℤ). x +ℤ total_change os) (apply_balance w o)
    ∙ +ℤ_assoc w.available (change o) (total_change os)
