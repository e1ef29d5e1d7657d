-- ===== src/Connection/Life.antt =====
-- What a connection promises about its end: it writes and drains until it is closed, and what closed
-- it first stays.
use mathlib.Core.Path.{subst}
use grpc_bridge.Prelude.{
  ◌≡◌, refl, sym, ap, ◌∙◌, Bool, true, false, Option, none, some, List, [], ◌∷◌, ◌++◌, if_case,
  arith,
}
use grpc_bridge.Text.{Text}
use grpc_bridge.Errors.{Error}
use grpc_bridge.Frames.Types.{Frame}
use grpc_bridge.Connection.State.{H2Connection, send}
use grpc_bridge.Connection.Events.{Event, happen_all}
use grpc_bridge.Connection.Walk.{View, Kept}
use grpc_bridge.Connection.Walk.Bytes.{on_bytes-Kept}
use grpc_bridge.Connection.Walk.Calls.{happen_all-Kept}

-- The abstract connection: its phase, and the frames written.
pub data Phase : Type 0 where
  running draining : Phase
  over : Option Error → Phase

pub record Life : Type 0 where
  pub phase : Phase
  pub output : List Frame

abbrev pub is_over : Phase → Bool
is_over running = false
is_over draining = false
is_over (over e) = true

-- What it may do; nothing once it is over.
pub data LifeStep (a b : Life) : Type 0 where
  writes :
      (f : Frame)
      → is_over a.phase ≡ false
      → b ≡ record a { output = a.output ++ f ∷ [] }
      → LifeStep a b
  drains : a.phase ≡ running → b ≡ record a { phase = draining } → LifeStep a b
  ends :
      (e : Error) → is_over a.phase ≡ false → b ≡ record a { phase = over (some e) } → LifeStep a b

pub data LifeReach (a : Life) : Life → Type 0 where
  stays : LifeReach a a
  goes : {m b : Life} → LifeReach a m → LifeStep m b → LifeReach a b

abbrev phase_of : Bool → Option Error → Bool → Phase
phase_of true e goaway = over e
phase_of false e true = draining
phase_of false e false = running

abbrev life_of_view : View → Life
life_of_view (closed, error, goaway, sent, pending) = record {
  phase = phase_of closed error goaway;
  output = sent;
}

-- What the abstract connection sees of the code's.
abbrev pub life : H2Connection → Life
life c = record { phase = phase_of c.closed_flag c.close_error c.goaway_received; output = c.sent }

phase_of_live :
    (closed : Bool) (e : Option Error) (goaway : Bool)
    → closed ≡ false
    → is_over (phase_of closed e goaway) ≡ false
phase_of_live true e goaway h = absurd (ground arith)
phase_of_live false e true h = refl
phase_of_live false e false h = refl

module _ (a : Life) where
  abbrev Reached : H2Connection → Type 0
  Reached c = LifeReach a (life c)

  drained :
      (closed : Bool) (e : Option Error) (goaway : Bool) (sent : List Frame)
      → LifeReach a (record { phase = phase_of closed e goaway; output = sent })
      → LifeReach a (record { phase = phase_of closed e true; output = sent })
  drained true e goaway sent h = h
  drained false e true sent h = h
  drained false e false sent h = goes h (drains refl refl)

  life-Kept : Kept Reached
  unfolding send
  life-Kept = record {
    same = λ c c' e h. subst (LifeReach a) (ap life_of_view e) h;
    sends = λ c f h.
        if_case Reached c.closed_flag c _ (λ e. h)
          (λ e.
            goes h (writes f (phase_of_live c.closed_flag c.close_error c.goaway_received e) refl));
    drains = λ c h. drained c.closed_flag c.close_error c.goaway_received c.sent h;
    closes = λ e c live h.
        goes h (ends e (phase_of_live c.closed_flag c.close_error c.goaway_received live) refl);
  }

-- The connection does what the abstract connection may do: through any events, from any state, it
-- writes frames and goes on to drain while it is not closed, closes once and with one error, and
-- writes nothing and keeps that error from then on.
pub happen_all-LifeReach :
    (inherited : Text → Option Text) (to_lower to_upper : Text → Text) (events : List Event)
    (c : H2Connection)
    → LifeReach (life c) (life (happen_all inherited to_lower to_upper events c))
happen_all-LifeReach inherited to_lower to_upper events c =
    happen_all-Kept (Reached (life c)) (life-Kept (life c)) inherited to_lower to_upper
      (on_bytes-Kept (Reached (life c)) (life-Kept (life c)) inherited (λ c1 o h. h)) events c stays

false-true : false ≡ true → ⊥
false-true e = ground arith

-- Nothing happens to the abstract connection once it is over.
over_stays : {a b : Life} → is_over a.phase ≡ true → LifeReach a b → b ≡ a
over_stays h stays = refl
over_stays {a = a} h (goes r step) = step_over h (over_stays h r) step
  where
    step_over : {m b : Life} → is_over a.phase ≡ true → m ≡ a → LifeStep m b → b ≡ a
    step_over over_a e (writes f live e') =
        absurd (false-true (sym live ∙ ap (λ (l : Life). is_over l.phase) e ∙ over_a))
    step_over over_a e (drains live e') =
        absurd (false-true (sym (ap is_over live) ∙ ap (λ (l : Life). is_over l.phase) e ∙ over_a))
    step_over over_a e (ends error live e') =
        absurd (false-true (sym live ∙ ap (λ (l : Life). is_over l.phase) e ∙ over_a))

abbrev error_of : Phase → Option Error
error_of (over e) = e
error_of _ = none

is_over-phase_of :
    (closed : Bool) (e : Option Error) (goaway : Bool) → is_over (phase_of closed e goaway) ≡ closed
is_over-phase_of true e goaway = refl
is_over-phase_of false e true = refl
is_over-phase_of false e false = refl

error_of-phase_of :
    (closed : Bool) (e : Option Error) (goaway : Bool)
    → closed ≡ true
    → error_of (phase_of closed e goaway) ≡ e
error_of-phase_of true e goaway h = refl
error_of-phase_of false e goaway h = absurd (ground arith)

-- Once the connection is closed, no event writes a frame, opens it again or changes the error that
-- closed it.
pub happen_all_closed :
    (inherited : Text → Option Text) (to_lower to_upper : Text → Text) (events : List Event)
    (c : H2Connection)
    → c.closed_flag ≡ true
    → ((happen_all inherited to_lower to_upper events c).sent ≡ c.sent)
      × ((happen_all inherited to_lower to_upper events c).closed_flag ≡ true)
      × ((happen_all inherited to_lower to_upper events c).close_error ≡ c.close_error)
happen_all_closed inherited to_lower to_upper events c h =
    let c1 = happen_all inherited to_lower to_upper events c in
    let over_c = is_over-phase_of c.closed_flag c.close_error c.goaway_received ∙ h in
    let same : life c1 ≡ life c =
      over_stays over_c (happen_all-LifeReach inherited to_lower to_upper events c) in
    let closed1 : c1.closed_flag ≡ true =
      sym (is_over-phase_of c1.closed_flag c1.close_error c1.goaway_received)
      ∙ ap (λ (l : Life). is_over l.phase) same
      ∙ over_c in
    (
      ap (λ (l : Life). l.output) same,
      closed1,
      sym (error_of-phase_of c1.closed_flag c1.close_error c1.goaway_received closed1)
          ∙ ap (λ (l : Life). error_of l.phase) same
          ∙ error_of-phase_of c.closed_flag c.close_error c.goaway_received h,
    )
