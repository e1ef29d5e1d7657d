-- ===== src/Recovery/Sessions/Events.antt =====
-- web/src/recovery.ts: each event keeps track of the sessions, and what closing comes to.
use mathlib.Core.Path.{subst}
use grpc_bridge.Prelude.{
  ℕ, ◌<◌, ◌≡◌, inl, inr, Bool, true, ◌||◌, Option, List, [], ◌∷◌, ◌++◌, if_case, option_case,
  Bool-cases, arith,
}
use grpc_bridge.Recovery.State.{RecoveringConnection, recovering, Reason, go_on, take_call, select}
use grpc_bridge.Recovery.Steps.{
  lost, remove_session, session_closes, Happening, take_place, take_all, starts, timer_goes_off,
  dialed, dial_failed, session_closed, session_draining, selects, call_aborts, call_expires,
  call_goes_on, closes_channel, close_settles,
}
use grpc_bridge.Recovery.Rest.{Rests}
use grpc_bridge.Recovery.Rest.Events.{take_place-Rests, recovering-Rests}
use grpc_bridge.Recovery.Sessions.{is_in, is_in-append, is_in-remove_session, in_use, Known, NoLeak}
use grpc_bridge.Recovery.Sessions.Changes.{
  close_channel-NoLeak, start-NoLeak, timer_fires-NoLeak, session_drains-NoLeak,
  dial_succeeds-NoLeak, dial_fails-NoLeak, lost-NoLeak, close_ends-NoLeak,
}

more_over : (id : ℕ) (c : RecoveringConnection) → NoLeak [] c → NoLeak (id ∷ []) c
more_over id c h k less =
    let old =
      subst
        (λ (b : Bool).
          (in_use k c.stopped c.session c.draining || (b || is_in k c.told_to_close)) ≡ true)
        (is_in-append k c.ended []) (h k less) in
    rw (is_in-append k c.ended (id ∷ [])) (ground arith)

-- A session that has ended.
over_Known :
    (id : ℕ) (stopped : Bool) (session : Option ℕ) (draining ended told : List ℕ) (next : ℕ)
    → Known (id ∷ []) stopped session draining ended told next
    → Known [] stopped session (remove_session id draining) (ended ++ id ∷ []) told next
over_Known id stopped session draining ended told next h k less =
    let old =
      subst (λ (b : Bool). (in_use k stopped session draining || (b || is_in k told)) ≡ true)
        (is_in-append k ended (id ∷ [])) (h k less) in
    rw (is_in-append k (ended ++ id ∷ []) [], is_in-append k ended (id ∷ []))
      (elim (Bool-cases (is_in k draining)) [
        | inl e ↦ let left = is_in-remove_session k id draining e in ground arith
        | inr e ↦ ground arith
      ])

session_closes-NoLeak :
    (closes : Bool) (random id : ℕ) (reason : Reason) (c : RecoveringConnection)
    → NoLeak [] c
    → NoLeak [] (session_closes closes random id reason c)
unfolding session_closes
session_closes-NoLeak closes random id reason c h =
    let c1 = lost closes random id reason c in
    over_Known id c1.stopped c1.session c1.draining c1.ended c1.told_to_close c1.next_session
      (lost-NoLeak (id ∷ []) closes random id reason c (ground arith) (more_over id c h))

take_place-NoLeak :
    (h : Happening) (c : RecoveringConnection) → Rests c → NoLeak [] c → NoLeak [] (take_place h c)
unfolding take_place select go_on
take_place-NoLeak (starts closes) c rests h = start-NoLeak [] closes c h
take_place-NoLeak (timer_goes_off closes) c rests h = timer_fires-NoLeak [] closes c h
take_place-NoLeak (dialed closes) c rests h = dial_succeeds-NoLeak [] closes c rests h
take_place-NoLeak (dial_failed closes random) c rests h = dial_fails-NoLeak [] closes random c h
take_place-NoLeak (session_closed closes random id reason) c rests h =
    session_closes-NoLeak closes random id reason c h
take_place-NoLeak (session_draining closes id) c rests h = session_drains-NoLeak [] closes id c h
take_place-NoLeak (selects call aborted) c rests h =
    if_case (NoLeak []) aborted _ _ (λ e. h) (λ e. h)
take_place-NoLeak (call_aborts ticket) c rests h = h
take_place-NoLeak (call_expires ticket) c rests h = h
take_place-NoLeak (call_goes_on ticket now aborted) c rests h =
    option_case (NoLeak []) (take_call ticket c.calls.passed) _ _ (λ e. h) (λ (call, left) e. h)
take_place-NoLeak closes_channel c rests h = close_channel-NoLeak [] c h
take_place-NoLeak (close_settles thrown) c rests h = close_ends-NoLeak [] thrown c h

take_all-NoLeak :
    (hs : List Happening) (c : RecoveringConnection)
    → Rests c
    → NoLeak [] c
    → NoLeak [] (take_all hs c)
unfolding take_all
take_all-NoLeak [] c rests h = h
take_all-NoLeak (x ∷ hs) c rests h =
    take_all-NoLeak hs (take_place x c) (take_place-Rests c rests x) (take_place-NoLeak x c rests h)

-- No session is left behind. From the constructor on, whatever happens and in whatever order: once the
-- channel is stopped, every session that was ever dialed, also by a dial that was under way then, has
-- ended by itself or was told to close.
pub take_all_closed :
    (hs : List Happening) (id : ℕ)
    → (take_all hs recovering).stopped ≡ true
    → id < (take_all hs recovering).next_session
    → (is_in id (take_all hs recovering).ended || is_in id (take_all hs recovering).told_to_close)
      ≡ true
take_all_closed hs id stopped less =
    let c = take_all hs recovering in
    let known =
      take_all-NoLeak hs recovering recovering-Rests
        (λ k none_yet. absurd (omega (arith, none_yet))) id less in
    let plain =
      subst
        (λ (b : Bool).
          (in_use id c.stopped c.session c.draining || (b || is_in id c.told_to_close)) ≡ true)
        (is_in-append id c.ended []) known in
    ground arith
