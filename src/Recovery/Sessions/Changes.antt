-- ===== src/Recovery/Sessions/Changes.antt =====
-- web/src/recovery.ts: the changes of the channel keep track of the sessions.
use mathlib.Core.Path.{subst}
use grpc_bridge.Prelude.{
  ℕ, suc, ◌-◌, ◌≡◌, inl, inr, Bool, true, false, not, ◌||◌, Option, none, some, List, [], ◌∷◌, ◌++◌,
  ◌==◌, if_case, option_case, Bool-cases, arith,
}
use grpc_bridge.Recovery.State.{
  RecoveringConnection, ChannelState, Reason, connecting, open_state, transient_failure,
  error_reason, first_failure,
}
use grpc_bridge.Recovery.Steps.{
  tell, close_channel, emit, connect, retry, start, adopted, settle_initial, dial_succeeds,
  dial_fails, is_session, lost, session_drains, timer_fires, close_ends,
}
use grpc_bridge.Recovery.Rest.{Rests}
use grpc_bridge.Recovery.Rest.Events.{unused}
use grpc_bridge.Recovery.Sessions.{is_in, is_in-append, in_use, Known, NoLeak, closed_Known}

module _ (extra : List ℕ) where
  pub close_channel-NoLeak :
      (c : RecoveringConnection) → NoLeak extra c → NoLeak extra (close_channel c)
  unfolding close_channel tell
  close_channel-NoLeak c h =
      if_case (NoLeak extra) c.stopped c _ (λ e. h)
        (λ e. closed_Known extra c.session c.draining c.ended c.told_to_close c.next_session (
          subst
            (λ (b : Bool).
              Known extra b c.session c.draining c.ended c.told_to_close c.next_session)
            e h))

  emit-NoLeak :
      (closes : Bool) (state : ChannelState) (reason : Option Reason) (c : RecoveringConnection)
      → NoLeak extra c
      → NoLeak extra (emit closes state reason c)
  unfolding emit tell
  emit-NoLeak false state reason c h = h
  emit-NoLeak true state reason c h = close_channel-NoLeak (tell state reason c) h

  connect-NoLeak :
      (closes : Bool) (c : RecoveringConnection) → NoLeak extra c → NoLeak extra (connect closes c)
  unfolding connect
  connect-NoLeak closes c h =
      let h1 = emit-NoLeak closes connecting none c h in
      if_case (NoLeak extra) (emit closes connecting none c).stopped _ _ (λ e. h1) (λ e. h1)

  retry-NoLeak :
      (closes : Bool) (random : ℕ) (reason : Reason) (c : RecoveringConnection)
      → NoLeak extra c
      → NoLeak extra (retry closes random reason c)
  unfolding retry
  retry-NoLeak closes random reason c h =
      let h1 = emit-NoLeak closes transient_failure (some reason) c h in
      if_case (NoLeak extra) (emit closes transient_failure (some reason) c).stopped _ _ (λ e. h1)
        (λ e. h1)

  pub start-NoLeak :
      (closes : Bool) (c : RecoveringConnection) → NoLeak extra c → NoLeak extra (start closes c)
  unfolding start
  start-NoLeak closes c h =
      if_case (NoLeak extra) (not c.unstarted || c.stopped) _ _ (λ e. h)
        (λ e. connect-NoLeak closes (record c { unstarted = false }) h)

  pub timer_fires-NoLeak :
      (closes : Bool) (c : RecoveringConnection)
      → NoLeak extra c
      → NoLeak extra (timer_fires closes c)
  unfolding timer_fires
  timer_fires-NoLeak closes c h =
      option_case (NoLeak extra) c.timer _ _ (λ e. h)
        (λ t e. connect-NoLeak closes (record c { timer = none }) h)

  drained_Known :
      (id : ℕ) (session : Option ℕ) (draining ended told : List ℕ) (next : ℕ) (stopped : Bool)
      → is_session id session ≡ true
      → Known extra stopped session draining ended told next
      → Known extra stopped none (draining ++ id ∷ []) ended told next
  drained_Known id none draining ended told next stopped e h k less = absurd (ground arith)
  drained_Known id (some s) draining ended told next stopped e h k less =
      let old = h k less in rw (is_in-append k draining (id ∷ [])) (ground arith)

  pub session_drains-NoLeak :
      (closes : Bool) (id : ℕ) (c : RecoveringConnection)
      → NoLeak extra c
      → NoLeak extra (session_drains closes id c)
  unfolding session_drains
  session_drains-NoLeak closes id c h =
      if_case (NoLeak extra) (c.stopped || not (is_session id c.session)) _ _ (λ e. h)
        (λ e.
          connect-NoLeak closes (record c { session = none; draining = c.draining ++ id ∷ [] })
            (drained_Known id c.session c.draining c.ended c.told_to_close c.next_session c.stopped
              (ground arith) h))

  adopted_Known :
      (stopped : Bool) (draining ended told : List ℕ) (next : ℕ)
      → stopped ≡ false
      → Known extra stopped none draining ended told next
      → Known extra stopped (some next) draining ended told (suc next)
  adopted_Known stopped draining ended told next live h k less = elim (Bool-cases (next == k)) [
    | inl e ↦ ground arith
    | inr e ↦ let old = h k (ground arith) in ground arith
  ]

  refused_Known :
      (stopped : Bool) (session : Option ℕ) (draining ended told : List ℕ) (next : ℕ)
      → Known extra stopped session draining ended told next
      → Known extra stopped session draining ended (told ++ next ∷ []) (suc next)
  refused_Known stopped session draining ended told next h k less =
      rw (is_in-append k told (next ∷ [])) (elim (Bool-cases (next == k)) [
        | inl e ↦ ground arith
        | inr e ↦ let old = h k (ground arith) in ground arith
      ])

  pub dial_succeeds-NoLeak :
      (closes : Bool) (c : RecoveringConnection)
      → Rests c
      → NoLeak extra c
      → NoLeak extra (dial_succeeds closes c)
  unfolding dial_succeeds
  dial_succeeds-NoLeak closes c rests h =
      if_case (NoLeak extra) (c.dialing == 0) _ _ (λ e. h)
        (λ e.
          if_case (NoLeak extra) c.stopped _ _
            (λ e'.
              refused_Known c.stopped c.session c.draining c.ended c.told_to_close c.next_session h)
            (λ e'.
              emit-NoLeak closes open_state none (adopted (record c { dialing = c.dialing - 1 })) (
                adopted_Known c.stopped c.draining c.ended c.told_to_close c.next_session e' (
                  subst
                    (λ (o : Option ℕ).
                      Known extra c.stopped o c.draining c.ended c.told_to_close c.next_session)
                    (unused c rests e).0 h))))

  pub dial_fails-NoLeak :
      (closes : Bool) (random : ℕ) (c : RecoveringConnection)
      → NoLeak extra c
      → NoLeak extra (dial_fails closes random c)
  unfolding dial_fails
  dial_fails-NoLeak closes random c h =
      if_case (NoLeak extra) (c.dialing == 0) _ _ (λ e. h)
        (λ e.
          if_case (NoLeak extra) c.stopped _ _ (λ e'. h)
            (λ e'.
              retry-NoLeak closes random error_reason
                (record c {
                  dialing = c.dialing - 1;
                  initial = settle_initial c.initial first_failure;
                })
                h))

  -- A session that is taken for ended need not be in use.
  forgotten_Known :
      (id : ℕ) (session : Option ℕ) (draining ended told : List ℕ) (next : ℕ) (stopped : Bool)
      → is_session id session ≡ true
      → is_in id extra ≡ true
      → Known extra stopped session draining ended told next
      → Known extra stopped none draining ended told next
  forgotten_Known id none draining ended told next stopped e over h k less = absurd (ground arith)
  forgotten_Known id (some s) draining ended told next stopped e over h k less =
      let old =
        subst (λ (b : Bool). (in_use k stopped (some s) draining || (b || is_in k told)) ≡ true)
          (is_in-append k ended extra) (h k less) in
      rw (is_in-append k ended extra) (elim (Bool-cases (s == k)) [
        | inl e' ↦
            let same : is_in k extra ≡ true =
              subst (λ (x : ℕ). is_in x extra ≡ true) (ground (arith, e, e')) over in
            ground arith
        | inr e' ↦ ground arith
      ])

  pub lost-NoLeak :
      (closes : Bool) (random id : ℕ) (reason : Reason) (c : RecoveringConnection)
      → is_in id extra ≡ true
      → NoLeak extra c
      → NoLeak extra (lost closes random id reason c)
  unfolding lost
  lost-NoLeak closes random id reason c over h =
      if_case (NoLeak extra) (c.stopped || not (is_session id c.session)) _ _ (λ e. h)
        (λ e.
          retry-NoLeak closes random reason (record c { session = none })
            (forgotten_Known id c.session c.draining c.ended c.told_to_close c.next_session
              c.stopped (ground arith) over h))

  pub close_ends-NoLeak :
      (thrown : Bool) (c : RecoveringConnection)
      → NoLeak extra c
      → NoLeak extra (close_ends thrown c)
  unfolding close_ends
  close_ends-NoLeak thrown c h =
      if_case (NoLeak extra) (not c.stopped) _ _ (λ e. h)
        (λ e.
          if_case (NoLeak extra) thrown _ _ (λ e'. h)
            (λ e' k less. let old = h k less in ground arith))
