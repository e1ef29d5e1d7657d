-- ===== src/Recovery/Sessions.antt =====
-- web/src/recovery.ts: what becomes of the sessions that were dialed.
mod Changes
pub mod Events
use mathlib.Core.Path.{subst}
use grpc_bridge.Prelude.{
  ℕ, suc, ◌-◌, ◌<◌, ◌≡◌, refl, ap, ◌∙◌, inl, inr, Bool, true, false, not, ◌&&◌, ◌||◌, Option, none,
  some, List, [], ◌∷◌, ◌++◌, ◌==◌, if_case, option_case, Bool-cases, arith,
}
use grpc_bridge.Recovery.State.{
  RecoveringConnection, recovering, ChannelState, Reason, connecting, open_state, transient_failure,
  error_reason, first_failure, go_on, take_call, select,
}
use grpc_bridge.Recovery.Steps.{
  tell, session_list, close_channel, emit, connect, retry, start, adopted, settle_initial,
  dial_succeeds, dial_fails, is_session, lost, remove_session, session_closes, session_drains,
  timer_fires, close_ends, Happening, take_place, take_all, starts, timer_goes_off, dialed,
  dial_failed, session_closed, session_draining, selects, call_aborts, call_expires, call_goes_on,
  closes_channel, close_settles,
}
use grpc_bridge.Recovery.Rest.{Rests}
use grpc_bridge.Recovery.Rest.Events.{unused, take_place-Rests, recovering-Rests}

abbrev pub is_in : ℕ → List ℕ → Bool
is_in id [] = false
is_in id (k ∷ ks) = k == id || is_in id ks

or_assoc : (a b c : Bool) → a || (b || c) ≡ (a || b) || c
or_assoc true b c = refl
or_assoc false b c = refl

moved : (u w e t : Bool) → (u || w) || (e || t) ≡ true → e || ((t || u) || w) ≡ true
moved u w e t h = ground arith

pub is_in-append : (id : ℕ) (xs ys : List ℕ) → is_in id (xs ++ ys) ≡ is_in id xs || is_in id ys
is_in-append id [] ys = refl
is_in-append id (k ∷ xs) ys =
    ap (λ (b : Bool). k == id || b) (is_in-append id xs ys)
    ∙ or_assoc (k == id) (is_in id xs) (is_in id ys)

pub is_in-remove_session :
    (id k : ℕ) (xs : List ℕ)
    → is_in id xs ≡ true
    → (k == id || is_in id (remove_session k xs)) ≡ true
unfolding remove_session
is_in-remove_session id k [] e = absurd (ground arith)
is_in-remove_session id k (x ∷ xs) e = let ih = is_in-remove_session id k xs in ground arith

is_in-session_list : (id : ℕ) (o : Option ℕ) → is_in id (session_list o) ≡ is_session id o
is_in-session_list id none = refl
is_in-session_list id (some k) = ground arith

-- Whether a session is in use, or has ended, or was told to close. `extra` is taken for ended.
abbrev pub in_use : ℕ → Bool → Option ℕ → List ℕ → Bool
in_use id stopped session draining = not stopped && (is_session id session || is_in id draining)

module _ (extra : List ℕ) where
  abbrev pub Known : Bool → Option ℕ → List ℕ → List ℕ → List ℕ → ℕ → Type 0
  Known stopped session draining ended told next =
      (id : ℕ)
      → id < next
      → (in_use id stopped session draining || (is_in id (ended ++ extra) || is_in id told)) ≡ true

  abbrev pub NoLeak : RecoveringConnection → Type 0
  NoLeak c = Known c.stopped c.session c.draining c.ended c.told_to_close c.next_session

  pub closed_Known :
      (session : Option ℕ) (draining ended told : List ℕ) (next : ℕ)
      → Known false session draining ended told next
      → Known true none draining ended (told ++ session_list session ++ draining) next
  closed_Known session draining ended told next h id less =
      rw
        (
          is_in-append id (told ++ session_list session) draining,
          is_in-append id told (session_list session),
          is_in-session_list id session,
        )
        (moved (is_session id session) (is_in id draining) (is_in id (ended ++ extra))
          (is_in id told) (h id less))
