-- ===== src/Gateway/Session/Register.antt =====
-- When a session of lib/gatewayclient registers its instance, and when `runSession` returns.
use go_platform.Base.{
  GoString, ℕ, Bool, true, false, ◌&&◌, ◌||◌, not, Option, none, some, ◌≡◌, refl, arith, pos,
  negsuc, nat_lt_int, is_some, if◌then◌else◌,
}
use go_platform.Gateway.Session.{
  end_error, Dialled, connected, Registered, failed, refused, acked, LoopEnd, loop, Attempt,
  Returned, ended_with, loop_ended, register, run_session,
}

-- The gateway has taken the registration, with a heartbeat interval of at least one second.
abbrev pub is_registered : Registered → Bool
is_registered (acked (some interval)) = nat_lt_int 0 interval
is_registered _ = false

abbrev is_connected : Dialled → Bool
is_connected connected = true
is_connected _ = false

abbrev loop_returns : Option LoopEnd → Bool
loop_returns none = false
loop_returns (some e) = is_some e.ending

-- What a session waits for that got as far as /register.
abbrev registering_returns : Attempt → Registered → Bool
registering_returns a failed = is_some a.socket
registering_returns a (refused code msg) = true
registering_returns a (acked none) = true
registering_returns a (acked (some interval)) =
    not (nat_lt_int 0 interval) || loop_returns (loop a.socket 0 a.turns)

-- `runSession` returns unless its /register failed or its loop came to an end that waits for the
-- socket, and the socket does not end, or its loop goes on.
abbrev pub returns : Attempt → Bool
returns a = not (a.token && is_connected a.dialled) || registering_returns a a.registering

abbrev pub registered_of : Option Returned → Option Bool
registered_of none = none
registered_of (some x) = some x.registered

register-registered :
    (a : Attempt) (r : Registered)
    → registered_of (register a r)
      ≡ (if registering_returns a r then some (is_registered r) else none)
unfolding register ended_with loop_ended end_error
register-registered a failed = ground arith
register-registered a (refused code msg) = refl
register-registered a (acked none) = refl
register-registered a (acked (some (pos n))) = ground arith
register-registered a (acked (some (negsuc n))) = refl

-- `runSession` returns unless there was a token, the dial succeeded, and then: either /register failed
-- and the socket does not end, so that `endError` waits for it, or the gateway has acknowledged
-- /register with an interval of at least a second and the loop goes on, or has come to an end that
-- waits so. Where it returns, it says that the instance is registered exactly where there was a token,
-- the dial succeeded and the gateway has acknowledged /register so.
pub run_session-registered :
    (status_line : ℕ → GoString) (a : Attempt)
    → registered_of (run_session status_line a) ≡ (
        if returns a
        then some (a.token && is_connected a.dialled && is_registered a.registering)
        else none)
unfolding run_session ended_with
run_session-registered status_line a = ground (arith, register-registered a a.registering)
