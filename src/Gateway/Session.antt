-- ===== src/Gateway/Session.antt =====
-- lib/gatewayclient/session.go: one socket lifetime. What the token source, the gateway and the clock
-- do to a session is the record `Attempt`; the frames are those of lib/gateway/frame.
pub mod Register
pub mod Heartbeat
pub mod Calls
pub mod Commands
mod Tests
use go_platform.Base.{
  GoString, ℕ, suc, ◌+◌, Bool, true, false, ◌&&◌, ◌||◌, not, List, [], ◌∷◌, Option, none, some, lit,
  str_eq, ltb, leb, ◌==◌, if◌then◌else◌, ℤ, pos, negsuc, int_eq, nat_lt_int,
}

-- How a session ended, in the words that `Run` tells apart: drained, a close 1001, a refusal, a failed
-- dial, and anything else.
pub data Ending : Type 0 where
  drained going_away dial lost : Ending
  refusal : (code : ℕ) (msg : GoString) (handshake : Bool) → Ending

-- What ended the socket: a close frame with its code and reason, or another error.
pub data SocketEnd : Type 0 where
  closed : (code : ℕ) (reason : GoString) → SocketEnd
  broken : SocketEnd

-- The reasons with which a gateway that cannot refuse before 101 closes 1008.
unfoldable pub is_handshake : GoString → Bool
is_handshake r =
    str_eq r (lit "unauthorized")
    || str_eq r (lit "forbidden")
    || str_eq r (lit "not-found")
    || str_eq r (lit "bad-request")

-- The `switch` of `endError` on the close code; every error that is passed to it is `lost` to `Run`.
unfoldable pub close_ending : SocketEnd → Ending
close_ending broken = lost
close_ending (closed code reason) =
    if code == 1001
    then going_away
    else if code == 1008
    then refusal 1008 reason (is_handshake reason)
    else lost

-- `endError`, which waits for the socket to end: `none` while it does not.
unfoldable pub end_error : (draining : Bool) → Option SocketEnd → Option Ending
end_error draining none = none
end_error true (some e) = some drained
end_error false (some e) = some (close_ending e)

-- What the dial of the control socket comes to.
pub data Dialled : Type 0 where
  connected unreachable : Dialled
  answered : (status : ℕ) → Dialled

-- What `call("/register")` returns: an error of `call`, a CALLERROR, or a CALLRESULT with its
-- heartbeat interval (`none` where the payload is no JSON of that form).
pub data Registered : Type 0 where
  failed : Registered
  refused : (code : ℕ) (msg : GoString) → Registered
  acked : (interval : Option ℤ) → Registered

-- What a turn of `loop` meets: the socket has ended, a /drain, or a tick, whose heartbeat stays
-- unanswered, fails otherwise, or is answered with a state.
pub data Turn : Type 0 where
  done drain_asked timed_out call_failed : Turn
  answer : (state : GoString) → Turn

-- How `loop` returns, and the code with which the session closed the socket itself.
pub record LoopEnd : Type 0 where
  pub ending : Option Ending
  pub close : Option ℕ

abbrev silent_gateway : ℕ
silent_gateway = 4001

-- `loop` over what it meets: `none` while it goes on; `ended` is the end of the socket.
unfoldable pub loop : Option SocketEnd → ℕ → List Turn → Option LoopEnd
loop ended unanswered [] = none
loop ended unanswered (done ∷ turns) =
    some (record { ending = end_error false ended; close = none })
loop ended unanswered (drain_asked ∷ turns) =
    some (record { ending = some drained; close = some 1000 })
loop ended unanswered (timed_out ∷ turns) =
    let rest = loop ended (suc unanswered) turns in
    if leb 2 (suc unanswered)
    then some (record { ending = some lost; close = some silent_gateway })
    else rest
loop ended unanswered (call_failed ∷ turns) =
    some (record { ending = end_error false ended; close = none })
loop ended unanswered (answer state ∷ turns) =
    let rest = loop ended 0 turns in
    if str_eq state (lit "offline")
    then some (record { ending = some lost; close = some silent_gateway })
    else rest

pub record Attempt : Type 0 where
  pub token : Bool
  pub dialled : Dialled
  pub registering : Registered
  pub socket : Option SocketEnd
  pub turns : List Turn

-- What `runSession` returns, where it does: whether the gateway has registered the instance, and how
-- the session ended.
pub record Returned : Type 0 where
  pub registered : Bool
  pub ending : Ending

unfoldable pub ended_with : Bool → Option Ending → Option Returned
ended_with registered none = none
ended_with registered (some e) = some (record { registered = registered; ending = e })

unfoldable pub loop_ended : Option LoopEnd → Option Returned
unfolding ended_with
loop_ended none = none
loop_ended (some e) = ended_with true e.ending

-- The answer to /register.
unfoldable pub register : Attempt → Registered → Option Returned
unfolding ended_with loop_ended
register a failed = ended_with false (end_error false a.socket)
register a (refused code msg) = ended_with false (some (refusal code msg false))
register a (acked none) = ended_with false (some lost)
register a (acked (some interval)) =
    if nat_lt_int 0 interval
    then loop_ended (loop a.socket 0 a.turns)
    else ended_with false (some lost)

-- `resp.StatusCode >= 400 && resp.StatusCode < 500`
unfoldable pub dial_ending : ℕ → GoString → Ending
dial_ending status text =
    if leb 400 status && ltb status 500 then refusal status text true else dial

-- `runSession`, over the text of a status line; `none` while it does not return.
unfoldable pub run_session : (ℕ → GoString) → Attempt → Option Returned
unfolding ended_with
run_session status_line a = if not a.token then ended_with false (some dial) else elim a.dialled [
  | unreachable ↦ ended_with false (some dial)
  | answered status ↦ ended_with false (some (dial_ending status (status_line status)))
  | connected ↦ register a a.registering
]
