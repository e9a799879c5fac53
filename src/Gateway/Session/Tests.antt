-- ===== src/Gateway/Session/Tests.antt =====
-- Sessions of lib/gatewayclient at small inputs, and the theorems at them.
use go_platform.Base.{
  GoString, ℕ, true, [], ◌∷◌, Option, none, some, ◌≡◌, refl, ◌↔◌, lit, all, if◌then◌else◌, pos,
  str_eq,
}
use go_platform.Frame.{Frame, Wire, FrameError, call, call_result}
use go_platform.Gateway.Session.{
  lost, broken, end_error, connected, failed, acked, timed_out, answer, done, loop, Attempt,
  run_session, register, ended_with,
}
use go_platform.Gateway.Session.Heartbeat.{goes_on, apart, loop-none_iff}
use go_platform.Gateway.Session.Register.{returns, registered_of, run_session-registered}
use go_platform.Gateway.Session.Commands.{Registration, Commands}
use go_platform.Gateway.Session.Calls.{
  Calls, no_calls, begin_call, forget, deliver, called, delivered, Reach, begin, more,
}
use go_platform.Gateway.Session.Calls.Matched.{Reach-matched}

calls : Unit {0}
unfolding no_calls begin_call forget deliver lit
calls = tt

-- Two unanswered heartbeats in a row: the session closes 4001.
silent :
    loop none 0 (answer (lit "ready") ∷ timed_out ∷ timed_out ∷ [])
    ≡ some (record { ending = some lost; close = some 4001 })
unfolding loop lit str_eq
silent = refl

loop-none_iff_example : (loop none 0 (timed_out ∷ answer (lit "ready") ∷ timed_out ∷ []) ≡ none) ↔ (
    (all goes_on (timed_out ∷ answer (lit "ready") ∷ timed_out ∷ []) ≡ true)
    × (apart (timed_out ∷ answer (lit "ready") ∷ timed_out ∷ []) ≡ true))
loop-none_iff_example = loop-none_iff none (timed_out ∷ answer (lit "ready") ∷ timed_out ∷ [])

-- The gateway accepts the socket and never answers /register.
abbrev unanswered : Attempt
unanswered = record {
  token = true;
  dialled = connected;
  registering = failed;
  socket = none;
  turns = [];
}

abbrev status_line : ℕ → GoString
status_line n = []

unanswered_hangs : run_session status_line unanswered ≡ none
unfolding run_session register ended_with end_error
unanswered_hangs = refl

run_session-registered_example :
    registered_of (
      run_session status_line (record unanswered {
        registering = acked (some (pos 5));
        socket = some broken;
        turns = done ∷ [];
      }))
    ≡ (if returns (record unanswered {
      registering = acked (some (pos 5));
      socket = some broken;
      turns = done ∷ [];
    })
        then some true
        else none)
run_session-registered_example = run_session-registered status_line (record unanswered {
  registering = acked (some (pos 5));
  socket = some broken;
  turns = done ∷ [];
})

abbrev current : Registration
current = record { address = lit "10.0.0.1:80"; prefixes = lit "/api/v2/a" ∷ []; capacity = pos 4 }

abbrev smaller : Registration
smaller = record { address = []; prefixes = []; capacity = pos 2 }

abbrev ping : Frame
ping = record {
  type = call;
  id = lit "id";
  action = lit "/ping";
  payload = lit "{}";
  code = pos 0;
  message = [];
}

abbrev commands : Commands
commands = record {
  in_flight = lit "{\"in_flight\":0}";
  drain_deadline = pos 30;
  on_reload = none;
  registration = current;
  read_params = λ p. record { reason = []; deadline = pos 0 };
}

-- A call, and its answer.
abbrev pong : Frame
pong = record ping { type = call_result; action = [] }

one_call : Reach (begin_call (lit "id") no_calls)
one_call = more begin (called no_calls (lit "id"))

abbrev answered_call : Calls
answered_call = deliver pong (begin_call (lit "id") no_calls)

Reach-matched_example :
    (answered_call.made_for 0 ≡ lit "id") × ((deliver pong answered_call).held 0 ≡ some pong)
unfolding calls str_eq
Reach-matched_example =
    Reach-matched answered_call (deliver pong answered_call) 0 pong
      (more one_call (delivered (begin_call (lit "id") no_calls) pong))
      (delivered answered_call pong) refl

abbrev no_json : GoString → Option Wire
no_json s = none

abbrev error_text : FrameError → GoString
error_text e = []
