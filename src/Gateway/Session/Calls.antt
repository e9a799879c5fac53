-- ===== src/Gateway/Session/Calls.antt =====
-- lib/gatewayclient/session.go: the calls that wait for their answer, and `reader`, which reads the
-- socket. A channel of `call` is a number; what was sent on it stays in it.
pub mod Matched
pub mod Stopped
use go_platform.Base.{
  GoString, ℕ, suc, Bool, true, false, not, List, [], Option, none, some, ◌≡◌, str_eq, ◌==◌,
  if◌then◌else◌, int_eq, ℤ, pos, ltb, length, ok, err,
}
use go_platform.Frame.{
  Frame, Wire, FrameError, Result, too_large, parse, call, call_result, call_error, max_size,
}

-- `session.pending` with its channels: what each channel holds, the first number that is not used yet,
-- and the identifier under which each channel was made.
pub record Calls : Type 0 where
  pub pending : GoString → Option ℕ
  pub held : ℕ → Option Frame
  pub next : ℕ
  pub made_for : ℕ → GoString

abbrev pub at_id {ℓ} : {A : Type ℓ} → GoString → A → (GoString → A) → GoString → A
at_id id a m key = if str_eq id key then a else m key

abbrev pub at_channel {ℓ} : {A : Type ℓ} → ℕ → A → (ℕ → A) → ℕ → A
at_channel c a m key = if c == key then a else m key

unfoldable pub no_calls : Calls
no_calls = record { pending = λ id. none; held = λ c. none; next = 0; made_for = λ c. [] }

-- `s.pending[f.ID] = ch`
unfoldable pub begin_call : GoString → Calls → Calls
begin_call id s = record {
  pending = at_id id (some s.next) s.pending;
  held = s.held;
  next = suc s.next;
  made_for = at_channel s.next id s.made_for;
}

-- `delete(s.pending, f.ID)`
unfoldable pub forget : GoString → Calls → Calls
forget id s = record s { pending = at_id id none s.pending }

-- An answer: the channel of its identifier is taken off, and gets it.
unfoldable pub deliver_to : Option ℕ → Frame → Calls → Calls
unfolding forget
deliver_to none f s = forget f.id s
deliver_to (some c) f s = record (forget f.id s) { held = at_channel c (some f) s.held }

unfoldable pub deliver : Frame → Calls → Calls
unfolding deliver_to
deliver f s = deliver_to (s.pending f.id) f s

-- A step of `call`, of a call whose time is over, or of `reader`.
pub data Step : Calls → Calls → Type 0 where
  called : (s : Calls) (id : GoString) → Step s (begin_call id s)
  timed_out : (s : Calls) (c : ℕ) → Step s (forget (s.made_for c) s)
  delivered : (s : Calls) (f : Frame) → Step s (deliver f s)

pub data Reach : Calls → Type 0 where
  begin : Reach no_calls
  more : {s t : Calls} → Reach s → Step s t → Reach t

-- What `ws.Read` returns.
pub data Inbound : Type 0 where
  read_error binary : Inbound
  text : GoString → Inbound

-- What `reader` does with it: stop, with the code with which it closes the socket itself; go on; send a
-- frame; hand an answer over; start `handle`.
pub data Reaction : Type 0 where
  stops : (close : Option ℕ) → Reaction
  goes_on : Reaction
  sends answers handles : Frame → Reaction

-- The CALLERROR for what is no frame.
unfoldable pub bad_frame : GoString → GoString → Frame
bad_frame id message = record {
  type = call_error;
  id = id;
  action = [];
  payload = [];
  code = pos 400;
  message = message;
}

unfoldable pub react_frame : Frame → Reaction
react_frame f =
    if int_eq f.type call_result
    then answers f
    else if int_eq f.type call_error
    then answers f
    else if int_eq f.type call
    then handles f
    else goes_on

-- What `reader` does with the result of `Parse`.
unfoldable pub react_parsed : (FrameError → GoString) → GoString → Result Frame → Reaction
unfolding react_frame
react_parsed error_text id (ok f) = react_frame f
react_parsed error_text id (err too_large) = stops (some 1009)
react_parsed error_text id (err other) = sends (bad_frame id (error_text other))

-- One turn of `reader`, over JSON, the text of an error and a new identifier.
unfoldable pub react :
    (GoString → Option Wire) → (FrameError → GoString) → GoString → Inbound → Reaction
react unmarshal error_text id read_error = stops none
react unmarshal error_text id binary = goes_on
react unmarshal error_text id (text b) = react_parsed error_text id (parse unmarshal b)
