-- ===== src/Gateway/Client.antt =====
-- lib/gatewayclient/client.go: the checks of `New`, the schedule of reconnection, and `Run`, which starts
-- sessions again until its context ends or a drain is complete. Times are milliseconds.
pub mod Checked
pub mod Schedule
pub mod Stops
mod Tests
use go_platform.Base.{
  GoString, ℕ, zero, suc, ◌+◌, ◌-◌, ◌*◌, ◌/◌, ◌^◌, Bool, true, false, ◌&&◌, ◌||◌, not, List, [],
  ◌∷◌, Option, none, some, lit, str_eq, ltb, leb, ◌==◌, if◌then◌else◌, ℤ, pos, negsuc, int_eq,
  nat_lt_int, is_lower, is_digit, all, length, cut_prefix,
}
use go_platform.Gateway.Session.{
  Ending, drained, going_away, dial, lost, refusal, Attempt, Returned,
}
use go_platform.Gateway.Status.{ClientState, offline}

-- The fields of `Config` that `New` reads; a hook is whether it is there.
pub record Config : Type 0 where
  pub url : GoString
  pub module_name : GoString
  pub instance_name : GoString
  pub version : GoString
  pub address : GoString
  pub listen_port : ℤ
  pub prefixes : List GoString
  pub capacity : ℤ
  pub has_token : Bool
  pub has_http_client : Bool

-- `[a-z0-9]`, `[a-z0-9_-]` and `[a-z0-9_/-]`
unfoldable pub is_first : ℕ → Bool
is_first c = is_lower c || is_digit c

unfoldable pub is_later : ℕ → Bool
is_later c = is_first c || c == b'_' || c == b'-'

unfoldable pub is_path_byte : ℕ → Bool
is_path_byte c = is_later c || c == b'/'

-- `^[a-z0-9][a-z0-9_-]{0,62}$`
unfoldable pub is_segment : GoString → Bool
is_segment [] = false
is_segment (c ∷ s) = is_first c && all is_later s && leb (length s) 62

-- What follows `/api/v2/` in a prefix, `none` where that is not its head.
unfoldable pub is_path : Option GoString → Bool
is_path none = false
is_path (some []) = false
is_path (some (c ∷ s)) = all is_path_byte (c ∷ s)

-- `^/api/v2/[a-z0-9_/-]+$`
unfoldable pub is_prefix : GoString → Bool
is_prefix p = is_path (cut_prefix (lit "/api/v2/") p)

pub data ConfigError : Type 0 where
  no_url bad_name no_version no_prefix bad_capacity no_token no_address custom_client : ConfigError
  bad_prefix : GoString → ConfigError

unfoldable pub is_none : List GoString → Bool
is_none [] = true
is_none (p ∷ ps) = false

-- The loop over the prefixes.
unfoldable pub check_prefixes : List GoString → Option ConfigError
check_prefixes [] = none
check_prefixes (p ∷ ps) =
    let rest = check_prefixes ps in if not (is_prefix p) then some (bad_prefix p) else rest

-- `New`, as far as it can fail: `none` where it returns a client.
unfoldable pub new_client : Config → Option ConfigError
new_client c =
    if str_eq c.url []
    then some no_url
    else if not (is_segment c.module_name) || not (is_segment c.instance_name)
    then some bad_name
    else if str_eq c.version []
    then some no_version
    else if is_none c.prefixes
    then some no_prefix
    else if not (nat_lt_int 0 c.capacity)
    then some bad_capacity
    else if not c.has_token
    then some no_token
    else if str_eq c.address [] && int_eq c.listen_port (pos 0)
    then some no_address
    else if str_eq c.address [] && c.has_http_client
    then some custom_client
    else check_prefixes c.prefixes

-- `min`, and the base of `DefaultReconnect`: 1, 2, 4, 8, 16, 30, 30 … seconds.
unfoldable pub base_wait : ℕ → ℕ
base_wait attempt =
    let base = 2 ^ (if leb attempt 5 then attempt else 5) * 1000 in
    if ltb 30000 base then 30000 else base

-- `DefaultReconnect`: the jitter is a number below 400, per mille.
unfoldable pub default_reconnect : (jitter : ℕ) → ℕ → ℕ
unfolding base_wait
default_reconnect jitter attempt = base_wait attempt * (800 + jitter) / 1000

-- `Event`, as far as `Run` emits it.
pub data Event : Type 0 where
  connect_failed handshake_rejected refused disconnected replaced drained_event : Event

-- What happens in a turn of `Run`: what the session returns, how long it took, and whether the context
-- has ended by the return of the session, or ends in the wait behind it.
pub record Turn : Type 0 where
  pub session : Returned
  pub lasted : ℕ
  pub cancelled : Bool
  pub wait_cancelled : Bool

-- The variables of `Run`.
pub record Counters : Type 0 where
  pub attempt : ℕ
  pub replaced_in_a_row : ℕ

-- Where a turn leads: `Run` returns the error of the context, or nil, or it waits.
pub data Next : Type 0 where
  ctx_error finished : Next
  waits : (time : ℕ) (event : Event) → Counters → Next

-- `Reconnect` and `ReconnectAfterRefusal`.
pub record Waits : Type 0 where
  pub reconnect : ℕ → ℕ
  pub after_refusal : ℕ

unfoldable pub max : ℕ → ℕ → ℕ
max a b = if ltb a b then b else a

-- `if registered { attempt = 0 }`
unfoldable pub after_session : Bool → Counters → Counters
after_session registered c = if registered then record c { attempt = 0 } else c

-- A close 1001: `replaced` counts those that come within 30 seconds.
unfoldable pub count_replaced : ℕ → ℕ → ℕ
count_replaced lasted n = if ltb lasted 30000 then suc n else 0

unfoldable pub refusal_event : Bool → Event
refusal_event handshake = if handshake then handshake_rejected else refused

-- The `switch` of `Run` once the context is known to live. `replaced - 1` is below the attempts, which
-- are natural numbers, where it is negative.
unfoldable pub after_ending : Waits → Ending → ℕ → Counters → Next
unfolding max count_replaced refusal_event
after_ending ws drained lasted c = finished
after_ending ws going_away lasted c =
    let n = count_replaced lasted c.replaced_in_a_row in
    waits (ws.reconnect (max c.attempt (n - 1))) replaced
      (record { attempt = suc c.attempt; replaced_in_a_row = n })
after_ending ws (refusal code msg handshake) lasted c =
    waits ws.after_refusal (refusal_event handshake) c
after_ending ws dial lasted c =
    waits (ws.reconnect c.attempt) connect_failed (record c { attempt = suc c.attempt })
after_ending ws lost lasted c =
    waits (ws.reconnect c.attempt) disconnected (record c { attempt = suc c.attempt })

unfoldable pub turn : Waits → Turn → Counters → Next
unfolding after_session after_ending
turn ws t c =
    if t.cancelled
    then ctx_error
    else after_ending ws t.session.ending t.lasted (after_session t.session.registered c)

-- What `Run` has done: the waits and events in order, and how it returned (`none`: it still runs).
pub data Return : Type 0 where
  nil ctx_err : Return

pub record Log : Type 0 where
  pub pauses : List ℕ
  pub events : List Event
  pub result : Option Return

unfoldable pub logged : ℕ → Event → Log → Log
logged time event l = record l { pauses = time ∷ l.pauses; events = event ∷ l.events }

-- What is left of `Run` behind a turn, where the next turns make `rest` of the counters.
unfoldable pub run_after : Next → Bool → (Counters → Log) → Log
unfolding logged
run_after ctx_error wait_cancelled rest = record { pauses = []; events = []; result = some ctx_err }
run_after finished wait_cancelled rest = record {
  pauses = [];
  events = drained_event ∷ [];
  result = some nil;
}
run_after (waits time event c) wait_cancelled rest =
    if wait_cancelled
    then record { pauses = time ∷ []; events = event ∷ []; result = some ctx_err }
    else logged time event (rest c)

-- `Run` over its turns.
unfoldable pub run : Waits → List Turn → Counters → Log
run ws [] c = record { pauses = []; events = []; result = none }
run ws (t ∷ ts) c = run_after (turn ws t c) t.wait_cancelled (run ws ts)

unfoldable pub fresh : Counters
fresh = record { attempt = 0; replaced_in_a_row = 0 }
