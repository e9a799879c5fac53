-- ===== src/Gateway/Status.antt =====
-- lib/gatewayclient: what one session tells the gateway of the state of the instance. `syncStatus` and
-- `SetOverloaded` of client.go, the registration of `runSession` and the announcement of `drain` of
-- session.go, as the steps that their goroutines take one at a time from the moment that the gateway
-- has accepted /register. What the gateway answers to /status changes nothing, as `status` drops it.
pub mod Announced
pub mod Current
pub mod Ends
mod Tests
use go_platform.Base.{
  ℕ, suc, Bool, true, false, ◌||◌, not, List, [], ◌∷◌, Option, none, some, ◌≡◌, if◌then◌else◌,
}

-- `State`
pub data ClientState : Type 0 where
  offline connecting ready overloaded draining : ClientState

-- Where the goroutine of the session is: the session is `c.active`, `said` is set, the state is set
-- and the call of `syncStatus` is due, the call holds the lock, `loop`, after `drain`, after the end.
pub data Thread : Type 0 where
  published marked to_sync syncing looping drained ended : Thread

-- `Client.statusMu`, and what its holder has read: a call of `syncStatus`, or `drain`.
pub data Lock : Type 0 where
  free : Lock
  looking : Lock
  wanted : (want current : Bool) → Lock
  telling noting stating : (want : Bool) → Lock
  drain_begun drain_stated drain_marked : Lock

-- The flag `Client.overloaded`, whether the session is `Client.active`, the state of the client, the
-- flag `draining` and the word `said` of the session, the words of /status that were sent on it (the
-- last first, after the registration, which enters ready; /unregister, heartbeats and the answers to
-- calls and pings are not among them), whether its socket is broken, the calls of `syncStatus` that wait
-- for the lock, and whether one of them sent something before the registration had set the state.
pub record Session : Type 0 where
  pub overloaded : Bool
  pub active : Bool
  pub state : ClientState
  pub is_draining : Bool
  pub said : Option ClientState
  pub told : List ClientState
  pub broken : Bool
  pub waiting : ℕ
  pub early : Bool
  pub thread : Thread
  pub lock : Lock

-- The session when /register was accepted and `c.active = s` is done.
unfoldable pub registered : Bool → Session
registered on = record {
  overloaded = on;
  active = true;
  state = connecting;
  is_draining = false;
  said = none;
  told = ready ∷ [];
  broken = false;
  waiting = 0;
  early = false;
  thread = published;
  lock = free;
}

-- `want`
unfoldable pub want_of : Bool → ClientState
want_of true = ClientState.overloaded
want_of false = ready

-- `s.said == want`
unfoldable pub is_said : Option ClientState → Bool → Bool
is_said (some ready) false = true
is_said (some ClientState.overloaded) true = true
is_said _ _ = false

-- The goroutine of the session when a call of `syncStatus` returns: `loop` after its own.
unfoldable pub returned : Thread → Thread
returned syncing = looping
returned t = t

unfoldable pub is_fresh : Thread → Bool
is_fresh published = true
is_fresh marked = true
is_fresh _ = false

-- The end of `syncStatus`.
unfoldable pub release : Session → Session
release s = record s { lock = free; thread = returned s.thread }

-- `if !current || draining || s.said == want { return }`
unfoldable pub decide : Bool → Bool → Session → Session
decide want current s =
    if not current || s.is_draining || is_said s.said want
    then release s
    else record s { lock = telling want }

-- The last critical section of `syncStatus`.
unfoldable pub set_state : Bool → Session → Session
set_state want s = release (record s { state = if s.active then want_of want else s.state })

-- A step of a goroutine that is under way.
pub data Own : Session → Session → Type 0 where
  -- `runSession`: `s.said = "ready"`, `c.setState(Ready)`
  mark :
      (s : Session) → s.thread ≡ published → Own s (record s { said = some ready; thread = marked })
  enter : (s : Session) → s.thread ≡ marked → Own s (record s { state = ready; thread = to_sync })
  -- `syncStatus`
  acquire_own :
      (s : Session)
      → s.thread ≡ to_sync
      → s.lock ≡ free
      → Own s (record s { thread = syncing; lock = looking })
  acquire :
      (s : Session) (n : ℕ)
      → s.waiting ≡ suc n
      → s.lock ≡ free
      → Own s (record s { waiting = n; lock = looking })
  look : (s : Session) → s.lock ≡ looking → Own s (record s { lock = wanted s.overloaded s.active })
  judge :
      (s : Session) (want current : Bool)
      → s.lock ≡ wanted want current
      → Own s (decide want current s)
  tell :
      (s : Session) (want : Bool)
      → s.lock ≡ telling want
      → Own s (record s {
        told = want_of want ∷ s.told;
        early = s.early || is_fresh s.thread;
        lock = noting want;
      })
  tell_lost :
      (s : Session) (want : Bool)
      → s.lock ≡ telling want
      → s.broken ≡ true
      → Own s (record s { early = s.early || is_fresh s.thread; lock = noting want })
  note :
      (s : Session) (want : Bool)
      → s.lock ≡ noting want
      → Own s (record s { said = some (want_of want); lock = stating want })
  state_set : (s : Session) (want : Bool) → s.lock ≡ stating want → Own s (set_state want s)
  -- `drain`
  drain_state :
      (s : Session)
      → s.lock ≡ drain_begun
      → Own s (record s { state = draining; lock = drain_stated })
  drain_mark :
      (s : Session)
      → s.lock ≡ drain_stated
      → Own s (record s { is_draining = true; lock = drain_marked })
  drain_tell :
      (s : Session)
      → s.lock ≡ drain_marked
      → Own s (record s { told = draining ∷ s.told; thread = drained; lock = free })
  drain_lost :
      (s : Session)
      → s.lock ≡ drain_marked
      → s.broken ≡ true
      → Own s (record s { thread = drained; lock = free })

-- Any step: one of those, or one that somebody else decides on.
pub data Step : Session → Session → Type 0 where
  own : {s s' : Session} → Own s s' → Step s s'
  -- `SetOverloaded`, up to its call of `syncStatus`
  set_overloaded :
      (s : Session) (on : Bool)
      → Step s
          (record s { overloaded = on; waiting = if s.active then suc s.waiting else s.waiting })
  drain_asked :
      (s : Session) → s.thread ≡ looping → s.lock ≡ free → Step s (record s { lock = drain_begun })
  broke : (s : Session) → Step s (record s { broken = true })
  -- `runSession` returns, and `Run` sets the state
  end_loop :
      (s : Session) (state : ClientState)
      → s.thread ≡ looping
      → Step s (record s { active = false; state = state; thread = ended })
  end_drained :
      (s : Session) (state : ClientState)
      → s.thread ≡ drained
      → Step s (record s { active = false; state = state; thread = ended })

-- The states that a session comes to which was accepted while the flag was `on`.
pub data Reach (on : Bool) : Session → Type 0 where
  begin : Reach on (registered on)
  next : {s s' : Session} → Reach on s → Step s s' → Reach on s'
