-- ===== src/Gateway/Status/Current.antt =====
-- What a session of lib/gatewayclient has told the gateway, and the state of the client, when no call of
-- `syncStatus` is under way.
use go_platform.Base.{
  Bool, true, false, ◌||◌, ◌&&◌, List, [], ◌∷◌, Option, none, some, ◌≡◌, ◌≢◌, refl, ◌⊎◌, inl, inr,
  arith,
}
use go_platform.Gateway.Status.{
  ClientState, ready, overloaded, Thread, published, marked, to_sync, looping, Lock, free, looking,
  wanted, telling, noting, stating, drain_begun, drain_stated, drain_marked, Session, registered,
  want_of, is_said, returned, is_fresh, release, decide, set_state, Own, mark, enter, acquire_own,
  acquire, look, judge, tell, tell_lost, note, state_set, drain_state, drain_mark, drain_tell,
  drain_lost, Step, own, set_overloaded, drain_asked, broke, end_loop, end_drained, Reach, begin,
  next,
}
use go_platform.Gateway.Status.Announced

-- The call of the registration has not read the flag yet.
abbrev pub is_due : Thread → Bool
is_due published = true
is_due marked = true
is_due to_sync = true
is_due _ = false

abbrev works : Lock → Bool
works looking = true
works (wanted w c) = true
works (telling w) = true
works (noting w) = true
works (stating w) = true
works _ = false

-- Who will set `said` to the flag as it is, or that it is set.
abbrev Reason : Session → Type 0
Reason s =
    (s.active ≡ false)
    ⊎ (s.waiting ≢ 0)
    ⊎ (is_due s.thread ≡ true)
    ⊎ (s.is_draining ≡ true)
    ⊎ (s.lock ≡ looking)
    ⊎ (s.lock ≡ wanted s.overloaded true)
    ⊎ (s.lock ≡ telling s.overloaded)
    ⊎ (s.lock ≡ noting s.overloaded)
    ⊎ ((s.lock ≡ stating s.overloaded) × (is_said s.said s.overloaded ≡ true))
    ⊎ ((works s.lock ≡ false) × (is_said s.said s.overloaded ≡ true))

own-Reason : {s s' : Session} → Own s s' → Announced.Inv s → Reason s → Reason s'
unfolding decide set_state release returned want_of is_said
own-Reason (mark s h) _ i = ground arith
own-Reason (enter s h) _ i = ground arith
own-Reason (acquire_own s h k) _ i = ground arith
own-Reason (acquire s n h k) _ i = ground arith
own-Reason (look s h) _ i = ground arith
own-Reason (judge s w c h) _ i = ground arith
own-Reason (tell s w h) _ i = ground arith
own-Reason (tell_lost s w h k) _ i = ground arith
own-Reason (note s w h) _ i = ground arith
own-Reason (state_set s w h) _ i = ground arith
own-Reason (drain_state s h) _ i = ground arith
own-Reason (drain_mark s h) _ i = ground arith
own-Reason (drain_tell s h) v i = ground arith
own-Reason (drain_lost s h k) v i = ground arith

step-Reason : {s s' : Session} → Step s s' → Announced.Inv s → Reason s → Reason s'
step-Reason (own o) v i = own-Reason o v i
step-Reason (set_overloaded s on) v i = ground arith
step-Reason (drain_asked s h k) v i = ground arith
step-Reason (broke s) v i = i
step-Reason (end_loop s st h) v i = inl refl
step-Reason (end_drained s st h) v i = inl refl

Reach-Reason : {on : Bool} {s : Session} → Reach on s → Reason s
unfolding registered
Reach-Reason begin = inr (inr (inl refl))
Reach-Reason (next r st) = step-Reason st (Announced.Reach-Inv r) (Reach-Reason r)

abbrev is_word : Bool → ClientState → Bool
is_word true overloaded = true
is_word false ready = true
is_word _ _ = false

-- The last word that was sent is that of the flag `w`, or the socket is broken.
abbrev heard : Bool → Bool → List ClientState → Bool
heard w broken [] = false
heard w broken (x ∷ told) = broken || is_word w x

abbrev agrees : Option ClientState → ClientState → Bool → List ClientState → Bool
agrees (some ready) state broken told = is_word false state && heard false broken told
agrees (some overloaded) state broken told = is_word true state && heard true broken told
agrees _ state broken told = false

abbrev is_clean : Lock → Option ClientState → ClientState → Bool → List ClientState → Bool
is_clean (noting w) said state broken told = heard w broken told
is_clean (stating w) said state broken told = is_said said w && heard w broken told
is_clean drain_begun said state broken told = true
is_clean drain_stated said state broken told = true
is_clean drain_marked said state broken told = true
is_clean _ said state broken told = agrees said state broken told

abbrev settles : Lock → Bool
settles free = true
settles looking = true
settles (wanted w c) = true
settles (telling w) = true
settles _ = false

abbrev Clean : Session → Type 0
Clean s =
    (s.early ≡ true)
    ⊎ (Announced.is_past s.thread ≡ true)
    ⊎ ((s.active ≡ true) × (s.thread ≡ published) × (s.told ≡ ready ∷ []) × (settles s.lock ≡ true))
    ⊎ ((s.active ≡ true)
        × (s.thread ≡ marked)
        × (s.told ≡ ready ∷ [])
        × (s.said ≡ some ready)
        × (settles s.lock ≡ true))
    ⊎ ((s.active ≡ true)
        × (is_fresh s.thread ≡ false)
        × (is_clean s.lock s.said s.state s.broken s.told ≡ true))

own-Clean : {s s' : Session} → Own s s' → Clean s → Clean s'
unfolding decide set_state release returned want_of is_said is_fresh
own-Clean (mark s h) i = ground arith
own-Clean (enter s h) i = ground arith
own-Clean (acquire_own s h k) i = ground arith
own-Clean (acquire s n h k) i = ground arith
own-Clean (look s h) i = ground arith
own-Clean (judge s w c h) i = ground arith
own-Clean (tell s w h) i = ground arith
own-Clean (tell_lost s w h k) i = ground arith
own-Clean (note s w h) i = ground arith
own-Clean (state_set s w h) i = ground arith
own-Clean (drain_state s h) i = ground arith
own-Clean (drain_mark s h) i = ground arith
own-Clean (drain_tell s h) i = ground arith
own-Clean (drain_lost s h k) i = ground arith

step-Clean : {s s' : Session} → Step s s' → Clean s → Clean s'
unfolding is_fresh is_said
step-Clean (own o) i = own-Clean o i
step-Clean (set_overloaded s on) i = ground arith
step-Clean (drain_asked s h k) i = ground arith
step-Clean (broke s) i = ground arith
step-Clean (end_loop s st h) i = inr (inl refl)
step-Clean (end_drained s st h) i = inr (inl refl)

Reach-Clean : {on : Bool} {s : Session} → Reach on s → Clean s
unfolding registered
Reach-Clean begin = inr (inr (inl (refl, refl, refl, refl)))
Reach-Clean (next r st) = step-Clean st (Reach-Clean r)

-- No call of `syncStatus` is under way on a session that serves.
abbrev pub IsQuiet : Session → Type 0
IsQuiet s = (s.thread ≡ looping) × (s.lock ≡ free) × (s.waiting ≡ 0)

abbrev pub last_word : List ClientState → Option ClientState
last_word [] = none
last_word (x ∷ told) = some x

-- The flag is the state of the client and the last word that was sent, unless the session has ended,
-- drains or has a broken socket, or a word was sent before its registration had set the state.
abbrev pub IsTold : Session → Type 0
IsTold s =
    (s.active ≡ false)
    ⊎ (s.is_draining ≡ true)
    ⊎ (s.broken ≡ true)
    ⊎ (s.early ≡ true)
    ⊎ ((s.state ≡ want_of s.overloaded) × (last_word s.told ≡ some (want_of s.overloaded)))

pub settled-IsTold :
    {on : Bool} {s : Session}
    → Reach on s
    → is_due s.thread ≡ false
    → s.lock ≡ free
    → s.waiting ≡ 0
    → IsTold s
unfolding want_of is_said is_fresh
settled-IsTold r not_due quiet none_waits =
    let why = Reach-Reason r in
    let past = Announced.Reach-PastInv r in let clean = Reach-Clean r in ground arith

-- The word `said` of a session that is quiet and active is the flag.
Reach-said :
    (on : Bool) (s : Session)
    → Reach on s
    → s.active ≡ true
    → IsQuiet s
    → s.said ≡ some (want_of s.overloaded)
unfolding want_of is_said
Reach-said on s r active (serves, quiet, none_waits) =
    let v = Announced.Reach-Inv r in let why = Reach-Reason r in ground arith

-- Whatever the interleaving, when no call of `syncStatus` is under way on a session that serves and is
-- the active one, on which no word of /status was sent before its registration had set the state, and
-- whose socket is not broken: the state of the client is its flag, and so is the last word of /status, or
-- of the registration, that was sent on it.
pub Reach-told :
    (on : Bool) (s : Session)
    → Reach on s
    → s.active ≡ true
    → IsQuiet s
    → s.early ≡ false
    → s.broken ≡ false
    → (s.state ≡ want_of s.overloaded) × (last_word s.told ≡ some (want_of s.overloaded))
unfolding want_of is_said is_fresh
Reach-told on s r active (serves, quiet, none_waits) late whole =
    let said = Reach-said on s r active (serves, quiet, none_waits) in
    let clean = Reach-Clean r in (ground arith, ground arith)
