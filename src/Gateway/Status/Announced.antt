-- ===== src/Gateway/Status/Announced.antt =====
-- The words of /status that a session of lib/gatewayclient sends, and its drain.
use go_platform.Base.{Bool, true, false, List, [], ◌∷◌, ◌≡◌, refl, ◌⊎◌, inl, inr, arith, all}
use go_platform.Gateway.Status.{
  ClientState, draining, Thread, drained, ended, Lock, free, looking, wanted, noting, stating,
  drain_marked, Session, registered, want_of, returned, release, decide, set_state, Own, mark,
  enter, acquire_own, acquire, look, judge, tell, tell_lost, note, state_set, drain_state,
  drain_mark, drain_tell, drain_lost, Step, own, set_overloaded, drain_asked, broke, end_loop,
  end_drained, Reach, begin, next,
}

abbrev is_up : ClientState → Bool
is_up draining = false
is_up _ = true

-- No announcement of a drain.
abbrev pub all_up : List ClientState → Bool
all_up = all is_up

-- At most one announcement of a drain, with no word behind it.
abbrev pub drains_last : List ClientState → Bool
drains_last [] = true
drains_last (w ∷ told) = all_up told

abbrev pub is_past : Thread → Bool
is_past drained = true
is_past ended = true
is_past _ = false

abbrev pub sends : Lock → Bool
sends free = false
sends looking = false
sends (wanted w c) = false
sends (noting w) = false
sends (stating w) = false
sends _ = true

abbrev pub marks : Lock → Bool
marks drain_marked = true
marks _ = false

abbrev pub Inv : Session → Type 0
Inv s =
    ((s.is_draining ≡ false) × (all_up s.told ≡ true) × (marks s.lock ≡ false))
    ⊎ ((s.is_draining ≡ true) × (all_up s.told ≡ true) × (s.lock ≡ drain_marked))
    ⊎ ((s.is_draining ≡ true)
        × (is_past s.thread ≡ true)
        × (sends s.lock ≡ false)
        × (drains_last s.told ≡ true))

own-Inv : {s s' : Session} → Own s s' → Inv s → Inv s'
unfolding decide set_state release returned want_of
own-Inv (mark s h) i = ground arith
own-Inv (enter s h) i = ground arith
own-Inv (acquire_own s h k) i = ground arith
own-Inv (acquire s n h k) i = ground arith
own-Inv (look s h) i = ground arith
own-Inv (judge s w c h) i = ground arith
own-Inv (tell s w h) i = ground arith
own-Inv (tell_lost s w h k) i = ground arith
own-Inv (note s w h) i = ground arith
own-Inv (state_set s w h) i = ground arith
own-Inv (drain_state s h) i = ground arith
own-Inv (drain_mark s h) i = ground arith
own-Inv (drain_tell s h) i = ground arith
own-Inv (drain_lost s h k) i = ground arith

step-Inv : {s s' : Session} → Step s s' → Inv s → Inv s'
step-Inv (own o) i = own-Inv o i
step-Inv (set_overloaded s on) i = i
step-Inv (drain_asked s h k) i = ground arith
step-Inv (broke s) i = i
step-Inv (end_loop s st h) i = ground arith
step-Inv (end_drained s st h) i = ground arith

-- A session behind its drain, or behind its end, drains or is not the active one.
abbrev pub PastInv : Session → Type 0
PastInv s = (is_past s.thread ≡ false) ⊎ (s.is_draining ≡ true) ⊎ (s.active ≡ false)

own-PastInv : {s s' : Session} → Own s s' → Inv s → PastInv s → PastInv s'
unfolding decide set_state release returned
own-PastInv (mark s h) v i = ground arith
own-PastInv (enter s h) v i = ground arith
own-PastInv (acquire_own s h k) v i = ground arith
own-PastInv (acquire s n h k) v i = ground arith
own-PastInv (look s h) v i = ground arith
own-PastInv (judge s w c h) v i = ground arith
own-PastInv (tell s w h) v i = ground arith
own-PastInv (tell_lost s w h k) v i = ground arith
own-PastInv (note s w h) v i = ground arith
own-PastInv (state_set s w h) v i = ground arith
own-PastInv (drain_state s h) v i = ground arith
own-PastInv (drain_mark s h) v i = ground arith
own-PastInv (drain_tell s h) v i = ground arith
own-PastInv (drain_lost s h k) v i = ground arith

step-PastInv : {s s' : Session} → Step s s' → Inv s → PastInv s → PastInv s'
step-PastInv (own o) v i = own-PastInv o v i
step-PastInv (set_overloaded s on) v i = i
step-PastInv (drain_asked s h k) v i = i
step-PastInv (broke s) v i = i
step-PastInv (end_loop s st h) v i = inr (inr refl)
step-PastInv (end_drained s st h) v i = inr (inr refl)

pub Reach-Inv : {on : Bool} {s : Session} → Reach on s → Inv s
unfolding registered
Reach-Inv begin = inl (refl, refl, refl)
Reach-Inv (next r st) = step-Inv st (Reach-Inv r)

pub Reach-PastInv : {on : Bool} {s : Session} → Reach on s → PastInv s
unfolding registered
Reach-PastInv begin = inl refl
Reach-PastInv (next r st) = step-PastInv st (Reach-Inv r) (Reach-PastInv r)

-- Whatever the interleaving of the steps of registration, callers of `SetOverloaded`, drain and end: no
-- word of /status is sent on a session behind the one that announces that it drains, so that it is
-- announced at most once.
pub Reach-drains_last : (on : Bool) (s : Session) → Reach on s → drains_last s.told ≡ true
Reach-drains_last on s r = let i = Reach-Inv r in ground (arith)
