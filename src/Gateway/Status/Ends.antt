-- ===== src/Gateway/Status/Ends.antt =====
-- The calls of `syncStatus` and the announcement of a drain come to their end by their own steps.
use go_platform.Base.{
  ℕ, zero, suc, ◌+◌, ◌*◌, ◌≤◌, ◌<◌, Bool, false, ◌≡◌, refl, ◌⊎◌, inl, inr, arith,
}
use go_platform.Gateway.Status.{
  Thread, published, marked, to_sync, Lock, free, looking, wanted, telling, noting, stating,
  drain_begun, drain_stated, drain_marked, Session, is_said, returned, release, decide, set_state,
  Own, mark, enter, acquire_own, acquire, look, judge, tell, tell_lost, note, state_set,
  drain_state, drain_mark, drain_tell, drain_lost, own, Reach, next,
}
use go_platform.Gateway.Status.Current.{is_due, IsTold, settled-IsTold}

abbrev thread_work : Thread → ℕ
thread_work published = 10
thread_work marked = 9
thread_work to_sync = 8
thread_work _ = 0

abbrev lock_work : Lock → ℕ
lock_work free = 0
lock_work looking = 6
lock_work (wanted w c) = 5
lock_work (telling w) = 4
lock_work (noting w) = 3
lock_work (stating w) = 2
lock_work drain_begun = 3
lock_work drain_stated = 2
lock_work drain_marked = 1

-- A bound on the steps that the goroutines of a session have left.
abbrev pub work : Session → ℕ
work s = 8 * s.waiting + thread_work s.thread + lock_work s.lock

own-work : {s s' : Session} → Own s s' → work s' < work s
unfolding decide set_state release returned is_said
own-work (mark s h) = ground arith
own-work (enter s h) = ground arith
own-work (acquire_own s h k) = ground arith
own-work (acquire s n h k) = ground arith
own-work (look s h) = ground arith
own-work (judge s w c h) = ground arith
own-work (tell s w h) = ground arith
own-work (tell_lost s w h k) = ground arith
own-work (note s w h) = ground arith
own-work (state_set s w h) = ground arith
own-work (drain_state s h) = ground arith
own-work (drain_mark s h) = ground arith
own-work (drain_tell s h) = ground arith
own-work (drain_lost s h k) = ground arith

-- `n` steps of the goroutines, with no step of anybody else between.
pub data Run (s : Session) : ℕ → Session → Type 0 where
  stay : Run s zero s
  more : {n : ℕ} {t u : Session} → Run s n t → Own t u → Run s (suc n) u

run-work : {s t : Session} {n : ℕ} → Run s n t → n + work t ≤ work s
run-work stay = omega arith
run-work (more r o) = omega (arith, run-work r, own-work o)

run-Reach : {on : Bool} {s t : Session} {n : ℕ} → Reach on s → Run s n t → Reach on t
run-Reach h stay = h
run-Reach h (more r o) = next (run-Reach h r) (own o)

abbrev CanStep : Session → Type 0
CanStep s = (t : Session) × Own s t

waiting-CanStep : (s : Session) (n : ℕ) → s.waiting ≡ n → s.lock ≡ free → (n ≡ 0) ⊎ CanStep s
waiting-CanStep s zero e k = inl refl
waiting-CanStep s (suc n) e k = inr (_, acquire s n e k)

free-CanStep :
    (s : Session) (th : Thread)
    → s.thread ≡ th
    → s.lock ≡ free
    → CanStep s ⊎ ((is_due s.thread ≡ false) × (s.waiting ≡ 0))
free-CanStep s published e k = inl (_, mark s e)
free-CanStep s marked e k = inl (_, enter s e)
free-CanStep s to_sync e k = inl (_, acquire_own s e k)
free-CanStep s other e k = elim (waiting-CanStep s s.waiting refl k) [
  | inl z ↦ inr (ground arith, z)
  | inr c ↦ inl c
]

lock-CanStep :
    (s : Session) (l : Lock)
    → s.lock ≡ l
    → CanStep s ⊎ ((is_due s.thread ≡ false) × (s.lock ≡ free) × (s.waiting ≡ 0))
lock-CanStep s free e = elim (free-CanStep s s.thread refl e) [
  | inl c ↦ inl c
  | inr (due, none_waits) ↦ inr (due, e, none_waits)
]
lock-CanStep s looking e = inl (_, look s e)
lock-CanStep s (wanted w c) e = inl (_, judge s w c e)
lock-CanStep s (telling w) e = inl (_, tell s w e)
lock-CanStep s (noting w) e = inl (_, note s w e)
lock-CanStep s (stating w) e = inl (_, state_set s w e)
lock-CanStep s drain_begun e = inl (_, drain_state s e)
lock-CanStep s drain_stated e = inl (_, drain_mark s e)
lock-CanStep s drain_marked e = inl (_, drain_tell s e)

-- From a reachable state, while nobody else acts: whatever steps the goroutines take, they are no more
-- than `work` of that state, and in the state that they come to a further step can be taken, or the state
-- of the client and the last word that was sent on the session are the flag, unless the session has ended,
-- drains or has a broken socket, or a word was sent on it before its registration had set the state.
pub Run-IsTold :
    (on : Bool) (s t : Session) (n : ℕ)
    → Reach on s
    → Run s n t
    → (n + work t ≤ work s) × (CanStep t ⊎ IsTold t)
Run-IsTold on s t n h r = (
  run-work r,
  elim (lock-CanStep t t.lock refl) [
    | inl c ↦ inl c
    | inr (not_due, quiet, none_waits) ↦
        inr (settled-IsTold (run-Reach h r) not_due quiet none_waits)
  ],
)
