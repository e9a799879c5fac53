-- ===== src/Gateway/Client/Stops.antt =====
-- How `Run` of lib/gatewayclient returns.
use go_platform.Base.{
  ℕ, Bool, true, false, List, [], ◌∷◌, Option, none, some, ◌≡◌, refl, ◌∙◌, arith, if◌then◌else◌,
  Bool-cases, inl, inr,
}
use go_platform.Gateway.Session.{Ending, drained}
use go_platform.Gateway.Client.{
  Turn, Counters, Next, ctx_error, finished, waits, Waits, after_ending, after_session, turn,
  Return, nil, ctx_err, Log, run, run_after,
}

abbrev is_drained : Ending → Bool
is_drained drained = true
is_drained _ = false

-- How the first turn that stops `Run` does it: the context had ended by the end of the session, the
-- session was drained, or the context ends in the wait.
abbrev pub first_stop : List Turn → Option Return
first_stop [] = none
first_stop (t ∷ ts) =
    let rest = first_stop ts in
    if t.cancelled
    then some ctx_err
    else if is_drained t.session.ending
    then some nil
    else if t.wait_cancelled
    then some ctx_err
    else rest

abbrev stop_in : Next → Option Return
stop_in ctx_error = some ctx_err
stop_in finished = some nil
stop_in (waits time event c) = none

after_ending-stop :
    (ws : Waits) (e : Ending) (lasted : ℕ) (c : Counters)
    → stop_in (after_ending ws e lasted c) ≡ (if is_drained e then some nil else none)
unfolding after_ending
after_ending-stop ws drained lasted c = refl
after_ending-stop ws other lasted c = refl

turn-stop :
    (ws : Waits) (t : Turn) (c : Counters)
    → stop_in (turn ws t c) ≡ (
        if t.cancelled
        then some ctx_err
        else if is_drained t.session.ending
        then some nil
        else none)
unfolding turn
turn-stop ws t c = elim (Bool-cases t.cancelled) [
  | inl over ↦ rw over
  | inr lives ↦
      rw lives
        (after_ending-stop ws t.session.ending t.lasted (after_session t.session.registered c))
]

run_after-result :
    (next : Next) (over : Bool) (rest : Counters → Log) (later : Option Return)
    → ((c : Counters) → (rest c).result ≡ later)
    → (run_after next over rest).result
      ≡ elim (stop_in next) [ some r ↦ some r | none ↦ if over then some ctx_err else later ]
unfolding run_after
run_after-result ctx_error over rest later h = refl
run_after-result finished over rest later h = refl
run_after-result (waits time event c) true rest later h = refl
run_after-result (waits time event c) false rest later h = h c

-- `Run` returns exactly with the first turn in which its context has ended, the session was drained, or
-- the context ends in the wait: nil for the drain, the error of the context otherwise, whatever the
-- counters and the waits.
pub run-result : (ws : Waits) (ts : List Turn) (c : Counters) → (run ws ts c).result ≡ first_stop ts
unfolding run
run-result ws [] c = refl
run-result ws (t ∷ ts) c =
    run_after-result (turn ws t c) t.wait_cancelled (run ws ts) (first_stop ts) (run-result ws ts)
    ∙ ground (arith, turn-stop ws t c)
