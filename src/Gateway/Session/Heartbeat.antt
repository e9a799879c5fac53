-- ===== src/Gateway/Session/Heartbeat.antt =====
-- The heartbeats of a session of lib/gatewayclient: how long `loop` goes on.
use go_platform.Base.{
  Bool, true, false, ◌&&◌, not, List, [], ◌∷◌, Option, none, ◌≡◌, refl, ◌↔◌, arith, all, lit,
  str_eq, is_some,
}
use go_platform.Gateway.Session.{
  SocketEnd, Turn, done, drain_asked, timed_out, call_failed, answer, loop,
}

abbrev is_timeout : Turn → Bool
is_timeout timed_out = true
is_timeout _ = false

-- A tick whose heartbeat is unanswered, or answered with a state that is not offline.
abbrev pub goes_on : Turn → Bool
goes_on timed_out = true
goes_on (answer state) = not (str_eq state (lit "offline"))
goes_on _ = false

-- No two heartbeats in a row are unanswered.
abbrev pub apart : List Turn → Bool
apart [] = true
apart (x ∷ []) = true
apart (x ∷ y ∷ turns) = not (is_timeout x && is_timeout y) && apart (y ∷ turns)

abbrev starts_unanswered : List Turn → Bool
starts_unanswered [] = false
starts_unanswered (x ∷ turns) = is_timeout x

loop-goes_on :
    (e : Option SocketEnd) (turns : List Turn)
    → (not (is_some (loop e 0 turns)) ≡ (all goes_on turns && apart turns))
      × (not (is_some (loop e 1 turns))
          ≡ (not (starts_unanswered turns) && (all goes_on turns && apart turns)))
unfolding loop
loop-goes_on e [] = (refl, refl)
loop-goes_on e (done ∷ turns) = (refl, refl)
loop-goes_on e (drain_asked ∷ turns) = (refl, refl)
loop-goes_on e (call_failed ∷ turns) = (refl, refl)
loop-goes_on e (timed_out ∷ []) = (refl, refl)
loop-goes_on e (answer s ∷ []) = (ground arith, ground arith)
loop-goes_on e (timed_out ∷ t ∷ turns) =
    let (zeros, ones) = loop-goes_on e (t ∷ turns) in (ground arith, ground arith)
loop-goes_on e (answer s ∷ t ∷ turns) =
    let (zeros, ones) = loop-goes_on e (t ∷ turns) in (ground arith, ground arith)

-- `loop` goes on exactly as long as the socket stands, no drain is asked for, each heartbeat is answered
-- with a state that is not offline or stays unanswered, and no two in a row stay unanswered.
pub loop-none_iff :
    (e : Option SocketEnd) (turns : List Turn)
    → (loop e 0 turns ≡ none) ↔ ((all goes_on turns ≡ true) × (apart turns ≡ true))
loop-none_iff e turns =
    let (zeros, _) = loop-goes_on e turns in (λ h. (ground arith, ground arith), λ h. ground arith)
