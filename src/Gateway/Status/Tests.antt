-- ===== src/Gateway/Status/Tests.antt =====
-- A session of lib/gatewayclient from its registration on, alone and with a call of `SetOverloaded` in
-- between, and the theorems at the states that it comes to.
use go_platform.Base.{◌+◌, ◌≤◌, true, false, some, [], ◌∷◌, ◌≡◌, refl, ◌⊎◌}
use go_platform.Gateway.Status.{
  ready, overloaded, draining, drained, drain_asked, drain_state, drain_mark, drain_tell, free,
  looping, Session, registered, want_of, is_said, returned, is_fresh, release, decide, set_state,
  Own, mark, enter, acquire_own, acquire, look, judge, tell, note, state_set, own, set_overloaded,
  Reach, begin, next,
}
use go_platform.Gateway.Status.Announced.{drains_last, Reach-drains_last}
use go_platform.Gateway.Status.Current.{IsQuiet, last_word, IsTold, Reach-told}
use go_platform.Gateway.Status.Ends.{work, Run, stay, more, Run-IsTold}

status : Unit {0}
unfolding registered want_of is_said returned is_fresh release decide set_state
status = tt

-- A registration of an overloaded client.
abbrev serving : Session
serving = record {
  overloaded = true;
  active = true;
  state = overloaded;
  is_draining = false;
  said = some overloaded;
  told = overloaded ∷ ready ∷ [];
  broken = false;
  waiting = 0;
  early = false;
  thread = looping;
  lock = free;
}

serving-Reach : Reach true serving
unfolding status
serving-Reach =
    next
      (next
        (next
          (next
            (next
              (next (next (next begin (own (mark _ refl))) (own (enter _ refl)))
                (own (acquire_own _ refl refl)))
              (own (look _ refl)))
            (own (judge _ true true refl)))
          (own (tell _ true refl)))
        (own (note _ true refl)))
      (own (state_set _ true refl))

Reach-told_example : (serving.state ≡ want_of true) × (last_word serving.told ≡ some (want_of true))
Reach-told_example = Reach-told true serving serving-Reach refl (refl, refl, refl) refl refl

-- The same session when its drain is announced.
abbrev announced : Session
announced = record {
  overloaded = true;
  active = true;
  state = draining;
  is_draining = true;
  said = some overloaded;
  told = draining ∷ overloaded ∷ ready ∷ [];
  broken = false;
  waiting = 0;
  early = false;
  thread = drained;
  lock = free;
}

announced-Reach : Reach true announced
announced-Reach =
    next
      (next (next (next serving-Reach (drain_asked _ refl refl)) (own (drain_state _ refl)))
        (own (drain_mark _ refl)))
      (own (drain_tell _ refl))

Reach-drains_last_example : drains_last announced.told ≡ true
Reach-drains_last_example = Reach-drains_last true announced announced-Reach

-- The registration, for which eight steps are enough.
serving-Run : Run (registered true) 8 serving
unfolding status
serving-Run =
    more
      (more
        (more
          (more
            (more (more (more (more stay (mark _ refl)) (enter _ refl)) (acquire_own _ refl refl))
              (look _ refl))
            (judge _ true true refl))
          (tell _ true refl))
        (note _ true refl))
      (state_set _ true refl)

Run-IsTold_example :
    (8 + work serving ≤ work (registered true)) × (((t : Session) × Own serving t) ⊎ IsTold serving)
Run-IsTold_example = Run-IsTold true (registered true) serving 8 begin serving-Run

-- A client that becomes overloaded and ready again while its registration is between `c.active = s` and
-- `s.said = "ready"`: the last word that the gateway has heard is not the flag.
stale :
    (s : Session) × Reach false s
    × (s.active ≡ true)
    × IsQuiet s
    × (s.overloaded ≡ false)
    × (last_word s.told ≡ some overloaded)
unfolding status
stale = (
  _,
  next
      (next
        (next
          (next
            (next
              (next
                (next
                  (next
                    (next
                      (next
                        (next
                          (next
                            (next
                              (next
                                (next (next begin (set_overloaded _ true))
                                  (own (acquire _ 0 refl refl)))
                                (own (look _ refl)))
                              (own (judge _ true true refl)))
                            (own (tell _ true refl)))
                          (own (note _ true refl)))
                        (own (state_set _ true refl)))
                      (set_overloaded _ false))
                    (own (mark _ refl)))
                  (own (enter _ refl)))
                (own (acquire_own _ refl refl)))
              (own (look _ refl)))
            (own (judge _ false true refl)))
          (own (acquire _ 0 refl refl)))
        (own (look _ refl)))
      (own (judge _ false true refl)),
  refl,
  (refl, refl, refl),
  refl,
  refl,
)
