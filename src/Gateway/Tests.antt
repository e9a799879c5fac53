-- ===== src/Gateway/Tests.antt =====
-- The counter at capacity 1 with one request in flight, and the theorem at the state after it.
use go_platform.Base.{true, false, [], ◌∷◌, ◌≡◌, refl, arith}
use go_platform.Gateway.Load.{
  gap, low, at_mark, judge, waiting, woken, read_capacity, read_both, State, poke_if, start, came,
  tested, took, looked, counted, judged, Reach, begin, next,
}
use go_platform.Gateway.Load.Settled.{Fits, Reach-Fits}

load : Unit {0}
unfolding gap low at_mark judge poke_if start
load = tt

-- One request, its poke, and a turn of the goroutine.
abbrev busy : State
busy = record {
  n = 1;
  capacity = 1;
  wake = false;
  on = true;
  overloaded = true;
  adding = [];
  registering = false;
  phase = waiting;
}

abbrev added : State
added = record busy { on = false; overloaded = false; adding = 1 ∷ [] }

abbrev ready : State
ready = record busy { on = false; overloaded = false }

came-added : Reach 1 added
unfolding load
came-added = next begin (came (start 1) 1)

busy-Reach : Reach 1 busy
unfolding load
busy-Reach =
    next
      (next
        (next
          (next (next came-added (tested added [] [] 1 refl))
            (took (record ready { wake = true }) refl refl))
          (looked (record ready { phase = woken }) refl))
        (counted (record ready { phase = read_capacity 1 }) 1 refl))
      (judged (record ready { phase = read_both 1 1 }) 1 1 refl)

Reach-Fits_example : (busy.overloaded ≡ busy.on) × Fits busy
Reach-Fits_example = Reach-Fits 1 busy (omega arith) busy-Reach refl refl refl refl
