-- ===== src/Gateway/Client/Tests.antt =====
-- `New`, the schedule and `Run` of lib/gatewayclient at small inputs, and the theorems at them.
use go_platform.Base.{
  ◌*◌, ◌^◌, ◌≤◌, ◌<◌, true, false, [], ◌∷◌, some, ◌≡◌, refl, inl, inr, arith, lit, if◌then◌else◌,
  pos, leb,
}
use go_platform.Gateway.Session.{drained, going_away, dial, refusal}
use go_platform.Gateway.Client.{Config, Turn, Waits, run, fresh, nil, base_wait, default_reconnect}
use go_platform.Gateway.Client.Schedule.{waits_from, run-backs_off, default_reconnect_bounds}
use go_platform.Gateway.Client.Stops.{run-result}

abbrev good : Config
good = record {
  url = lit "ws://gateway:8080/gateway";
  module_name = lit "clients";
  instance_name = lit "clients-1";
  version = lit "0.1.0";
  address = lit "127.0.0.1:8081";
  listen_port = pos 0;
  prefixes = lit "/api/v2/clients" ∷ [];
  capacity = pos 64;
  has_token = true;
  has_http_client = true;
}

abbrev seconds : Waits
seconds = record { reconnect = default_reconnect 200; after_refusal = 30000 }

abbrev unreachable : Turn
unreachable = record {
  session = record { registered = false; ending = dial };
  lasted = 5;
  cancelled = false;
  wait_cancelled = false;
}

abbrev closed_again : Turn
closed_again = record unreachable { session = record { registered = true; ending = going_away } }

abbrev drained_turn : Turn
drained_turn = record unreachable { session = record { registered = true; ending = drained } }

-- A refused registration between two failed dials.
abbrev refused_turn : Turn
refused_turn = record unreachable {
  session = record { registered = false; ending = refusal 503 (lit "Refused") false };
}

run-backs_off_example :
    (run seconds (unreachable ∷ refused_turn ∷ unreachable ∷ []) fresh).pauses
    ≡ waits_from seconds 0 (unreachable ∷ refused_turn ∷ unreachable ∷ [])
run-backs_off_example = run-backs_off seconds (unreachable ∷ refused_turn ∷ unreachable ∷ []) (
    inl (
      (refl, refl, refl, inl refl),
      ((refl, refl, refl, inr (inr refl)), ((refl, refl, refl, inl refl), tt)),
    ))

run-result_example : (run seconds (unreachable ∷ drained_turn ∷ []) fresh).result ≡ some nil
run-result_example = run-result seconds (unreachable ∷ drained_turn ∷ []) fresh

default_reconnect_bounds_example :
    (base_wait 7 ≡ (if leb 7 4 then 1000 * 2 ^ 7 else 30000))
    × (800 * base_wait 7 ≤ 1000 * default_reconnect 10 7)
    × (1000 * default_reconnect 10 7 < 1200 * base_wait 7)
default_reconnect_bounds_example = default_reconnect_bounds 10 7 (omega arith)
