-- ===== src/Gateway/Session/Commands.antt =====
-- lib/gatewayclient/session.go: `handle`, which answers the commands of the gateway, and the
-- registration that a /reload leaves. `OnReload` and JSON are parameters.
pub mod Settled
use go_platform.Base.{
  GoString, ℕ, ◌-◌, ◌*◌, ◌%◌, ◌^◌, ltb, ◌==◌, ◌⊎◌, inl, inr, sym, ap, Bool, true, false, ◌&&◌, ◌||◌,
  not, List, [], ◌∷◌, Option, none, some, lit, str_eq, Bool-cases, str_eq_iff, ◌≡◌, ◌≢◌, refl,
  arith, if◌then◌else◌, ℤ, pos, negsuc, int_eq, int_eq_iff, nat_lt_int, ◌↔◌, length,
}
use go_platform.Frame.{Frame, result_to, error_to, call_result, call_error}

-- `Registration`
pub record Registration : Type 0 where
  pub address : GoString
  pub prefixes : List GoString
  pub capacity : ℤ

-- `equal`
unfoldable pub equal : List GoString → List GoString → Bool
equal [] [] = true
equal [] (y ∷ b) = false
equal (x ∷ a) [] = false
equal (x ∷ a) (y ∷ b) = str_eq x y && equal a b

unfoldable pub is_empty : List GoString → Bool
is_empty [] = true
is_empty (x ∷ xs) = false

-- `changed`
unfoldable pub changed : Registration → Registration → Bool
changed next cur =
    not (str_eq next.address []) && not (str_eq next.address cur.address)
    || not (int_eq next.capacity (pos 0)) && not (int_eq next.capacity cur.capacity)
    || not (is_empty next.prefixes) && not (equal next.prefixes cur.prefixes)

-- `c.reg` after a /reload.
unfoldable pub reload : Registration → Registration → Registration
reload next cur =
    if changed next cur
    then record {
      address = if str_eq next.address [] then cur.address else next.address;
      prefixes = if is_empty next.prefixes then cur.prefixes else next.prefixes;
      capacity = if int_eq next.capacity (pos 0) then cur.capacity else next.capacity;
    }
    else cur

-- What a /drain asks for: its reason, and its deadline in seconds.
pub record DrainParams : Type 0 where
  pub reason : GoString
  pub deadline : ℤ

-- What `handle` does beside its answer: nothing, a drain with its reason and deadline, or a new
-- registration, which closes the socket.
pub data Effect : Type 0 where
  nothing : Effect
  drains : (reason : GoString) (deadline : ℤ) → Effect
  registers : Registration → Effect

pub record Handled : Type 0 where
  pub answer : Frame
  pub effect : Effect

-- What the client is: the marshalled count in flight, `DrainDeadline`, what `OnReload` returns (`none`
-- where there is no hook), the registration, and how the payload of a /drain is read.
pub record Commands : Type 0 where
  pub in_flight : GoString
  pub drain_deadline : ℤ
  pub on_reload : Option Registration
  pub registration : Registration
  pub read_params : GoString → DrainParams

-- `time.Second`, in nanoseconds.
abbrev second : ℕ
second = 1000000000

-- An int64 that holds `n` after its overflow.
unfoldable pub int64 : ℕ → ℤ
int64 n = let m = n % 2 ^ 64 in if ltb m (2 ^ 63) then pos m else negsuc (2 ^ 64 - 1 - m)

unfoldable pub drain_effect : ℤ → DrainParams → Effect
drain_effect configured p =
    drains (if str_eq p.reason [] then lit "drain" else p.reason) (elim p.deadline [
      | pos n ↦ if n == 0 then configured else int64 (n * second)
      | negsuc n ↦ configured
    ])

unfoldable pub reload_effect : Option Registration → Registration → Effect
reload_effect none cur = nothing
reload_effect (some next) cur = if changed next cur then registers (reload next cur) else nothing

-- `handle`
unfoldable pub handle : Commands → Frame → Handled
handle c f =
    if str_eq f.action (lit "/ping")
    then record { answer = result_to f (some c.in_flight); effect = nothing }
    else if str_eq f.action (lit "/drain")
    then record {
      answer = result_to f none;
      effect = drain_effect c.drain_deadline (c.read_params f.payload);
    }
    else if str_eq f.action (lit "/reload")
    then record { answer = result_to f none; effect = reload_effect c.on_reload c.registration }
    else record { answer = error_to f (pos 404) (lit "unknown action"); effect = nothing }
