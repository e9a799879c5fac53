-- ===== src/Gateway/Session/Commands/Settled.antt =====
-- The registration that a /reload of lib/gatewayclient leaves, and the answers of `handle`.
use go_platform.Base.{
  GoString, Bool, true, false, ◌||◌, List, [], ◌∷◌, lit, str_eq, Bool-cases, str_eq_iff, ◌≡◌, ◌≢◌,
  refl, arith, if◌then◌else◌, pos, int_eq, int_eq_iff, ◌↔◌, ◌⊎◌, inl, inr, sym, ap, ◌∙◌,
}
use go_platform.Frame.{Frame, call_result, call_error, result_to, error_to}
use go_platform.Gateway.Session.Commands.{
  Registration, equal, is_empty, changed, reload, nothing, Commands, handle,
}

equal_iff : (a b : List GoString) → (equal a b ≡ true) ↔ (a ≡ b)
unfolding equal
equal_iff [] [] = (λ h. refl, λ h. refl)
equal_iff [] (y ∷ b) = (λ h. cc, λ h. cc)
equal_iff (x ∷ a) [] = (λ h. cc, λ h. cc)
equal_iff (x ∷ a) (y ∷ b) = (
  λ h. ground (arith, equal_iff a b, str_eq_iff x y),
  λ h. ground (arith, equal_iff a b, str_eq_iff x y),
)

module _ (next cur : Registration) where
  -- The fields that a /reload leaves.
  reload-address :
      (reload next cur).address ≡ (if str_eq next.address [] then cur.address else next.address)
  unfolding reload changed
  reload-address = ground (arith, str_eq_iff next.address cur.address)

  reload-capacity :
      (reload next cur).capacity
      ≡ (if int_eq next.capacity (pos 0) then cur.capacity else next.capacity)
  unfolding reload changed
  reload-capacity = elim (Bool-cases (int_eq next.capacity (pos 0))) [
    | inl zeroed ↦ rw zeroed (ground arith)
    | inr given ↦ rw given (ground (arith, int_eq_iff next.capacity cur.capacity))
  ]

  reload-prefixes :
      (reload next cur).prefixes ≡ (if is_empty next.prefixes then cur.prefixes else next.prefixes)
  unfolding reload changed
  reload-prefixes = ground (arith, equal_iff next.prefixes cur.prefixes)

  changed-moves : changed next cur ≡ true → reload next cur ≢ cur
  unfolding changed
  changed-moves h e = ground (
    arith,
    sym reload-address ∙ ap (λ r. r.address) e,
    sym reload-capacity ∙ ap (λ r. r.capacity) e,
    sym reload-prefixes ∙ ap (λ r. r.prefixes) e,
    str_eq_iff next.address cur.address,
    int_eq_iff next.capacity cur.capacity,
    equal_iff next.prefixes cur.prefixes,
  )

  reload-fixed : changed next cur ≡ false → reload next cur ≡ cur
  unfolding reload
  reload-fixed h = ground arith

-- A /reload re-registers exactly where it leaves another registration than there was, and each field of
-- it is the one that the hook gave, unless that is empty or zero: then it is the one that there was.
pub reload-changed :
    (next cur : Registration)
    → ((changed next cur ≡ true) ↔ (reload next cur ≢ cur))
      × ((reload next cur).address ≡ (if str_eq next.address [] then cur.address else next.address))
      × ((reload next cur).capacity
          ≡ (if int_eq next.capacity (pos 0) then cur.capacity else next.capacity))
      × ((reload next cur).prefixes
          ≡ (if is_empty next.prefixes then cur.prefixes else next.prefixes))
reload-changed next cur = (
  (
    changed-moves next cur,
    λ moved. elim (Bool-cases (changed next cur)) [
      | inl yes' ↦ yes'
      | inr same ↦ absurd (moved (reload-fixed next cur same))
    ],
  ),
  reload-address next cur,
  reload-capacity next cur,
  reload-prefixes next cur,
)

-- The same hook again changes nothing, so that a second /reload does not close the socket.
pub reload-settles : (next cur : Registration) → changed next (reload next cur) ≡ false
unfolding changed
reload-settles next cur = ground (
  arith,
  reload-address next cur,
  reload-capacity next cur,
  reload-prefixes next cur,
  str_eq_iff next.address (reload next cur).address,
  int_eq_iff next.capacity (reload next cur).capacity,
  equal_iff next.prefixes (reload next cur).prefixes,
)

abbrev pub is_command : GoString → Bool
is_command a = str_eq a (lit "/ping") || str_eq a (lit "/drain") || str_eq a (lit "/reload")

-- Every CALL of the gateway is answered under its own identifier: a command by a CALLRESULT, anything
-- else by a CALLERROR 404, which has no effect.
pub handle-answers :
    (c : Commands) (f : Frame)
    → ((handle c f).answer.id ≡ f.id)
      × ((handle c f).answer.type ≡ (if is_command f.action then call_result else call_error))
      × ((handle c f).answer.code ≡ (if is_command f.action then pos 0 else pos 404))
      × ((is_command f.action ≡ true) ⊎ ((handle c f).effect ≡ nothing))
unfolding handle result_to error_to
handle-answers c f = (ground arith, ground arith, ground arith, ground arith)
