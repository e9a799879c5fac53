-- ===== src/Gateway/Session/Calls/Stopped.antt =====
-- When the reader of a session of lib/gatewayclient stops.
use go_platform.Base.{
  GoString, ℕ, ◌<◌, ℤ, [], ◌∷◌, Option, none, some, ◌≡◌, refl, ◌↔◌, ◌⊎◌, inl, inr, arith, ltb,
  length, ok, err, ◌≢◌, if◌then◌else◌,
}
use go_platform.Frame.{
  Frame, Wire, FrameError, Result, too_large, parse, parse_wire, code_of, payload_of, max_size,
}
use go_platform.Gateway.Session.Calls.{
  Inbound, read_error, binary, text, Reaction, stops, react_parsed, react,
}

code_of-small : (t : ℤ) (a : GoString) (c : Option ℤ) → code_of t a c ≢ err too_large
unfolding code_of
code_of-small t a c h = ground arith

payload_of-small : (p : GoString) → payload_of p ≢ err too_large
unfolding payload_of
payload_of-small [] h = cc
payload_of-small (x ∷ p) h = ground arith

parse_wire-small : (w : Wire) → parse_wire w ≢ err too_large
unfolding parse_wire
parse_wire-small w h = grind (arith, code_of-small, payload_of-small)

-- A frame is too large for `Parse` exactly where it has more than 64 KiB.
parse-large :
    (unmarshal : GoString → Option Wire) (b : GoString)
    → (parse unmarshal b ≡ err too_large) ↔ (max_size < length b)
unfolding parse
parse-large unmarshal b = (λ h. grind (arith, parse_wire-small), λ h. ground arith)

-- The code with which the reader closes the socket, where it stops.
abbrev pub stopped : Reaction → Option (Option ℕ)
stopped (stops close) = some close
stopped _ = none

-- A read error stops the reader, and so does a text above 64 KiB, with a close 1009.
abbrev pub stop_of : Inbound → Option (Option ℕ)
stop_of read_error = some none
stop_of binary = none
stop_of (text b) = if ltb max_size (length b) then some (some 1009) else none

parsed-stopped :
    (error_text : FrameError → GoString) (id : GoString) (r : Result Frame)
    → ((r ≡ err too_large) × (stopped (react_parsed error_text id r) ≡ some (some 1009)))
      ⊎ ((r ≢ err too_large) × (stopped (react_parsed error_text id r) ≡ none))
unfolding react_parsed
parsed-stopped error_text id (ok f) = inr (λ h. cc, ground arith)
parsed-stopped error_text id (err too_large) = inl (refl, refl)
parsed-stopped error_text id (err other) = inr (λ h. cc, refl)

-- The reader stops exactly on an error of the socket, or on a text above 64 KiB, which it closes with
-- 1009; what is no frame, an answer and a command leave it running.
pub react-stopped :
    (unmarshal : GoString → Option Wire) (error_text : FrameError → GoString) (id : GoString)
    (m : Inbound)
    → stopped (react unmarshal error_text id m) ≡ stop_of m
unfolding react
react-stopped unmarshal error_text id read_error = refl
react-stopped unmarshal error_text id binary = refl
react-stopped unmarshal error_text id (text b) =
    elim (parsed-stopped error_text id (parse unmarshal b)) [
      | inl (large, e) ↦ ground (arith, (parse-large unmarshal b).0 large)
      | inr (small, e) ↦
          ground (arith, λ (h : max_size < length b). small ((parse-large unmarshal b).1 h))
    ]
