-- ===== src/Frame/RoundTrip.antt =====
-- `Parse` and `Encode` of lib/gateway/frame/frame.go together.
use mathlib.Core.Path.{subst}
use go_platform.Base.{
  GoString, ◌≤◌, true, [], ◌∷◌, Option, none, some, ◌≡◌, refl, sym, ◌⊎◌, arith, lit, str_eq,
  has_prefix, trim_space, strip, space_width, space_width_back, is_space, is_space2, is_space3,
  length, if◌then◌else◌, ℤ, pos, int_eq, int_eq_iff, is_uuid, inl, inr, Bool-cases, Option-cases,
}
use go_platform.Frame.{
  call, call_result, call_error, max_size, Frame, Wire, ok, ◌>>=◌, >>=-eq-ok, code_of, payload_of,
  parse_wire, parse, object_or_empty, wire_of, encode,
}

-- A JSON object, as far as the source looks: it begins with a brace.
abbrev pub IsObject : GoString → Type 0
IsObject p = (rest : GoString) × (p ≡ b'{' ∷ rest)

-- The frame that is made of a wire record.
abbrev parsed : ℤ → Wire → ℤ → GoString → Frame
parsed t w code payload = record {
  type = t;
  id = w.u;
  action = w.a;
  payload = payload;
  code = code;
  message = w.m;
}

-- One of the three types with what the type needs.
pub record IsFrame (f : Frame) : Type 0 where
  pub typed : (f.type ≡ call) ⊎ ((f.type ≡ call_result) ⊎ (f.type ≡ call_error))
  pub identified : is_uuid f.id ≡ true
  pub routed : f.type ≡ call → has_prefix f.action (lit "/") ≡ true
  pub object : IsObject f.payload

payload_of-IsObject : (raw p : GoString) → payload_of raw ≡ ok p → IsObject p
unfolding payload_of lit
payload_of-IsObject [] p h = (b'}' ∷ [], ground arith)
payload_of-IsObject (x ∷ raw) p h = elim (Bool-cases (str_eq (x ∷ raw) (lit "null"))) [
  | inl null ↦ (b'}' ∷ [], ground arith)
  | inr other ↦ (raw, ground arith)
]

module _ (t : ℤ) (action : GoString) (c : Option ℤ) (n : ℤ) where
  code_of-typed : code_of t action c ≡ ok n → (t ≡ call) ⊎ ((t ≡ call_result) ⊎ (t ≡ call_error))
  unfolding code_of
  code_of-typed h =
      ground (arith, int_eq_iff t call, int_eq_iff t call_result, int_eq_iff t call_error)

  code_of-routed : code_of t action c ≡ ok n → t ≡ call → has_prefix action (lit "/") ≡ true
  unfolding code_of
  code_of-routed h e = ground (arith, int_eq_iff t call)

parse_wire-IsFrame : (w : Wire) (f : Frame) → parse_wire w ≡ ok f → IsFrame f
unfolding parse_wire
parse_wire-IsFrame w f h = elim (Option-cases w.t) [
  | inl missed ↦ absurd (ground arith)
  | inr (t, e) ↦ elim (Bool-cases (is_uuid w.u)) [
    | inr other ↦ absurd (ground arith)
    | inl known ↦
        let (code, coded, h1) =
          >>=-eq-ok (code_of t w.a w.c)
            (λ code. payload_of (trim_space w.p) >>= λ payload. ok (parsed t w code payload))
            {b = f} (ground arith) in
        let (payload, taken, h2) =
          >>=-eq-ok (payload_of (trim_space w.p)) (λ payload. ok (parsed t w code payload)) h1 in
        let same : parsed t w code payload ≡ f = cc h2 in
        subst IsFrame same (record {
          typed = code_of-typed t w.a w.c code coded;
          identified = known;
          routed = code_of-routed t w.a w.c code coded;
          object = payload_of-IsObject (trim_space w.p) payload taken;
        })
  ]
]

-- A frame that `Parse` accepts has one of the three types, a UUID, an action that begins with a
-- slash if it is a CALL, and an object as its payload, and its text is at most 64 KiB.
pub parse-IsFrame :
    (unmarshal : GoString → Option Wire) (b : GoString) (f : Frame)
    → parse unmarshal b ≡ ok f
    → IsFrame f × (length b ≤ max_size)
unfolding parse
parse-IsFrame unmarshal b f h = elim (Option-cases (unmarshal b)) [
  | inl missed ↦ absurd (ground arith)
  | inr (w, e) ↦ (parse_wire-IsFrame w f (ground arith), ground arith)
]

-- What the receiver sees of a frame: only the fields of its type, and an object as payload.
unfoldable pub canonical : Frame → Frame
canonical f = record f {
  action = if int_eq f.type call then f.action else [];
  payload = if int_eq f.type call_error then lit "{}" else object_or_empty f.payload;
  code = if int_eq f.type call_error then f.code else pos 0;
  message = if int_eq f.type call_error then f.message else [];
}

-- The wire record of a frame of one of the three types.
sent_wire : Frame → Wire
sent_wire f = record {
  t = some f.type;
  u = f.id;
  a = if int_eq f.type call then f.action else [];
  p = if int_eq f.type call_error then [] else object_or_empty f.payload;
  c = if int_eq f.type call_error then some f.code else none;
  m = if int_eq f.type call_error then f.message else [];
}

-- The payload is absent, or an object with no white space round it.
abbrev pub IsPayload : GoString → Type 0
IsPayload p = (p ≡ []) ⊎ (IsObject p × (trim_space p ≡ p))

pub record IsSendable (f : Frame) : Type 0 where
  pub typed : (f.type ≡ call) ⊎ ((f.type ≡ call_result) ⊎ (f.type ≡ call_error))
  pub identified : is_uuid f.id ≡ true
  pub routed : f.type ≡ call → has_prefix f.action (lit "/") ≡ true
  pub payload : IsPayload f.payload

wire_of-sent_wire : (f : Frame) → IsSendable f → wire_of f ≡ ok (sent_wire f)
unfolding wire_of sent_wire
wire_of-sent_wire f s =
    ground
      (arith, int_eq_iff f.type call, int_eq_iff f.type call_result, int_eq_iff f.type call_error)

payload_of-nothing : payload_of (trim_space []) ≡ ok (lit "{}")
unfolding payload_of trim_space strip
payload_of-nothing = refl

payload_of-empty : payload_of (trim_space (lit "{}")) ≡ ok (lit "{}")
unfolding payload_of lit str_eq trim_space strip space_width space_width_back is_space is_space2
    is_space3
payload_of-empty = refl

payload_of-object : (rest : GoString) → payload_of (b'{' ∷ rest) ≡ ok (b'{' ∷ rest)
unfolding payload_of lit str_eq
payload_of-object rest = refl

payload_of-sent :
    (p : GoString)
    → IsPayload p
    → payload_of (trim_space (object_or_empty p)) ≡ ok (object_or_empty p)
unfolding object_or_empty
payload_of-sent [] h = payload_of-empty
payload_of-sent (c ∷ p) (inl e) = absurd (cc)
payload_of-sent (c ∷ p) (inr ((rest, e), trimmed)) =
    rw trimmed (subst (λ x. payload_of x ≡ ok x) (sym e) (payload_of-object rest))

code_of-sent :
    (f : Frame)
    → IsSendable f
    → code_of f.type (sent_wire f).a (sent_wire f).c ≡ ok (canonical f).code
unfolding code_of sent_wire canonical
code_of-sent f s =
    ground
      (arith, int_eq_iff f.type call, int_eq_iff f.type call_result, int_eq_iff f.type call_error)

payload_of-sent_wire :
    (f : Frame) → IsSendable f → payload_of (trim_space (sent_wire f).p) ≡ ok (canonical f).payload
unfolding sent_wire canonical
payload_of-sent_wire f s = elim (Bool-cases (int_eq f.type call_error)) [
  | inl error ↦ rw error payload_of-nothing
  | inr other ↦ rw other (payload_of-sent f.payload s.payload)
]

parse_wire-sent_wire : (f : Frame) → IsSendable f → parse_wire (sent_wire f) ≡ ok (canonical f)
unfolding parse_wire sent_wire canonical
parse_wire-sent_wire f s = ground (arith, code_of-sent f s, payload_of-sent_wire f s)

-- A frame of one of the three types, whose id is a UUID, whose action begins with a slash where it is a
-- CALL, and whose payload is absent or begins with a brace and has no white space round it: encoded and
-- parsed again it comes back as its canonical form, where JSON reads back the wire record that was
-- written and the text is not above 64 KiB.
pub parse-encode :
    (unmarshal : GoString → Option Wire) (marshal : Wire → GoString) (f : Frame) (w : Wire)
    → IsSendable f
    → wire_of f ≡ ok w
    → unmarshal (marshal w) ≡ some w
    → length (marshal w) ≤ max_size
    → (encode marshal f >>= parse unmarshal) ≡ ok (canonical f)
unfolding encode parse
parse-encode unmarshal marshal f w s e back small =
    ground (arith, wire_of-sent_wire f s, parse_wire-sent_wire f s)
