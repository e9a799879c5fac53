-- ===== src/Frame.antt =====
-- lib/gateway/frame/frame.go: the JSON frame of the gateway's control plane. `encoding/json` is a
-- parameter, a reader and a writer of the wire record; an absent string is "".
pub mod RoundTrip
pub mod Identifier
mod Tests
pub use go_platform.Base.{Fallible, ok, err, ◌>>=◌, ◌>>◌, >>=-eq-ok}
use go_platform.Base.{
  GoString, ℕ, ◌+◌, ◌*◌, ◌/◌, ◌%◌, Bool, true, false, ◌&&◌, not, List, [], ◌∷◌, ◌++◌, Option, none,
  some, ◌≡◌, refl, lit, str_eq, has_prefix, trim_space, length, ltb, ◌==◌, if◌then◌else◌, ℤ, pos,
  negsuc, int_eq, is_uuid, is_hex,
}

-- The message types of the field t.
abbrev pub call : ℤ
call = pos 2

abbrev pub call_result : ℤ
call_result = pos 3

abbrev pub call_error : ℤ
call_error = pos 4

-- 64 KiB.
abbrev pub max_size : ℕ
max_size = 65536

pub record Frame : Type 0 where
  pub type : ℤ
  pub id : GoString
  pub action : GoString
  pub payload : GoString
  pub code : ℤ
  pub message : GoString

-- `wire`: what `json.Unmarshal` fills and `json.Marshal` takes.
pub record Wire : Type 0 where
  pub t : Option ℤ
  pub u : GoString
  pub a : GoString
  pub p : GoString
  pub c : Option ℤ
  pub m : GoString

pub data FrameError : Type 0 where
  too_large not_json missing_t not_uuid bad_action missing_c bad_type bad_payload : FrameError

abbrev pub Result {ℓ} : Type ℓ → Type ℓ
Result = Fallible FrameError

-- The `switch` on the type: the checks of each type, and the code where the type has one.
unfoldable pub code_of : ℤ → GoString → Option ℤ → Result ℤ
code_of t action c =
    if int_eq t call
    then (if has_prefix action (lit "/") then ok (pos 0) else err bad_action)
    else if int_eq t call_result
    then ok (pos 0)
    else if int_eq t call_error
    then (elim c [ none ↦ err missing_c | some n ↦ ok n ])
    else err bad_type

-- The `switch` on the payload.
unfoldable pub payload_of : GoString → Result GoString
payload_of [] = ok (lit "{}")
payload_of (x ∷ p) =
    if str_eq (x ∷ p) (lit "null")
    then ok (lit "{}")
    else if x == b'{'
    then ok (x ∷ p)
    else err bad_payload

unfoldable pub parse_wire : Wire → Result Frame
parse_wire w = elim w.t [
  | none ↦ err missing_t
  | some t ↦ if not (is_uuid w.u) then err not_uuid else do
    code ← code_of t w.a w.c
    payload ← payload_of (trim_space w.p)
    ok (record { type = t; id = w.u; action = w.a; payload = payload; code = code; message = w.m })
]

-- `Parse`, over a reader of JSON.
unfoldable pub parse : (GoString → Option Wire) → GoString → Result Frame
parse unmarshal b =
    if ltb max_size (length b)
    then err too_large
    else elim (unmarshal b) [ none ↦ err not_json | some w ↦ parse_wire w ]

abbrev empty_wire : Frame → Wire
empty_wire f = record { t = some f.type; u = f.id; a = []; p = []; c = none; m = [] }

unfoldable pub object_or_empty : GoString → GoString
object_or_empty [] = lit "{}"
object_or_empty (c ∷ p) = c ∷ p

-- The wire record that `Encode` marshals.
unfoldable pub wire_of : Frame → Result Wire
wire_of f =
    if int_eq f.type call
    then ok (record (empty_wire f) { a = f.action; p = object_or_empty f.payload })
    else if int_eq f.type call_result
    then ok (record (empty_wire f) { p = object_or_empty f.payload })
    else if int_eq f.type call_error
    then ok (record (empty_wire f) { c = some f.code; m = f.message })
    else err bad_type

-- `Encode`, over a writer of JSON.
unfoldable pub encode : (Wire → GoString) → Frame → Result GoString
encode marshal f = do w ← wire_of f; ok (marshal w)

-- `NewCall`, `Result` and `Error`: `payload` is the marshalled JSON, `none` for nil.
unfoldable pub payload_or_empty : Option GoString → GoString
payload_or_empty none = lit "{}"
payload_or_empty (some p) = p

unfoldable pub new_call : GoString → GoString → Option GoString → Frame
new_call id action payload = record {
  type = call;
  id = id;
  action = action;
  payload = payload_or_empty payload;
  code = pos 0;
  message = [];
}

unfoldable pub result_to : Frame → Option GoString → Frame
result_to f payload = record {
  type = call_result;
  id = f.id;
  action = [];
  payload = payload_or_empty payload;
  code = pos 0;
  message = [];
}

unfoldable pub error_to : Frame → ℤ → GoString → Frame
error_to f code msg = record {
  type = call_error;
  id = f.id;
  action = [];
  payload = [];
  code = code;
  message = msg;
}

-- `%x` of a byte: two lower-case digits.
unfoldable pub hex_digit : ℕ → ℕ
hex_digit n = if ltb n 10 then n + 48 else n + 87

unfoldable pub hex_bytes : List ℕ → GoString
hex_bytes [] = []
hex_bytes (b ∷ bs) = hex_digit (b / 16) ∷ hex_digit (b % 16) ∷ hex_bytes bs

-- `NewID` from its sixteen random bytes: the version 4 in byte 6, the variant in byte 8.
unfoldable pub new_id : (b0 b1 b2 b3 b4 b5 b6 b7 b8 b9 b10 b11 b12 b13 b14 b15 : ℕ) → GoString
new_id b0 b1 b2 b3 b4 b5 b6 b7 b8 b9 b10 b11 b12 b13 b14 b15 =
    hex_bytes (b0 ∷ b1 ∷ b2 ∷ b3 ∷ [])
    ++ (b'-' ∷ hex_bytes (b4 ∷ b5 ∷ []))
    ++ (b'-' ∷ hex_bytes ((b6 % 16 + 0x40) ∷ b7 ∷ []))
    ++ (b'-' ∷ hex_bytes ((b8 % 64 + 0x80) ∷ b9 ∷ []))
    ++ (b'-' ∷ hex_bytes (b10 ∷ b11 ∷ b12 ∷ b13 ∷ b14 ∷ b15 ∷ []))
