-- ===== src/Frame/Tests.antt =====
-- Frames of a heartbeat, a call and an error, and the theorems at them.
use go_platform.Base.{
  GoString, ◌≤◌, true, [], Option, none, some, ◌≡◌, refl, inl, arith, lit, str_eq, cut_prefix,
  has_prefix, trim_space, strip, space_width, space_width_back, is_space, is_space2, is_space3,
  length, if◌then◌else◌, pos, is_uuid, uuid_from, uuid_byte, is_hex,
}
use go_platform.Frame.{
  call, max_size, Frame, Wire, ok, err, ◌>>=◌, code_of, payload_of, parse_wire, parse,
  object_or_empty, wire_of, encode, new_id, hex_bytes, hex_digit, bad_action, new_call,
  payload_or_empty,
}
use go_platform.Frame.RoundTrip.{IsSendable, canonical, parse-encode}

frames : Unit {0}
unfolding lit str_eq cut_prefix has_prefix trim_space strip space_width space_width_back is_space
    is_space2 is_space3 is_uuid uuid_from uuid_byte is_hex code_of payload_of parse_wire parse
    object_or_empty wire_of encode new_id hex_bytes hex_digit new_call payload_or_empty
frames = tt

abbrev id : GoString
id = lit "0b5c7a1e-3f21-4d5a-9c44-1a2b3c4d5e6f"

new_id_bytes :
    new_id 11 92 122 30 63 33 13 90 28 68 26 43 60 77 94 255
    ≡ lit "0b5c7a1e-3f21-4d5a-9c44-1a2b3c4d5eff"
unfolding frames
new_id_bytes = refl

abbrev ping : Frame
ping = record {
  type = call;
  id = id;
  action = lit "/ping";
  payload = [];
  code = pos 0;
  message = [];
}

abbrev ping_wire : Wire
ping_wire = record { t = some call; u = id; a = lit "/ping"; p = lit "{}"; c = none; m = [] }

abbrev ping_back : Frame
ping_back = record ping { payload = lit "{}" }

-- The wire record is one text, read back.
abbrev write : Wire → GoString
write w = lit "ping"

abbrev read : GoString → Option Wire
read b = if str_eq b (lit "ping") then some ping_wire else none

ping_sent : wire_of ping ≡ ok ping_wire
unfolding frames
ping_sent = refl

ping_parsed : parse read (lit "ping") ≡ ok ping_back
unfolding frames
ping_parsed = refl

no_slash : parse_wire (record ping_wire { a = lit "ping" }) ≡ err bad_action
unfolding frames
no_slash = refl

id-is_uuid : is_uuid id ≡ true
unfolding frames
id-is_uuid = refl

slash : has_prefix (lit "/ping") (lit "/") ≡ true
unfolding frames
slash = refl

ping-IsSendable : IsSendable ping
ping-IsSendable = record {
  typed = inl refl;
  identified = id-is_uuid;
  routed = λ e. slash;
  payload = inl refl;
}

read_back : read (write ping_wire) ≡ some ping_wire
unfolding frames
read_back = refl

small : length (write ping_wire) ≤ max_size
unfolding frames
small = omega arith

parse-encode_example : (encode write ping >>= parse read) ≡ ok (canonical ping)
parse-encode_example =
    parse-encode read write ping ping_wire ping-IsSendable ping_sent read_back small
