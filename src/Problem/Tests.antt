-- ===== src/Problem/Tests.antt =====
-- Runs of the message cut at the catalogue's own examples, and the theorems at them.
use go_platform.Base.{GoString, none, some, ◌≡◌, refl, lit, cut_prefix, str_eq, is_digit}
use go_platform.Problem.{
  new, message_text, match_numbers, find_code, parse_message, group_number, has_status_text,
  status_of_code, from_code, challenge,
}
use go_platform.Problem.Message.{IsCode, OneLine}

message : Unit {0}
unfolding lit cut_prefix is_digit str_eq message_text match_numbers find_code parse_message
    group_number has_status_text status_of_code from_code new challenge
message = tt

abbrev code : GoString
code = lit "ERR-403-012"

abbrev detail : GoString
detail = lit "Access denied."

code-IsCode : IsCode code
unfolding message
code-IsCode = record {
  d1 = b'4';
  d2 = b'0';
  d3 = b'3';
  d4 = b'0';
  d5 = b'1';
  d6 = b'2';
  spelled = refl;
  digits = refl;
}

detail-OneLine : OneLine detail
unfolding message
detail-OneLine = refl

cut : parse_message (lit "ERR-403-012: Access denied.") ≡ some (code, detail)
unfolding message
cut = refl

refused : parse_message (lit "ERR-40-012: x") ≡ none
unfolding message
refused = refl
