-- ===== src/Problem.antt =====
-- lib/problem/problem.go: the error body of the module (RFC 9457), the cut of a catalogue message
-- and the challenge of a 401.
pub mod Message
pub mod Challenge
mod Tests
use go_platform.Base.{
  GoString, ℕ, ◌+◌, ◌*◌, ◌-◌, Bool, true, false, ◌&&◌, ◌||◌, not, List, [], ◌∷◌, ◌++◌, Option, none,
  some, lit, cut_prefix, str_eq, is_digit, leb, ltb, ◌==◌, if◌then◌else◌, all,
}

pub record Problem : Type 0 where
  pub type : GoString
  pub title : GoString
  pub status : ℕ
  pub detail : GoString
  pub instance_path : GoString
  pub request_id : GoString
  pub code : Option GoString
  -- a 401 to a request with no bearer: challenge without an error code
  pub no_credentials : Bool

-- The catalogue codes of the refusals that the platform makes itself.
unfoldable pub code_login_failed : GoString
code_login_failed = lit "ERR-401-001"

unfoldable pub code_token_expired : GoString
code_token_expired = lit "ERR-401-008"

unfoldable pub code_json_empty : GoString
code_json_empty = lit "ERR-400-060"

unfoldable pub code_json_key : GoString
code_json_key = lit "ERR-400-061"

-- `New`: a module-side problem with a slug type.
unfoldable pub new : ℕ → GoString → GoString → GoString → Problem
new status slug title detail = record {
  type = lit "urn:apostol:error:" ++ slug;
  title = title;
  status = status;
  detail = detail;
  instance_path = [];
  request_id = [];
  code = none;
  no_credentials = false;
}

unfoldable pub with_code : Problem → GoString → Problem
with_code p code = record p { code = some code }

unfoldable pub without_credentials : Problem → Problem
without_credentials p = record p { no_credentials = true }

-- `Unauthorized`: the catalogue is `nil`, or gives the title of a code with a fallback.
unfoldable pub unauthorized :
    Option (GoString → GoString → GoString) → GoString → GoString → Problem
unauthorized cat code detail =
    let title = lit "Unauthorized" in
    let named : GoString = elim cat [ none ↦ title | some title_of ↦ title_of code title ] in
    with_code (new 401 (lit "unauthorized") named detail) code

-- `Error`: the text of the problem as a Go error.
unfoldable pub error_text : Problem → GoString
error_text p = if str_eq p.detail [] then p.title else p.title ++ (lit ": " ++ p.detail)

-- A match of `codeRe`, `^(ERR-(\d{3})-\d{3}): ?(.*)$`: its three groups.
pub record CodeMatch : Type 0 where
  pub code : GoString
  pub group : GoString
  pub text : GoString

-- `: ?(.*)$`; the dot matches no line feed.
unfoldable pub message_text : GoString → Option GoString
message_text [] = none
message_text (colon ∷ []) = if colon == b':' then some [] else none
message_text (colon ∷ c ∷ s) =
    let text = if c == 32 then s else c ∷ s in
    if colon == b':' && all (λ x. not (x == 10)) text then some text else none

-- `(\d{3})-\d{3}` and what follows it.
unfoldable pub match_numbers : GoString → Option CodeMatch
match_numbers (d1 ∷ d2 ∷ d3 ∷ dash ∷ d4 ∷ d5 ∷ d6 ∷ rest) =
    if is_digit d1
      && is_digit d2
      && is_digit d3
      && dash == b'-'
      && is_digit d4
      && is_digit d5
      && is_digit d6
    then elim (message_text rest) [
      | none ↦ none
      | some text ↦ some (record {
        code = lit "ERR-" ++ d1 ∷ d2 ∷ d3 ∷ dash ∷ d4 ∷ d5 ∷ d6 ∷ [];
        group = d1 ∷ d2 ∷ d3 ∷ [];
        text = text;
      })
    ]
    else none
match_numbers _ = none

unfoldable pub find_code : GoString → Option CodeMatch
find_code msg = elim (cut_prefix (lit "ERR-") msg) [ none ↦ none | some rest ↦ match_numbers rest ]

-- `ParseMessage`: the code and the text, `none` where the source returns `ok` false.
unfoldable pub parse_message : GoString → Option (GoString × GoString)
parse_message msg = elim (find_code msg) [ none ↦ none | some m ↦ some (m.code, m.text) ]

-- `strconv.Atoi` of three digits.
unfoldable pub group_number : GoString → ℕ
group_number (a ∷ b ∷ c ∷ _) = (a - b'0') * 100 + (b - b'0') * 10 + (c - b'0')
group_number _ = 0

abbrev within : ℕ → ℕ → ℕ → Bool
within lo hi n = leb lo n && leb n hi

-- The statuses that have a text in `net/http`.
unfoldable pub has_status_text : ℕ → Bool
has_status_text n =
    within 100 103 n
    || within 200 208 n
    || n == 226
    || within 300 305 n
    || within 307 308 n
    || within 400 418 n
    || within 421 426 n
    || within 428 429 n
    || n == 431
    || n == 451
    || within 500 508 n
    || within 510 511 n

-- The HTTP status of a catalogue code: its group if that is a status, else 400.
unfoldable pub status_of_code : GoString → ℕ
status_of_code code = elim (find_code (code ++ lit ": ")) [
  | none ↦ 400
  | some m ↦ if has_status_text (group_number m.group) then group_number m.group else 400
]

-- `FromCode`: a catalogue problem.
unfoldable pub from_code : GoString → GoString → GoString → Problem
from_code code title detail = record {
  type = lit "urn:apostol:error:" ++ code;
  title = title;
  status = status_of_code code;
  detail = detail;
  instance_path = [];
  request_id = [];
  code = some code;
  no_credentials = false;
}

-- RFC 6750 §3: %x20-21 / %x23-5B / %x5D-7E.
unfoldable pub describable_byte : ℕ → Bool
describable_byte c = not (ltb c 0x20 || ltb 0x7e c || c == b'"' || c == 92)

unfoldable pub describable : GoString → Bool
describable [] = false
describable (c ∷ s) = all describable_byte (c ∷ s)

-- The WWW-Authenticate value of a 401.
unfoldable pub challenge : Problem → GoString
challenge p =
    let described =
      lit "Bearer error=\"invalid_token\""
      ++ (lit ", error_description=\"" ++ (p.detail ++ lit "\"")) in
    if p.no_credentials
    then lit "Bearer"
    else if describable p.detail
    then described
    else lit "Bearer error=\"invalid_token\""
