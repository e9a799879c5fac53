-- ===== src/Problem/Message.antt =====
-- The cut of a catalogue message, and the status of a catalogue code.
use mathlib.Core.List.{append-nil}
use go_platform.Base.{
  GoString, ℕ, true, ◌&&◌, not, [], ◌∷◌, ◌++◌, some, ◌≡◌, refl, ◌⊎◌, inl, inr, arith, lit,
  cut_prefix, cut_prefix_sound, is_digit, ◌==◌, if◌then◌else◌, all, Option-cases, Bool-cases,
}
use go_platform.Problem.{
  CodeMatch, message_text, match_numbers, find_code, parse_message, group_number, has_status_text,
  status_of_code, from_code,
}

-- The form of a catalogue code: `ERR-GGG-CCC` with three digits each.
pub record IsCode (code : GoString) : Type 0 where
  pub d1 : ℕ
  pub d2 : ℕ
  pub d3 : ℕ
  pub d4 : ℕ
  pub d5 : ℕ
  pub d6 : ℕ
  pub spelled : code ≡ lit "ERR-" ++ d1 ∷ d2 ∷ d3 ∷ b'-' ∷ d4 ∷ d5 ∷ d6 ∷ []
  pub digits :
      (is_digit d1 && is_digit d2 && is_digit d3 && is_digit d4 && is_digit d5 && is_digit d6)
      ≡ true

abbrev pub OneLine : GoString → Type 0
OneLine s = all (λ x. not (x == 10)) s ≡ true

message_text-print : (text : GoString) → OneLine text → message_text (b':' ∷ 32 ∷ text) ≡ some text
unfolding message_text
message_text-print text h = ground arith

match_numbers-print :
    (d1 d2 d3 d4 d5 d6 : ℕ) (rest text : GoString)
    → (is_digit d1 && is_digit d2 && is_digit d3 && is_digit d4 && is_digit d5 && is_digit d6)
      ≡ true
    → message_text rest ≡ some text
    → match_numbers (d1 ∷ d2 ∷ d3 ∷ b'-' ∷ d4 ∷ d5 ∷ d6 ∷ rest)
      ≡ some (record {
        code = lit "ERR-" ++ d1 ∷ d2 ∷ d3 ∷ b'-' ∷ d4 ∷ d5 ∷ d6 ∷ [];
        group = d1 ∷ d2 ∷ d3 ∷ [];
        text = text;
      })
unfolding match_numbers
match_numbers-print d1 d2 d3 d4 d5 d6 rest text h e = ground arith

find_code-print :
    (code text : GoString) (c : IsCode code)
    → OneLine text
    → find_code (code ++ (lit ": " ++ text))
      ≡ some (record { code = code; group = c.d1 ∷ c.d2 ∷ c.d3 ∷ []; text = text })
unfolding find_code lit cut_prefix
find_code-print code text c h = rw c.spelled (
    match_numbers-print c.d1 c.d2 c.d3 c.d4 c.d5 c.d6 (b':' ∷ 32 ∷ text) text c.digits
      (message_text-print text h))

-- A message printed from a code of the form `ERR-GGG-CCC` and a text of one line is cut back into
-- that code and that text.
pub parse_message-print :
    (code text : GoString)
    → IsCode code
    → OneLine text
    → parse_message (code ++ (lit ": " ++ text)) ≡ some (code, text)
unfolding parse_message
parse_message-print code text c h = rw (find_code-print code text c h, parse_message)

message_text_sound :
    (rest text : GoString)
    → message_text rest ≡ some text
    → OneLine text × ((rest ≡ b':' ∷ text) ⊎ (rest ≡ b':' ∷ 32 ∷ text))
unfolding message_text
message_text_sound [] text h = cc
message_text_sound (colon ∷ []) text h = ground arith
message_text_sound (colon ∷ c ∷ s) text h = ground arith

match_numbers-inv :
    (d1 d2 d3 dash d4 d5 d6 : ℕ) (rest : GoString) (m : CodeMatch)
    → match_numbers (d1 ∷ d2 ∷ d3 ∷ dash ∷ d4 ∷ d5 ∷ d6 ∷ rest) ≡ some m
    → (text : GoString) × (message_text rest ≡ some text)
      × (dash ≡ b'-')
      × ((is_digit d1 && is_digit d2 && is_digit d3 && is_digit d4 && is_digit d5 && is_digit d6)
          ≡ true)
      × (m.code ≡ lit "ERR-" ++ d1 ∷ d2 ∷ d3 ∷ b'-' ∷ d4 ∷ d5 ∷ d6 ∷ [])
      × (m.text ≡ text)
unfolding match_numbers
match_numbers-inv d1 d2 d3 dash d4 d5 d6 rest m h = elim (Option-cases (message_text rest)) [
  | inl missed ↦ absurd (ground arith)
  | inr (text, e) ↦ (text, e, ground arith, ground arith, ground arith, ground arith)
]

match_numbers_sound :
    (rest : GoString) (m : CodeMatch)
    → match_numbers rest ≡ some m
    → IsCode m.code
      × OneLine m.text
      × ((lit "ERR-" ++ rest ≡ m.code ++ (lit ":" ++ m.text))
          ⊎ (lit "ERR-" ++ rest ≡ m.code ++ (lit ": " ++ m.text)))
unfolding match_numbers lit
match_numbers_sound (d1 ∷ d2 ∷ d3 ∷ dash ∷ d4 ∷ d5 ∷ d6 ∷ rest) m h =
    let (text, taken, dashed, digits, code, same) =
      match_numbers-inv d1 d2 d3 dash d4 d5 d6 rest m h in
    let (line, shape) = message_text_sound rest text taken in
    (
      record {
        d1 = d1;
        d2 = d2;
        d3 = d3;
        d4 = d4;
        d5 = d5;
        d6 = d6;
        spelled = code;
        digits = digits;
      },
      rw same line,
      elim shape [
        | inl bare ↦ inl (cc (code, same, bare, dashed))
        | inr spaced ↦ inr (cc (code, same, spaced, dashed))
      ],
    )
match_numbers_sound _ m h = cc

find_code_sound :
    (msg : GoString) (m : CodeMatch)
    → find_code msg ≡ some m
    → IsCode m.code
      × OneLine m.text
      × ((msg ≡ m.code ++ (lit ":" ++ m.text)) ⊎ (msg ≡ m.code ++ (lit ": " ++ m.text)))
unfolding find_code
find_code_sound msg m h = elim (Option-cases (cut_prefix (lit "ERR-") msg)) [
  | inl missed ↦ absurd (ground arith)
  | inr (rest, e) ↦
      rw (cut_prefix_sound (lit "ERR-") msg rest e) (match_numbers_sound rest m (ground arith))
]

-- What is cut from a message is a code `ERR-GGG-CCC` and a text of one line, and the message is
-- the code, a colon, at most one blank, and the text.
pub parse_message_sound :
    (msg code text : GoString)
    → parse_message msg ≡ some (code, text)
    → IsCode code
      × OneLine text
      × ((msg ≡ code ++ (lit ":" ++ text)) ⊎ (msg ≡ code ++ (lit ": " ++ text)))
unfolding parse_message
parse_message_sound msg code text h = elim (Option-cases (find_code msg)) [
  | inl missed ↦ absurd (ground arith)
  | inr (m, e) ↦
      let same_code : m.code ≡ code = ground arith in
      let same_text : m.text ≡ text = ground arith in
      rw (← same_code, ← same_text) (find_code_sound msg m e)
]

status_of_code-known : (code : GoString) → has_status_text (status_of_code code) ≡ true
unfolding status_of_code
status_of_code-known code = elim (Option-cases (find_code (code ++ lit ": "))) [
  | inl missed ↦ rw (missed, status_of_code) (unfold has_status_text in refl)
  | inr (m, e) ↦ elim (Bool-cases (has_status_text (group_number m.group))) [
    | inl known ↦ rw (e, status_of_code) (rw known known)
    | inr unknown ↦ rw (e, status_of_code) (rw unknown (unfold has_status_text in refl))
  ]
]

status_of_code-IsCode :
    (code : GoString) (c : IsCode code)
    → status_of_code code
      ≡ (let g = group_number (c.d1 ∷ c.d2 ∷ c.d3 ∷ []) in if has_status_text g then g else 400)
unfolding status_of_code
status_of_code-IsCode code c =
    let cut = find_code-print code [] c refl in rw ((rw append-nil at cut), status_of_code) refl

-- The status of a catalogue problem is the group GGG of its code `ERR-GGG-CCC` exactly when that is
-- a status with a text in net/http, and 400 otherwise; either way it is such a status.
pub from_code-status :
    (code title detail : GoString) (c : IsCode code)
    → ((from_code code title detail).status
        ≡ (let g = group_number (c.d1 ∷ c.d2 ∷ c.d3 ∷ []) in if has_status_text g then g else 400))
      × (has_status_text (from_code code title detail).status ≡ true)
unfolding from_code
from_code-status code title detail c = (status_of_code-IsCode code c, status_of_code-known code)
