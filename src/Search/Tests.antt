-- ===== src/Search/Tests.antt =====
-- The search array of a list request, and the theorems about it at concrete terms.
use go_platform.Base.{
  GoString, ℕ, Bool, false, [], ◌∷◌, ◌++◌, some, ◌≡◌, refl, ◌↔◌, lit, str_eq, trim_space, strip,
  space_width, space_width_back, is_space, is_space2, is_space3,
}
use go_platform.Query
use go_platform.Query.{Params, no_params}
use go_platform.Search.{Condition, escape_like, plain, plains, group, search_array, search_of}
use go_platform.Search.Like.{Like, Holds, escape_like-Holds}
use go_platform.Search.Meaning.{meaning_of, wanted, meaning-search_of}

searching : Unit {0}
unfolding lit str_eq trim_space strip space_width space_width_back is_space is_space2 is_space3
    escape_like plain plains group search_array search_of
searching = tt

abbrev term_on : GoString → GoString → GoString → GoString → Condition
term_on joined field lstr rstr = record {
  joined = joined;
  field = field;
  compare = lit "IKE";
  value = lit "%50\\%%";
  val_arr = [];
  lstr = lstr;
  rstr = rstr;
}

search_two_fields :
    search_of no_params (lit " 50% ") (lit "code" ∷ lit "label" ∷ [])
    ≡ some
        (term_on [] (lit "code") (lit "(") [] ∷ term_on (lit "OR") (lit "label") [] (lit ")") ∷ [])
unfolding searching
search_two_fields = refl

abbrev lower : ℕ → ℕ
lower c = c

escape_like-Holds_example :
    Like lower false (b'%' ∷ escape_like (lit "50%") ++ b'%' ∷ []) (lit "at 50% now")
    ↔ Holds lower (lit "50%") (lit "at 50% now")
escape_like-Holds_example = escape_like-Holds lower (lit "50%") (lit "at 50% now")

abbrev has_value : Query.Condition → Bool
has_value c = str_eq c.value (lit "%50\\%%")

meaning-search_of_example :
    meaning_of has_value (search_of no_params (lit "50%") (lit "code" ∷ lit "label" ∷ []))
    ≡ wanted has_value no_params (lit "50%") (lit "code" ∷ lit "label" ∷ [])
meaning-search_of_example =
    meaning-search_of has_value no_params (lit "50%") (lit "code" ∷ lit "label" ∷ [])
