-- ===== src/Search/Meaning.antt =====
-- The meaning of the search array, read from the left: a condition is joined to what stands before
-- it by AND, or by OR where it says so, and a bracket makes a group of what it holds.
use mathlib.Core.List.{append-nil}
use go_platform.Base.{
  GoString, Bool, true, false, ◌&&◌, ◌||◌, List, [], ◌∷◌, ◌++◌, Option, none, some, ◌≡◌, refl, sym,
  ◌∙◌, ap, arith, lit, str_eq, if◌then◌else◌, trim_space, any, all, Bool-cases, inl, inr,
  str_eq_sound,
}
use go_platform.Query
use go_platform.Query.{Params}
use go_platform.Search.{Condition, escape_like, plain, plains, group, search_array, search_of}

-- What was read: the value outside any bracket, and the value inside an open one.
record Reading : Type 0 where
  outer : Bool
  inner : Option Bool

-- The test that a condition makes of a row, without its place in the array.
abbrev test_of : Condition → Query.Condition
test_of c = record { field = c.field; compare = c.compare; value = c.value; val_arr = c.val_arr }

and_true : (b : Bool) → (b && true) ≡ b
and_true b = ground arith

and_assoc : (a b c : Bool) → ((a && b) && c) ≡ (a && (b && c))
and_assoc a b c = ground arith

or_assoc : (a b c : Bool) → ((a || b) || c) ≡ (a || (b || c))
or_assoc a b c = ground arith

or_false : (b : Bool) → (b || false) ≡ b
or_false b = ground arith

module _ (holds : Query.Condition → Bool) where
  join : Condition → Bool → Bool
  join c before =
      if str_eq c.joined (lit "OR")
      then before || holds (test_of c)
      else before && holds (test_of c)

  open_group : Condition → Reading → Option Bool
  open_group c r =
      if str_eq c.lstr (lit "(")
      then some (holds (test_of c))
      else elim r.inner [ none ↦ none | some before ↦ some (join c before) ]

  close_group : Condition → Bool → Option Bool → Reading
  close_group c outer none = record { outer = join c outer; inner = none }
  close_group c outer (some value) =
      if str_eq c.rstr (lit ")")
      then record { outer = outer && value; inner = none }
      else record { outer = outer; inner = some value }

  read : Reading → List Condition → Reading
  read r [] = r
  read r (c ∷ cs) = read (close_group c r.outer (open_group c r)) cs

  pub meaning : List Condition → Bool
  meaning cs = (read (record { outer = true; inner = none }) cs).outer

  -- Every filter holds.
  abbrev pub all_hold : List Query.Condition → Bool
  all_hold cs = all holds cs

  -- Some field is ILIKE the pattern.
  abbrev pub field_matches : GoString → GoString → Bool
  field_matches value f =
      holds (record { field = f; compare = lit "IKE"; value = value; val_arr = [] })

  abbrev pub any_matches : GoString → List GoString → Bool
  any_matches value fields = any (field_matches value) fields

  read-plains :
      (outer : Bool) (cs : List Query.Condition) (rest : List Condition)
      → read (record { outer = outer; inner = none }) (plains cs ++ rest)
        ≡ read (record { outer = outer && all_hold cs; inner = none }) rest
  unfolding read open_group close_group join plains plain str_eq lit
  read-plains outer [] rest = rw and_true
  read-plains outer (c ∷ cs) rest = read-plains (outer && holds c) cs rest ∙ rw and_assoc

  -- The rest of a group behind its first field.
  read-group_rest :
      (value : GoString) (outer before : Bool) (f : GoString) (fs : List GoString)
      → read (record { outer = outer; inner = some before }) (group value false (f ∷ fs))
        ≡ record { outer = outer && (before || any_matches value (f ∷ fs)); inner = none }
  unfolding read open_group close_group join group str_eq lit
  read-group_rest value outer before f [] = rw or_false
  read-group_rest value outer before f (g ∷ fs) =
      read-group_rest value outer (before || field_matches value f) g fs ∙ rw or_assoc

  read-group :
      (value : GoString) (outer : Bool) (f : GoString) (fs : List GoString)
      → read (record { outer = outer; inner = none }) (group value true (f ∷ fs))
        ≡ record { outer = outer && any_matches value (f ∷ fs); inner = none }
  unfolding read open_group close_group join group str_eq lit
  read-group value outer f [] = rw or_false
  read-group value outer f (g ∷ fs) = read-group_rest value outer _ g fs

  meaning-group :
      (value : GoString) (cs : List Query.Condition) (f : GoString) (fs : List GoString)
      → meaning (plains cs ++ group value true (f ∷ fs))
        ≡ (all_hold cs && any_matches value (f ∷ fs))
  unfolding meaning
  meaning-group value cs f fs =
      ap (λ (r : Reading). r.outer)
        (read-plains true cs (group value true (f ∷ fs)) ∙ read-group value (all_hold cs) f fs)

  read_nil : (b : Bool) → (read (record { outer = b; inner = none }) []).outer ≡ b
  unfolding read
  read_nil b = refl

  meaning-plains : (cs : List Query.Condition) → meaning (plains cs) ≡ all_hold cs
  unfolding meaning
  meaning-plains cs =
      ap (λ l. (read (record { outer = true; inner = none }) l).outer)
        (sym (append-nil (plains cs)))
      ∙ ap (λ (r : Reading). r.outer) (read-plains true cs [])
      ∙ read_nil (all_hold cs)

-- No array means no restriction.
abbrev pub meaning_of : (Query.Condition → Bool) → Option (List Condition) → Bool
meaning_of holds none = true
meaning_of holds (some cs) = meaning holds cs

-- What a list request asks for: every filter, and, where the trimmed term is not empty and there
-- are fields to search, some field ILIKE the escaped term between two `%`.
abbrev pub wanted : (Query.Condition → Bool) → Params → GoString → List GoString → Bool
wanted holds p q [] = all_hold holds p.search
wanted holds p q (f ∷ fs) =
    all_hold holds p.search
    && (str_eq (trim_space q) []
        || any_matches holds (b'%' ∷ escape_like (trim_space q) ++ b'%' ∷ []) (f ∷ fs))

module _ (holds : Query.Condition → Bool) where
  search_array-blank :
      (cs : List Query.Condition) (fields : List GoString)
      → meaning_of holds (search_array cs [] fields) ≡ all_hold holds cs
  unfolding search_array str_eq
  search_array-blank [] fields = refl
  search_array-blank (c ∷ cs) fields = meaning-plains holds (c ∷ cs)

  search_array-group :
      (cs : List Query.Condition) (term f : GoString) (fs : List GoString)
      → str_eq term [] ≡ false
      → meaning_of holds (search_array cs term (f ∷ fs))
        ≡ (all_hold holds cs && any_matches holds (b'%' ∷ escape_like term ++ b'%' ∷ []) (f ∷ fs))
  unfolding search_array
  search_array-group [] term f fs h = rw h (meaning-group holds _ [] f fs)
  search_array-group (c ∷ cs) term f fs h = rw h (meaning-group holds _ (c ∷ cs) f fs)

-- The array of `SearchOf`, read from the left with its brackets, holds of a row exactly when
-- every filter does and, for a term and fields to search, some field matches the term.
pub meaning-search_of :
    (holds : Query.Condition → Bool) (p : Params) (q : GoString) (fields : List GoString)
    → meaning_of holds (search_of p q fields) ≡ wanted holds p q fields
unfolding search_of
meaning-search_of holds p q [] = search_array-blank holds p.search []
meaning-search_of holds p q (f ∷ fs) = elim (Bool-cases (str_eq (trim_space q) [])) [
  | inl blank ↦ rw blank (
      ap (λ t. meaning_of holds (search_array p.search t (f ∷ fs))) (str_eq_sound _ _ blank)
      ∙ search_array-blank holds p.search (f ∷ fs)
      ∙ sym (and_true (all_hold holds p.search)))
  | inr termed ↦ rw termed (search_array-group holds p.search (trim_space q) f fs termed)
]
