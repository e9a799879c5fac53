-- ===== src/Search.antt =====
-- lib/entity/search.go: the search array of a list request, the translated filters and the group
-- of the free text `q`. The array stands for its JSON text.
pub mod Like
pub mod Meaning
mod Tests
use go_platform.Base.{
  GoString, Bool, true, false, List, [], ◌∷◌, ◌++◌, Option, none, some, lit, str_eq, ◌==◌, ◌&&◌,
  ◌||◌, if◌then◌else◌, trim_space,
}
use go_platform.Query
use go_platform.Query.{Params}

-- `condition` of this package: lib/query's with the three columns of a bracketed group.
pub record Condition : Type 0 where
  pub joined : GoString
  pub field : GoString
  pub compare : GoString
  pub value : GoString
  pub val_arr : List GoString
  pub lstr : GoString
  pub rstr : GoString

-- `strings.NewReplacer` with three patterns of one byte: one pass over the text.
unfoldable pub escape_like : GoString → GoString
escape_like [] = []
escape_like (c ∷ s) =
    if c == 92 || c == b'%' || c == b'_' then 92 ∷ c ∷ escape_like s else c ∷ escape_like s

-- A filter of lib/query in this package's form.
unfoldable pub plain : Query.Condition → Condition
plain c = record {
  joined = [];
  field = c.field;
  compare = c.compare;
  value = c.value;
  val_arr = c.val_arr;
  lstr = [];
  rstr = [];
}

unfoldable pub plains : List Query.Condition → List Condition
plains [] = []
plains (c ∷ cs) = plain c ∷ plains cs

-- The loop over the fields; `first` is `i == 0`, and the last field has nothing behind it.
unfoldable pub group : GoString → Bool → List GoString → List Condition
group value first [] = []
group value first (f ∷ fs) =
    record {
      joined = if first then [] else lit "OR";
      field = f;
      compare = lit "IKE";
      value = value;
      val_arr = [];
      lstr = if first then lit "(" else [];
      rstr = elim fs [ [] ↦ lit ")" | _ ∷ _ ↦ [] ];
    }
    ∷ group value false fs

-- The array of the filters and a term that is already trimmed.
unfoldable pub search_array :
    List Query.Condition → GoString → List GoString → Option (List Condition)
search_array cs term fields =
    let value = b'%' ∷ escape_like term ++ b'%' ∷ [] in
    let no_filters : Bool = elim cs [ [] ↦ true | _ ∷ _ ↦ false ] in
    if no_filters && str_eq term []
    then none
    else if str_eq term []
    then some (plains cs)
    else some (plains cs ++ group value true fields)

-- `SearchOf`; `none` is the nil of "nothing to search".
unfoldable pub search_of : Params → GoString → List GoString → Option (List Condition)
search_of p q [] = search_array p.search [] []
search_of p q (f ∷ fs) = search_array p.search (trim_space q) (f ∷ fs)
