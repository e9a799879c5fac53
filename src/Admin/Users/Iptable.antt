-- ===== src/Admin/Users/Iptable.antt =====
-- The table of addresses of admin/users.go, as one text and as its entries.
use go_platform.Base.{
  GoString, List, [], ◌∷◌, ◌≡◌, ◌≢◌, refl, ◌∙◌, ap, arith, str_eq_iff, trim_space, split_at,
  split_at-one, split_at-append, Lacks, All,
}
use go_platform.Host.Address.{elements}
use go_platform.Admin.Users.{split_list, join_list, table_list, table_text}

-- An entry that has no comma, is not empty and has no blanks around it.
abbrev pub IsEntry : GoString → Type 0
IsEntry s = Lacks b',' s × (s ≢ []) × (trim_space s ≡ s)

elements-entries : (l : List GoString) → All IsEntry l → elements l ≡ l
unfolding elements
elements-entries [] h = refl
elements-entries (s ∷ ss) ((lacks, there, bare), hs) =
    ground (arith, elements-entries ss hs, str_eq_iff (trim_space s) [])

split-join :
    (s : GoString) (ss : List GoString)
    → All IsEntry (s ∷ ss)
    → split_at b',' (join_list (s ∷ ss)) ≡ s ∷ ss
unfolding join_list
split-join s [] ((lacks, there, bare), hs) = split_at-one b',' s lacks
split-join s (t ∷ ss) ((lacks, there, bare), hs) =
    split_at-append b',' s (join_list (t ∷ ss)) lacks ∙ ap (λ x. s ∷ x) (split-join t ss hs)

-- What a GET of the table reads of the text that a PUT has written is the list that was put, where each
-- entry is a text without commas and without blanks around it that is not empty.
pub table_list-table_text : (l : List GoString) → All IsEntry l → table_list (table_text l) ≡ l
unfolding table_list table_text split_list
table_list-table_text [] h = refl
table_list-table_text (s ∷ ss) h = ap elements (split-join s ss h) ∙ elements-entries (s ∷ ss) h
