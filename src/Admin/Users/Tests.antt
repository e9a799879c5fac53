-- ===== src/Admin/Users/Tests.antt =====
-- A user over the transaction of Rest/Sample, and the theorems at it.
use go_platform.Base.{
  GoString, List, [], ◌∷◌, ◌++◌, none, some, ◌≡◌, refl, lit, str_eq, trim_space, strip, space_width,
  space_width_back, is_space, is_space2, is_space3, if◌then◌else◌, Map, lookup, insert, ◌⊎◌,
}
use go_platform.Rest.Sample.{json}
use go_platform.Rest.Row.{Called, rows, good}
use go_platform.Admin.Users.{
  Users, ProfileBody, hide, hide_all, has_secret, join_list, table_text, table_list,
}
use go_platform.Admin.Users.Steps.{redact}
use go_platform.Admin.Users.Redacted.{redact-IsHidden, IsHidden}
use go_platform.Admin.Users.Iptable.{IsEntry, table_list-table_text}

admin : Unit {0}
unfolding lit str_eq trim_space strip space_width space_width_back is_space is_space2 is_space3
    lookup insert hide hide_all has_secret redact join_list table_text
admin = tt

-- The work is the one row that there is; a profile writes there.
abbrev called : GoString → Map GoString → GoString → Called GoString
called fn args w =
    if str_eq fn (lit "set_user_profile") then rows [] (lit "new") else rows (w ∷ []) w

abbrev no_profile : ProfileBody
no_profile = record {
  family_name = none;
  given_name = none;
  patronymic_name = none;
  locale = none;
  area = none;
  interface = none;
  picture = none;
}

-- A body is an object with a password and a name.
abbrev decoded : Map GoString
decoded = (lit "password", lit "\"p\"") ∷ (lit "name", lit "\"n\"") ∷ []

abbrev written : Map GoString → GoString
written [] = []
written ((k, v) ∷ m) = k ++ (lit "=" ++ (v ++ (lit ";" ++ written m)))

abbrev users : Users GoString GoString
users = record {
  id_value = λ id. lit "id";
  text_value = λ s. lit "text";
  flag_value = λ b. lit "flag";
  json = json;
  array = λ rs. lit "[]";
  read_map = λ s. some decoded;
  write_map = written;
  read_profile = λ s. good no_profile;
  no_profile = no_profile;
  read_passwords = λ s. good (record { old_password = none; new_password = none });
  read_table = λ s. good (record { allow = []; deny = [] });
  write_table = λ t. lit "{}";
  list_of = λ s. some none;
  read_member = λ s. good [];
  api = called;
}

hidden : redact users (lit "{}") ≡ lit "password=\"***\";name=\"n\";"
unfolding admin
hidden = refl

redact-IsHidden_example :
    ((users.read_map (lit "{}") ≡ none) × (redact users (lit "{}") ≡ lit "{}"))
    ⊎ ((m n : Map GoString) × (users.read_map (lit "{}") ≡ some m)
        × IsHidden m n
        × (((redact users (lit "{}") ≡ lit "{}") × (n ≡ m))
            ⊎ (redact users (lit "{}") ≡ users.write_map n)))
redact-IsHidden_example = redact-IsHidden users (lit "{}")

abbrev addresses : List GoString
addresses = lit "192.168.1.1" ∷ lit "10.0.0.1-10.0.0.5" ∷ []

joined : table_text addresses ≡ some (lit "192.168.1.1,10.0.0.1-10.0.0.5")
unfolding admin
joined = refl

local-IsEntry : IsEntry (lit "::1")
unfolding admin
local-IsEntry = ((refl, (refl, (refl, tt))), λ e. absurd (cc e), refl)

near-IsEntry : IsEntry (lit "::2")
unfolding admin
near-IsEntry = ((refl, (refl, (refl, tt))), λ e. absurd (cc e), refl)

table_list-table_text_example :
    table_list (table_text (lit "::1" ∷ lit "::2" ∷ [])) ≡ lit "::1" ∷ lit "::2" ∷ []
table_list-table_text_example =
    table_list-table_text (lit "::1" ∷ lit "::2" ∷ []) (local-IsEntry, (near-IsEntry, tt))
