-- ===== src/Base/Uuid.antt =====
-- The shape of a UUID, twice as the source has it: the loop `isUUID` of lib/gateway/frame and of
-- lib/pgtx, and the regular expression of lib/rest. The loop goes by code points; one above ASCII fails
-- both of its tests, as the bytes of it do.
use Prim.Native.Nat.{ℕ, zero, suc, ◌+◌}
use mathlib.Core.Path.{◌≡◌, refl}
use mathlib.Core.Bool.{Bool, true, false, ◌&&◌, ◌||◌}
use mathlib.Core.List.{List, [], ◌∷◌}
use native.Mathlib.Omega.{arith}
use go_platform.Base.Tests.{leb, ◌==◌, if◌then◌else◌}
use go_platform.Base.Lists.{length}
use go_platform.Base.Text.{GoString}

unfoldable pub is_hex : ℕ → Bool
is_hex c = leb b'0' c && leb c b'9' || leb b'a' c && leb c b'f' || leb b'A' c && leb c b'F'

abbrev is_dash_place : ℕ → Bool
is_dash_place i = i == 8 || i == 13 || i == 18 || i == 23

-- The body of the loop at index `i`.
unfoldable pub uuid_byte : ℕ → ℕ → Bool
uuid_byte i c = if is_dash_place i then c == b'-' else is_hex c

unfoldable pub uuid_from : ℕ → GoString → Bool
uuid_from i [] = true
uuid_from i (c ∷ s) = uuid_byte i c && uuid_from (i + 1) s

unfoldable pub is_uuid : GoString → Bool
is_uuid s = length s == 36 && uuid_from 0 s

-- A regular expression that is a row of single bytes: at each place a dash or a hex digit.
unfoldable pub matches_row : List Bool → GoString → Bool
matches_row [] [] = true
matches_row [] (c ∷ s) = false
matches_row (dash ∷ row) [] = false
matches_row (dash ∷ row) (c ∷ s) = (if dash then c == b'-' else is_hex c) && matches_row row s

abbrev hexes : ℕ → List Bool → List Bool
hexes zero row = row
hexes (suc n) row = false ∷ hexes n row

-- `^[0-9a-fA-F]{8}-[0-9a-fA-F]{4}-[0-9a-fA-F]{4}-[0-9a-fA-F]{4}-[0-9a-fA-F]{12}$`
abbrev pub uuid_row : List Bool
uuid_row = hexes 8 (true ∷ hexes 4 (true ∷ hexes 4 (true ∷ hexes 4 (true ∷ hexes 12 []))))

unfoldable pub uuid_match : GoString → Bool
uuid_match s = matches_row uuid_row s

abbrev row_from : ℕ → ℕ → List Bool
row_from i zero = []
row_from i (suc n) = is_dash_place i ∷ row_from (i + 1) n

row_from_lem :
    (n i : ℕ) (s : GoString) → matches_row (row_from i n) s ≡ (length s == n && uuid_from i s)
unfolding matches_row uuid_from uuid_byte
row_from_lem zero i [] = refl
row_from_lem zero i (c ∷ s) = ground arith
row_from_lem (suc n) i [] = ground arith
row_from_lem (suc n) i (c ∷ s) = ground (arith, row_from_lem n (i + 1) s)

-- The loop and the regular expression accept the same texts.
pub uuid_match-is_uuid : (s : GoString) → uuid_match s ≡ is_uuid s
unfolding uuid_match is_uuid
uuid_match-is_uuid s = row_from_lem 36 0 s
