-- ===== src/Frame/Identifier.antt =====
-- `NewID` of lib/gateway/frame/frame.go and the check of the field u.
use go_platform.Base.{
  ℕ, ◌+◌, ◌/◌, ◌%◌, ◌<◌, true, [], ◌∷◌, ◌≡◌, arith, is_uuid, is_hex, uuid_from, uuid_byte, All,
}
use go_platform.Frame.{hex_digit, hex_bytes, new_id}

is_hex-hex_digit : (n : ℕ) → n < 16 → is_hex (hex_digit n) ≡ true
unfolding is_hex hex_digit
is_hex-hex_digit n h = ground arith

high : (b : ℕ) → b < 256 → is_hex (hex_digit (b / 16)) ≡ true
high b h = is_hex-hex_digit (b / 16) (omega arith)

low : (b : ℕ) → is_hex (hex_digit (b % 16)) ≡ true
low b = is_hex-hex_digit (b % 16) (omega arith)

-- Whatever the sixteen random bytes, the identifier of a new call has the shape of a UUID, so the
-- receiver's check of the field u accepts it.
pub new_id-is_uuid :
    (b0 b1 b2 b3 b4 b5 b6 b7 b8 b9 b10 b11 b12 b13 b14 b15 : ℕ)
    → All
        (λ b. b < 256)
        (b0 ∷ b1 ∷ b2 ∷ b3 ∷ b4 ∷ b5 ∷ b6 ∷ b7 ∷ b8 ∷ b9 ∷ b10 ∷ b11 ∷ b12 ∷ b13 ∷ b14 ∷ b15 ∷ [])
    → is_uuid (new_id b0 b1 b2 b3 b4 b5 b6 b7 b8 b9 b10 b11 b12 b13 b14 b15) ≡ true
unfolding is_uuid uuid_from uuid_byte new_id hex_bytes
new_id-is_uuid b0 b1 b2 b3 b4 b5 b6 b7 b8 b9 b10 b11 b12 b13 b14 b15 h = simp (
  high b0 h.0,
  low b0,
  high b1 h.1.0,
  low b1,
  high b2 h.1.1.0,
  low b2,
  high b3 h.1.1.1.0,
  low b3,
  high b4 h.1.1.1.1.0,
  low b4,
  high b5 h.1.1.1.1.1.0,
  low b5,
  high (b6 % 16 + 0x40) (omega arith),
  low (b6 % 16 + 0x40),
  high b7 h.1.1.1.1.1.1.1.0,
  low b7,
  high (b8 % 64 + 0x80) (omega arith),
  low (b8 % 64 + 0x80),
  high b9 h.1.1.1.1.1.1.1.1.1.0,
  low b9,
  high b10 h.1.1.1.1.1.1.1.1.1.1.0,
  low b10,
  high b11 h.1.1.1.1.1.1.1.1.1.1.1.0,
  low b11,
  high b12 h.1.1.1.1.1.1.1.1.1.1.1.1.0,
  low b12,
  high b13 h.1.1.1.1.1.1.1.1.1.1.1.1.1.0,
  low b13,
  high b14 h.1.1.1.1.1.1.1.1.1.1.1.1.1.1.0,
  low b14,
  high b15 h.1.1.1.1.1.1.1.1.1.1.1.1.1.1.1.0,
  low b15,
)
