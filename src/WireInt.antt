-- ===== src/WireInt.antt =====
-- src/util/wire_int.c: big-endian integers on the wire.
use mldsa_auth.Base.{List, Option, [], none, some, ℕ, ◌%◌, ◌*◌, ◌+◌, ◌/◌, ◌^◌, ◌∷◌}

-- A `uint8_t` is stored as it is.
unfoldable pub wire_int_write_u8 : ℕ → List ℕ
wire_int_write_u8 value = value ∷ []

unfoldable pub wire_int_write_u16 : ℕ → List ℕ
wire_int_write_u16 value = (value / 2 ^ 8 % 256) ∷ (value % 256) ∷ []

-- The buffer is the list of the bytes that are left; `none` is the -1 of a buffer that is too short.
unfoldable pub wire_int_read_u8 : List ℕ → Option ℕ
wire_int_read_u8 [] = none
wire_int_read_u8 (b ∷ rest) = some b

-- The two bytes do not overlap after the shift, so `|` is `+`.
unfoldable pub wire_int_read_u16 : List ℕ → Option ℕ
wire_int_read_u16 [] = none
wire_int_read_u16 (b ∷ []) = none
wire_int_read_u16 (hi ∷ lo ∷ rest) = some ((hi * 2 ^ 8 + lo) % 2 ^ 16)
