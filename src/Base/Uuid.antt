-- ===== src/Base/Uuid.antt =====
-- Python's `uuid.UUID`: 32 hexadecimal digits, `str(u)`, and `UUID(s)` on texts of that form.
-- The prefixes `urn:` and `uuid:` and the braces, which `UUID(s)` also drops, are not modelled.
use Prim.Native.Nat.{ℕ, suc, ◌+◌, ◌-◌, ◌<◌}
use mathlib.Core.Path.{◌≡◌, refl}
use mathlib.Core.Logic.{inl, inr}
use mathlib.Core.Bool.{Bool, false, ◌&&◌, ◌||◌}
use mathlib.Core.Option.{Option, none, some}
use mathlib.Core.List.{List, [], ◌∷◌}
use native.Mathlib.Omega.{arith}
use gamely.Base.Tests.{ltb, leb, ◌==◌, length, if◌then◌else◌, Bool-cases}
use gamely.Base.Texts.{Text, has_char}

-- The digits, the most significant first.
abbrev pub Uuid : Type 0
Uuid = List ℕ

abbrev pub HexDigits : List ℕ → Type 0
HexDigits [] = Unit
HexDigits (d ∷ ds) = (d < 16) × HexDigits ds

abbrev pub IsUuid : Uuid → Type 0
IsUuid u = (length u ≡ 32) × HexDigits u

hex_digit : ℕ → ℕ
hex_digit d = if ltb d 10 then 48 + d else 87 + d

hex_value : ℕ → Option ℕ
hex_value c =
    if leb 48 c && leb c 57
    then some (c - 48)
    else if leb 97 c && leb c 102
    then some (c - 87)
    else if leb 65 c && leb c 70
    then some (c - 55)
    else none

-- A hyphen stands before the digits 8, 12, 16 and 20.
abbrev is_group_start : ℕ → Bool
is_group_start i = i == 8 || i == 12 || i == 16 || i == 20

write_digits : ℕ → List ℕ → Text
unfolding hex_digit
write_digits i [] = []
write_digits i (d ∷ ds) =
    let rest = hex_digit d ∷ write_digits (suc i) ds in if is_group_start i then 45 ∷ rest else rest

-- `str(u)`
unfoldable pub uuid_text : Uuid → Text
unfolding write_digits
uuid_text u = write_digits 0 u

abbrev cons_digit : Option ℕ → Option (List ℕ) → Option (List ℕ)
cons_digit (some d) (some ds) = some (d ∷ ds)
cons_digit (some d) none = none
cons_digit none _ = none

read_digits : Text → Option (List ℕ)
unfolding hex_value
read_digits [] = some []
read_digits (c ∷ cs) =
    let rest = read_digits cs in if c == 45 then rest else cons_digit (hex_value c) rest

abbrev of_length : Option (List ℕ) → Option Uuid
of_length none = none
of_length (some ds) = if length ds == 32 then some ds else none

-- `UUID(s)`, with `none` for the `ValueError`.
unfoldable pub parse_uuid : Text → Option Uuid
unfolding read_digits
parse_uuid s = of_length (read_digits s)

hex_value-hex_digit : (d : ℕ) → d < 16 → hex_value (hex_digit d) ≡ some d
unfolding hex_value hex_digit
hex_value-hex_digit d h = ground arith

hex_digit-ne-hyphen : (d : ℕ) → d < 16 → (hex_digit d == 45) ≡ false
unfolding hex_digit
hex_digit-ne-hyphen d h = ground arith

hex_digit-ne-colon : (d : ℕ) → d < 16 → (hex_digit d == 58) ≡ false
unfolding hex_digit
hex_digit-ne-colon d h = ground arith

read_digits-hex_digit :
    (d : ℕ) (cs : Text)
    → d < 16
    → read_digits (hex_digit d ∷ cs) ≡ cons_digit (some d) (read_digits cs)
read_digits-hex_digit d cs h =
    unfold read_digits in rw (hex_digit-ne-hyphen d h) (rw (hex_value-hex_digit d h))

read_digits-hyphen : (cs : Text) → read_digits (45 ∷ cs) ≡ read_digits cs
unfolding read_digits
read_digits-hyphen cs = refl

read_digits-write_digits :
    (i : ℕ) (ds : List ℕ) → HexDigits ds → read_digits (write_digits i ds) ≡ some ds
unfolding write_digits
read_digits-write_digits i [] h = unfold read_digits in refl
read_digits-write_digits i (d ∷ ds) h =
    let e : read_digits (hex_digit d ∷ write_digits (suc i) ds) ≡ some (d ∷ ds) =
      rw (read_digits-hex_digit d (write_digits (suc i) ds) h.0)
        (rw (read_digits-write_digits (suc i) ds h.1)) in
    elim (Bool-cases (is_group_start i)) [
      | inl starts ↦ rw starts (rw read_digits-hyphen e)
      | inr inside ↦ rw inside e
    ]

has_colon-write_digits :
    (i : ℕ) (ds : List ℕ) → HexDigits ds → has_char 58 (write_digits i ds) ≡ false
unfolding write_digits
has_colon-write_digits i [] h = refl
has_colon-write_digits i (d ∷ ds) h =
    ground (arith, hex_digit-ne-colon d h.0, has_colon-write_digits (suc i) ds h.1)

-- What `str` writes, `UUID` reads back.
pub parse_uuid-uuid_text : (u : Uuid) → IsUuid u → parse_uuid (uuid_text u) ≡ some u
unfolding parse_uuid uuid_text
parse_uuid-uuid_text u h = rw (read_digits-write_digits 0 u h.1) (ground arith)

pub has_colon-uuid_text : (u : Uuid) → IsUuid u → has_char 58 (uuid_text u) ≡ false
unfolding uuid_text
has_colon-uuid_text u h = has_colon-write_digits 0 u h.1
