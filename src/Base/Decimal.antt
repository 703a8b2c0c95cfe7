-- ===== src/Base/Decimal.antt =====
-- Decimal numbers as text: `f"{n}"` and `int(s)` on the digit strings that the program writes.
use Prim.Native.Nat.{ℕ, zero, suc, ◌+◌, ◌-◌, ◌*◌, ◌/◌, ◌%◌, ◌<◌, ◌≤◌}
use mathlib.Core.Path.{◌≡◌, refl}
use mathlib.Core.Logic.{inl, inr}
use mathlib.Core.Bool.{Bool, true, ◌&&◌}
use mathlib.Core.Option.{Option, none, some}
use mathlib.Core.List.{[], ◌∷◌}
use native.Mathlib.Omega.{arith}
use gamely.Base.Tests.{ltb, leb, length, if◌then◌else◌, Bool-cases}
use gamely.Base.Texts.{Text}

abbrev pub is_digit : ℕ → Bool
is_digit c = leb 48 c && leb c 57

-- Enough fuel is any number above `n`: each round divides `n` by ten.
digits_of : ℕ → ℕ → Text → Text
digits_of zero n rest = rest
digits_of (suc fuel) n rest =
    let more = digits_of fuel (n / 10) ((48 + n % 10) ∷ rest) in
    if ltb n 10 then (48 + n) ∷ rest else more

-- `f"{n}"`
unfoldable pub decimal : ℕ → Text
unfolding digits_of
decimal n = digits_of (suc n) n []

parse_digits : ℕ → Text → Option ℕ
parse_digits acc [] = some acc
parse_digits acc (c ∷ cs) =
    let more = parse_digits (acc * 10 + (c - 48)) cs in if is_digit c then more else none

-- `int(s)`, with `none` for the `ValueError`.
unfoldable pub parse_int : Text → Option ℕ
unfolding parse_digits
parse_int [] = none
parse_int (c ∷ cs) = parse_digits 0 (c ∷ cs)

parse_digits-cons :
    (acc d : ℕ) (rest : Text)
    → d < 10
    → parse_digits acc ((48 + d) ∷ rest) ≡ parse_digits (acc * 10 + d) rest
unfolding parse_digits
parse_digits-cons acc d rest h =
    let e : (48 + d) - 48 ≡ d = omega arith in
    let t : is_digit (48 + d) ≡ true = ground arith in rw (t, e)

parse_digits-digits_of :
    (fuel n : ℕ) (rest : Text)
    → n < fuel
    → parse_digits 0 (digits_of fuel n rest) ≡ parse_digits n rest
unfolding digits_of
parse_digits-digits_of zero n rest h = absurd (omega arith)
parse_digits-digits_of (suc fuel) n rest h = elim (Bool-cases (ltb n 10)) [
  | inl small ↦ rw small (
      rw (parse_digits-cons 0 n rest (ground arith)) (let e : 0 * 10 + n ≡ n = omega arith in rw e))
  | inr large ↦
      let e : n / 10 * 10 + n % 10 ≡ n = omega arith in
      rw large (
        rw (parse_digits-digits_of fuel (n / 10) ((48 + n % 10) ∷ rest) (ground arith))
          (rw (parse_digits-cons (n / 10) (n % 10) rest (omega arith)) (rw e)))
]

digits_of-ne-nil : (fuel n : ℕ) (x : ℕ) (rest : Text) → digits_of fuel n (x ∷ rest) ≡ [] → ⊥
unfolding digits_of
digits_of-ne-nil zero n x rest e = ground arith
digits_of-ne-nil (suc fuel) n x rest e =
    ground (arith, digits_of-ne-nil fuel (n / 10) (48 + n % 10) (x ∷ rest))

parse_int-nonempty : (t : Text) → (t ≡ [] → ⊥) → parse_int t ≡ parse_digits 0 t
unfolding parse_int
parse_int-nonempty [] h = absurd (h refl)
parse_int-nonempty (c ∷ cs) h = refl

decimal-ne-nil : (n : ℕ) → decimal n ≡ [] → ⊥
unfolding decimal
decimal-ne-nil n e = ground (arith, digits_of-ne-nil n (n / 10) (48 + n % 10) [])

-- What `f"{n}"` writes, `int` reads back.
pub parse_int-decimal : (n : ℕ) → parse_int (decimal n) ≡ some n
parse_int-decimal n =
    rw (parse_int-nonempty (decimal n) (decimal-ne-nil n))
      (unfold decimal parse_digits in rw (parse_digits-digits_of (suc n) n [] (omega arith)))

ten_to : ℕ → ℕ
ten_to zero = 1
ten_to (suc k) = 10 * ten_to k

length-digits_of :
    (k fuel n : ℕ) (rest : Text)
    → n < fuel
    → n < ten_to (suc k)
    → length (digits_of fuel n rest) ≤ suc k + length rest
unfolding digits_of ten_to
length-digits_of k zero n rest h small = absurd (omega arith)
length-digits_of zero (suc fuel) n rest h small =
    let one : ltb n 10 ≡ true = ground arith in rw one (omega arith)
length-digits_of (suc k) (suc fuel) n rest h small = elim (Bool-cases (ltb n 10)) [
  | inl one ↦ rw one (omega arith)
  | inr more ↦
      let shorter : n / 10 < fuel = ground arith in
      let fewer : n / 10 < 10 * ten_to k = omega arith in
      rw more (omega (arith, length-digits_of k fuel (n / 10) ((48 + n % 10) ∷ rest) shorter fewer))
]

-- A number below a million has at most six digits.
pub length-decimal : (n : ℕ) → n < 1_000_000 → length (decimal n) ≤ 6
unfolding decimal ten_to
length-decimal n h = length-digits_of 5 (suc n) n [] (omega arith) h

abbrev pub all_digits : Text → Bool
all_digits [] = true
all_digits (c ∷ cs) = is_digit c && all_digits cs

all_digits-digits_of :
    (fuel n : ℕ) (rest : Text)
    → n < fuel
    → all_digits rest ≡ true
    → all_digits (digits_of fuel n rest) ≡ true
unfolding digits_of
all_digits-digits_of zero n rest h k = absurd (omega arith)
all_digits-digits_of (suc fuel) n rest h k = elim (Bool-cases (ltb n 10)) [
  | inl one ↦ (let d : is_digit (48 + n) ≡ true = ground arith in rw one (rw (d, k)))
  | inr more ↦
      let d : is_digit (48 + n % 10) ≡ true = ground arith in
      rw more (all_digits-digits_of fuel (n / 10) ((48 + n % 10) ∷ rest) (ground arith) (rw (d, k)))
]

pub all_digits-decimal : (n : ℕ) → all_digits (decimal n) ≡ true
unfolding decimal
all_digits-decimal n = all_digits-digits_of (suc n) n [] (omega arith) refl
