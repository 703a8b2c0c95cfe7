-- ===== src/Auth/Codes/Digits.antt =====
-- The code that `_send_code` draws, backend/src/features/auth/auth_service.py.
use gamely.Base.{
  none, ℕ, zero, suc, ◌-◌, ◌<◌, ◌≡◌, refl, ◌∙◌, true, ◌||◌, some, [], ◌++◌, Text, codes, text_eq,
  has_char, length, length-append, leb, arith,
}
use gamely.Base.Decimal.{decimal, all_digits, length-decimal, all_digits-decimal}
use gamely.Broker.{Json}
use gamely.Email.{is_valid_job}
use gamely.Auth.Codes.{zeros, six_digits}

length-zeros : (n : ℕ) → length (zeros n) ≡ n
length-zeros zero = refl
length-zeros (suc n) = omega (arith, length-zeros n)

all_digits-zeros : (n : ℕ) (t : Text) → all_digits t ≡ true → all_digits (zeros n ++ t) ≡ true
all_digits-zeros zero t h = h
all_digits-zeros (suc n) t h = all_digits-zeros n t h

length-six_digits : (n : ℕ) → n < 1_000_000 → length (six_digits n) ≡ 6
unfolding six_digits
length-six_digits n h =
    length-append (zeros (6 - length (decimal n))) (decimal n)
    ∙ omega (arith, length-zeros (6 - length (decimal n)), length-decimal n h)

all_digits-six_digits : (n : ℕ) → all_digits (six_digits n) ≡ true
unfolding six_digits
all_digits-six_digits n =
    all_digits-zeros (6 - length (decimal n)) (decimal n) (all_digits-decimal n)

-- What `normalize_email` promises of an address, and the two purposes of a code.
pub record Sendable (email purpose : Text) (drawn : ℕ) : Type 0 where
  pub has_at : has_char b'@' email ≡ true
  pub fits : leb (length email) 320 ≡ true
  pub is_purpose : (text_eq purpose (codes "verify") || text_eq purpose (codes "reset")) ≡ true
  -- `secrets.randbelow(1_000_000)`
  pub below : drawn < 1_000_000

pub Sendable-is_valid_job :
    (email purpose : Text) (n expires_at : ℕ)
    → Sendable email purpose n
    → is_valid_job (record {
      recipient = Json.text email;
      template = purpose;
      code = six_digits n;
      expires_at = some expires_at;
      attempts = 0;
      part = none;
      id = Json.text [];
    })
      ≡ true
unfolding is_valid_job
Sendable-is_valid_job email purpose n t s =
    rw (s.has_at, s.fits, s.is_purpose, length-six_digits n s.below, all_digits-six_digits n) refl
