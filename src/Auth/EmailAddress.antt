-- ===== src/Auth/EmailAddress.antt =====
-- backend/src/features/auth/email_address.py
-- Texts are ASCII here: `str.lower` and `str.strip` treat further code points too.
pub mod Canonical
use gamely.Base.{
  ℕ, ◌+◌, Bool, true, false, ◌&&◌, ◌||◌, not, List, [], ◌∷◌, lower, Text, has_char, length, leb,
  ltb, ◌==◌, if◌then◌else◌,
}
use gamely.Errors.{Outcome, returns, raises, application, make_error, bad_request}
use mathlib.Core.Option.{some}

abbrev pub email_max_length : ℕ
email_max_length = 320

-- The ASCII characters that `str.strip` drops.
abbrev pub is_space : ℕ → Bool
is_space c = c == 32 || (leb 9 c && leb c 13) || (leb 28 c && leb c 31)

-- `s.lstrip()` and `s.rstrip()`
unfoldable pub lstrip : Text → Text
lstrip [] = []
lstrip (c ∷ cs) = let rest = lstrip cs in if is_space c then rest else c ∷ cs

-- A character is dropped where it and all behind it are space.
abbrev pub cons_kept : ℕ → Text → Text
cons_kept c [] = if is_space c then [] else c ∷ []
cons_kept c (x ∷ xs) = c ∷ x ∷ xs

unfoldable pub rstrip : Text → Text
rstrip [] = []
rstrip (c ∷ cs) = cons_kept c (rstrip cs)

-- `s.strip()`
unfoldable pub strip : Text → Text
unfolding lstrip rstrip
strip s = rstrip (lstrip s)

unfoldable pub normalize_email : Text → Outcome Text
unfolding strip
normalize_email value =
    let email = lower (strip value) in
    if not (has_char b'@' email) || ltb email_max_length (length email)
    then raises (application (make_error bad_request (some "A valid email address is required.")))
    else returns email
