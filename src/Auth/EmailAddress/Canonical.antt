-- ===== src/Auth/EmailAddress/Canonical.antt =====
-- What `normalize_email` returns, backend/src/features/auth/email_address.py.
use gamely.Base.{
  ℕ, ◌≡◌, refl, ap, Bool, true, false, ◌&&◌, ◌||◌, not, some, [], ◌∷◌, Text, has_char, length, ltb,
  leb, ◌≤◌, lower_char, lower, arith, if◌then◌else◌,
}
use mathlib.Core.Path.{subst}
use gamely.Errors.{Outcome, returns, raises, application, make_error, bad_request}
use gamely.Auth.EmailAddress.{
  is_space, lstrip, cons_kept, rstrip, strip, normalize_email, email_max_length,
}

-- No space at the ends.
abbrev starts_kept : Text → Bool
starts_kept [] = true
starts_kept (c ∷ cs) = if is_space c then false else true

abbrev ends_kept : Text → Bool
ends_kept [] = true
ends_kept (c ∷ []) = if is_space c then false else true
ends_kept (c ∷ x ∷ xs) = ends_kept (x ∷ xs)

starts_kept-lstrip : (s : Text) → starts_kept (lstrip s) ≡ true
unfolding lstrip
starts_kept-lstrip [] = refl
starts_kept-lstrip (c ∷ cs) = ground (arith, starts_kept-lstrip cs)

lstrip-kept : (s : Text) → starts_kept s ≡ true → lstrip s ≡ s
unfolding lstrip
lstrip-kept [] h = refl
lstrip-kept (c ∷ cs) h = ground arith

ends_kept-cons_kept : (c : ℕ) (t : Text) → ends_kept t ≡ true → ends_kept (cons_kept c t) ≡ true
ends_kept-cons_kept c [] h = ground arith
ends_kept-cons_kept c (x ∷ xs) h = h

ends_kept-rstrip : (s : Text) → ends_kept (rstrip s) ≡ true
unfolding rstrip
ends_kept-rstrip [] = refl
ends_kept-rstrip (c ∷ cs) = ends_kept-cons_kept c (rstrip cs) (ends_kept-rstrip cs)

rstrip-kept : (s : Text) → ends_kept s ≡ true → rstrip s ≡ s
unfolding rstrip
rstrip-kept [] h = refl
rstrip-kept (c ∷ []) h = ground arith
rstrip-kept (c ∷ x ∷ xs) h = ap (cons_kept c) (rstrip-kept (x ∷ xs) h)

starts_kept-cons_kept : (c : ℕ) (t : Text) → is_space c ≡ false → starts_kept (cons_kept c t) ≡ true
starts_kept-cons_kept c [] h = ground arith
starts_kept-cons_kept c (x ∷ xs) h = ground arith

starts_kept-rstrip : (s : Text) → starts_kept s ≡ true → starts_kept (rstrip s) ≡ true
unfolding rstrip
starts_kept-rstrip [] h = refl
starts_kept-rstrip (c ∷ cs) h = starts_kept-cons_kept c (rstrip cs) (ground arith)

abbrev no_upper : Text → Bool
no_upper [] = true
no_upper (c ∷ cs) = not (leb 65 c && leb c 90) && no_upper cs

no_upper-lower : (s : Text) → no_upper (lower s) ≡ true
no_upper-lower [] = refl
no_upper-lower (c ∷ cs) = ground (arith, no_upper-lower cs)

lower-no_upper : (s : Text) → no_upper s ≡ true → lower s ≡ s
lower-no_upper [] h = refl
lower-no_upper (c ∷ cs) h = ground (arith, lower-no_upper cs)

is_space-lower_char : (c : ℕ) → is_space (lower_char c) ≡ is_space c
is_space-lower_char c = ground arith

starts_kept-lower : (s : Text) → starts_kept (lower s) ≡ starts_kept s
starts_kept-lower [] = refl
starts_kept-lower (c ∷ cs) = rw (is_space-lower_char c)

ends_kept-lower : (s : Text) → ends_kept (lower s) ≡ ends_kept s
ends_kept-lower [] = refl
ends_kept-lower (c ∷ []) = rw (is_space-lower_char c)
ends_kept-lower (c ∷ x ∷ xs) = ends_kept-lower (x ∷ xs)

-- An address in its one spelling: lower case, no space at either end, an `@`, and not too long.
pub record IsCanonical (e : Text) : Type 0 where
  pub no_upper_case : no_upper e ≡ true
  pub no_space_before : starts_kept e ≡ true
  pub no_space_behind : ends_kept e ≡ true
  pub has_at : has_char b'@' e ≡ true
  pub fits : length e ≤ email_max_length

strip-kept : (s : Text) → starts_kept s ≡ true → ends_kept s ≡ true → strip s ≡ s
unfolding strip
strip-kept s h k = rw (lstrip-kept s h) (rstrip-kept s k)

starts_kept-strip : (s : Text) → starts_kept (strip s) ≡ true
unfolding strip
starts_kept-strip s = starts_kept-rstrip (lstrip s) (starts_kept-lstrip s)

ends_kept-strip : (s : Text) → ends_kept (strip s) ≡ true
unfolding strip
ends_kept-strip s = ends_kept-rstrip (lstrip s)

-- The test of the code, read as a proposition.
accepted : Text → Outcome Text
accepted e =
    if not (has_char b'@' e) || ltb email_max_length (length e)
    then raises (application (make_error bad_request (some "A valid email address is required.")))
    else returns e

normalize_email-eq-accepted : (v : Text) → normalize_email v ≡ accepted (lower (strip v))
normalize_email-eq-accepted v = unfold normalize_email accepted in refl

accepted-inv :
    (t e : Text)
    → accepted t ≡ returns e
    → (t ≡ e) × (has_char b'@' t ≡ true) × (length t ≤ email_max_length)
unfolding accepted
accepted-inv t e h = ground arith

accepted-fits :
    (t : Text) → has_char b'@' t ≡ true → length t ≤ email_max_length → accepted t ≡ returns t
unfolding accepted
accepted-fits t h k = ground arith

lower-strip-canonical : (e : Text) → IsCanonical e → lower (strip e) ≡ e
lower-strip-canonical e c =
    rw (strip-kept e c.no_space_before c.no_space_behind) (lower-no_upper e c.no_upper_case)

accepted-IsCanonical : (v e : Text) → accepted (lower (strip v)) ≡ returns e → IsCanonical e
accepted-IsCanonical v e h =
    let (same, at, short) = accepted-inv (lower (strip v)) e h in
    subst IsCanonical same (record {
      no_upper_case = no_upper-lower (strip v);
      no_space_before = rw (starts_kept-lower (strip v)) (starts_kept-strip v);
      no_space_behind = rw (ends_kept-lower (strip v)) (ends_kept-strip v);
      has_at = at;
      fits = short;
    })

-- An address that `normalize_email` returns is lower case, has no space at either end, holds an `@`
-- and is at most 320 long, and `normalize_email` returns that address again when it is given it.
pub normalize_email-IsCanonical :
    (v e : Text) → normalize_email v ≡ returns e → IsCanonical e × (normalize_email e ≡ returns e)
normalize_email-IsCanonical v e h =
    let c = accepted-IsCanonical v e (rw (← normalize_email-eq-accepted v) h) in
    (
      c,
      rw (normalize_email-eq-accepted e, lower-strip-canonical e c)
          (accepted-fits e c.has_at c.fits),
    )
