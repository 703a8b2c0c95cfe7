-- ===== src/Config/Sources/Origins.antt =====
-- backend/src/application/environment/environment_manager.py: `cors_origin_list`.
use gamely.Base.{
  ℕ, ◌≡◌, ◌≢◌, refl, false, Bool-cases, inl, inr, List, [], ◌∷◌, Text, has_char, ◌==◌, arith,
}
use gamely.Auth.EmailAddress.{strip, lstrip, rstrip, cons_kept}
use gamely.Config.Sources.{split, cons_part, stripped, cons_origin, cors_origin_list}

pub data Each (P : Text → Type 0) : List Text → Type 0 where
  each_nil : Each P []
  each_cons : {t : Text} {ts : List Text} → P t → Each P ts → Each P (t ∷ ts)

abbrev Lacks : ℕ → Text → Type 0
Lacks c t = has_char c t ≡ false

cons_part-Lacks :
    (c x : ℕ) (parts : List Text)
    → x == c ≡ false
    → Each (Lacks c) parts
    → Each (Lacks c) (cons_part x parts)
cons_part-Lacks c x [] h each_nil = each_cons (ground arith) each_nil
cons_part-Lacks c x (t ∷ ts) h (each_cons l rest) = each_cons (ground arith) rest

split-Lacks : (c : ℕ) (s : Text) → Each (Lacks c) (split c s)
unfolding split
split-Lacks c [] = each_cons refl each_nil
split-Lacks c (x ∷ xs) = elim (Bool-cases (x == c)) [
  | inl same ↦ rw same (each_cons refl (split-Lacks c xs))
  | inr other ↦ rw other (cons_part-Lacks c x (split c xs) other (split-Lacks c xs))
]

lstrip-Lacks : (c : ℕ) (s : Text) → Lacks c s → Lacks c (lstrip s)
unfolding lstrip
lstrip-Lacks c [] h = refl
lstrip-Lacks c (x ∷ xs) h = ground (arith, lstrip-Lacks c xs)

kept-Lacks : (c x : ℕ) (xs : Text) → x == c ≡ false → Lacks c xs → Lacks c (cons_kept x xs)
kept-Lacks c x [] h k = ground arith
kept-Lacks c x (y ∷ ys) h k = ground arith

rstrip-Lacks : (c : ℕ) (s : Text) → Lacks c s → Lacks c (rstrip s)
unfolding rstrip
rstrip-Lacks c [] h = refl
rstrip-Lacks c (x ∷ xs) h =
    kept-Lacks c x (rstrip xs) (ground arith) (rstrip-Lacks c xs (ground arith))

strip-Lacks : (c : ℕ) (s : Text) → Lacks c s → Lacks c (strip s)
unfolding strip
strip-Lacks c s h = rstrip-Lacks c (lstrip s) (lstrip-Lacks c s h)

abbrev pub IsOrigin : Text → Type 0
IsOrigin t = Lacks b',' t × (t ≢ [])

cons_origin-IsOrigin :
    (t : Text) (ts : List Text) → Lacks b',' t → Each IsOrigin ts → Each IsOrigin (cons_origin t ts)
cons_origin-IsOrigin [] ts h k = k
cons_origin-IsOrigin (c ∷ cs) ts h k = each_cons (h, λ e. ground arith) k

stripped-IsOrigin : (ts : List Text) → Each (Lacks b',') ts → Each IsOrigin (stripped ts)
unfolding stripped
stripped-IsOrigin [] each_nil = each_nil
stripped-IsOrigin (t ∷ ts) (each_cons h k) =
    cons_origin-IsOrigin (strip t) (stripped ts) (strip-Lacks b',' t h) (stripped-IsOrigin ts k)

-- Each origin that the CORS middleware allows is one part of the setting: it has no comma, and it is
-- not empty.
pub cors_origin_list-IsOrigin : (s : Text) → Each IsOrigin (cors_origin_list s)
unfolding cors_origin_list
cors_origin_list-IsOrigin s = stripped-IsOrigin (split b',' s) (split-Lacks b',' s)
