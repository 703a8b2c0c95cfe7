-- ===== src/Config/Placeholders.antt =====
-- backend/src/application/environment/yaml_source.py: `_PLACEHOLDER`, `_resolve` and `_interpolate`.
use gamely.Base.{
  ℕ, zero, suc, ◌-◌, Bool, true, ◌&&◌, ◌||◌, not, Option, none, some, [], ◌∷◌, ◌++◌, Text, codes,
  leb, ◌==◌, length, starts_with, if◌then◌else◌,
}
use gamely.Config.Result.{unset, Result, ok, failed, ◌>>=◌, map_ok}

abbrev is_letter : ℕ → Bool
is_letter c = (leb 65 c && leb c 90) || (leb 97 c && leb c 122) || c == b'_'

abbrev is_name_char : ℕ → Bool
is_name_char c = is_letter c || (leb 48 c && leb c 57)

-- The longest prefix of characters that pass, and the rest.
abbrev pub span : (ℕ → Bool) → Text → Text × Text
span p [] = ([], [])
span p (c ∷ cs) = let rest = span p cs in if p c then (c ∷ rest.0, rest.1) else ([], c ∷ cs)

-- A match of `\$\{([A-Za-z_][A-Za-z0-9_]*)(?::-([^}]*))?\}`: its two groups and what is behind it.
pub record Placeholder : Type 0 where
  pub name : Text
  pub fallback : Option Text
  pub behind : Text

abbrev close_fallback : Text → Text × Text → Option Placeholder
close_fallback name (fallback, c ∷ behind) =
    some (record { name = name; fallback = some fallback; behind = behind })
close_fallback name (fallback, []) = none

abbrev after_name : Text → Text → Option Placeholder
after_name name [] = none
after_name name (c ∷ []) =
    if c == b'}' then some (record { name = name; fallback = none; behind = [] }) else none
after_name name (c ∷ d ∷ cs) =
    if c == b'}'
    then some (record { name = name; fallback = none; behind = d ∷ cs })
    else if c == b':' && d == b'-'
    then close_fallback name (span (λ x. not (x == b'}')) cs)
    else none

-- The name does not begin with a digit, and has at least one character.
abbrev named : Text × Text → Option Placeholder
named ([], cs) = none
named (c ∷ name, cs) = if is_letter c then after_name (c ∷ name) cs else none

abbrev drop_two : Text → Text
drop_two (c ∷ d ∷ cs) = cs
drop_two _ = []

unfoldable pub match_placeholder : Text → Option Placeholder
match_placeholder cs =
    if starts_with cs (codes "${") then named (span is_name_char (drop_two cs)) else none

-- `raw.replace("$${", "\0")`; the number is how many characters of an occurrence are still to be
-- passed over.
unfoldable pub replace_escapes : ℕ → Text → Text
replace_escapes n [] = []
replace_escapes (suc n) (c ∷ cs) = replace_escapes n cs
replace_escapes zero (c ∷ cs) =
    let inside = replace_escapes 2 cs in
    let outside = replace_escapes 0 cs in
    if starts_with (c ∷ cs) (codes "$${") then 0 ∷ inside else c ∷ outside

-- `.replace("\0", "${")`
unfoldable pub restore_escapes : Text → Text
restore_escapes [] = []
restore_escapes (c ∷ cs) =
    let rest = restore_escapes cs in if c == 0 then b'$' ∷ b'{' ∷ rest else c ∷ rest

-- `_resolve`
unfoldable pub resolve : (Text → Option Text) → Placeholder → Option Text
resolve env m = elim (env m.name) [ some value ↦ some value | none ↦ m.fallback ]

abbrev supplied : Text → Text → Option Text → Result Text
supplied key name none = failed (unset key name)
supplied key name (some value) = ok value

module _ (env : Text → Option Text) (key : Text) where
  -- `replace`, the function that `sub` calls with a match
  abbrev pub replacement : Placeholder → Result Text
  replacement m = supplied key m.name (resolve env m)

  abbrev put_before : Result Text → Result Text → Result Text
  put_before value rest = value >>= λ v. rest >>= λ r. ok (v ++ r)

  abbrev sub_at : ℕ → Text → (ℕ → Result Text) → Option Placeholder → Result Text
  sub_at c cs rest none = rest 0 >>= λ r. ok (c ∷ r)
  sub_at c cs rest (some m) = put_before (replacement m) (rest (length cs - length m.behind))

  -- `_PLACEHOLDER.sub(replace, text)`, with the number of characters of a match still to be passed
  -- over. A match further right is replaced after one further left.
  unfoldable pub substitute : ℕ → Text → Result Text
  substitute n [] = ok []
  substitute (suc n) (c ∷ cs) = substitute n cs
  substitute zero (c ∷ cs) = sub_at c cs (λ n. substitute n cs) (match_placeholder (c ∷ cs))

  -- `_PLACEHOLDER.fullmatch(text)`
  abbrev whole : Option Placeholder → Option Placeholder
  whole none = none
  whole (some m) = elim m.behind [ [] ↦ some m | _ ∷ _ ↦ none ]

  unfoldable pub fullmatch : Text → Option Placeholder
  fullmatch text = whole (match_placeholder text)

  abbrev composed : Text → Result (Option Text)
  composed text = map_ok (λ t. some (restore_escapes t)) (substitute 0 text)

  abbrev alone : Option Text → Result (Option Text)
  alone none = ok none
  alone (some value) = ok (some (restore_escapes value))

  abbrev by_match : Text → Bool → Option Placeholder → Result (Option Text)
  by_match text true (some m) = alone (resolve env m)
  by_match text _ _ = composed text

  -- `_interpolate`; the absent text stands for `_Unresolved`
  unfoldable pub interpolate : Bool → Text → Result (Option Text)
  interpolate allow_absent raw =
      let text = replace_escapes 0 raw in by_match text allow_absent (fullmatch text)
