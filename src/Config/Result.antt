-- ===== src/Config/Result.antt =====
-- backend/src/application/environment/yaml_source.py: `ConfigFileError`, and calls that raise it.
use gamely.Base.{Text, List, Bool, true, false, if◌then◌else◌}

-- The error by where it is raised, with the names that its message shows.
pub data ConfigFileError : Type 0 where
  -- a placeholder in a longer text that nothing supplies: key and variable
  unset : Text → Text → ConfigFileError
  -- two spellings of one name: both dotted paths and the name
  both_resolve : Text → Text → Text → ConfigFileError
  invalid_yaml not_a_mapping app_env_is_set : ConfigFileError
  unknown_settings : List Text → ConfigFileError
  -- a stage that is none
  not_a_stage : Text → ConfigFileError

pub data Result {ℓ} (A : Type ℓ) : Type ℓ where
  ok : A → Result A
  failed : ConfigFileError → Result A

module _ {ℓ} {A B : Type ℓ} where
  infixl 5 ◌>>=◌
  abbrev pub ◌>>=◌ : Result A → (A → Result B) → Result B
  ◌>>=◌ (ok a) f = f a
  ◌>>=◌ (failed e) f = failed e

  abbrev pub map_ok : (A → B) → Result A → Result B
  map_ok f (ok a) = ok (f a)
  map_ok f (failed e) = failed e

-- What a call that succeeds has given is of a kind.
abbrev pub Gives : {A : Type 0} → (A → Type 0) → Result A → Type 0
Gives P (ok a) = P a
Gives P (failed e) = Unit

pub bind-Gives :
    {A B : Type 0} (P : A → Type 0) (Q : B → Type 0) (m : Result A) (f : A → Result B)
    → Gives P m
    → ((a : A) → P a → Gives Q (f a))
    → Gives Q (m >>= f)
bind-Gives P Q (ok a) f h k = k a h
bind-Gives P Q (failed e) f h k = tt

pub any : {A : Type 0} (m : Result A) → Gives (λ _. Unit {0}) m
any (ok a) = tt
any (failed e) = tt

pub if-Gives :
    {A : Type 0} (P : A → Type 0) (b : Bool) (x y : Result A)
    → Gives P x
    → Gives P y
    → Gives P (if b then x else y)
if-Gives P true x y h k = h
if-Gives P false x y h k = k

pub map-Gives :
    {A : Type 0} {P Q : A → Type 0} (m : Result A) → ((a : A) → P a → Q a) → Gives P m → Gives Q m
map-Gives (ok a) f h = f a h
map-Gives (failed e) f h = tt
