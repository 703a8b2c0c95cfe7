-- ===== src/Config/Sources.antt =====
-- backend/src/application/environment/environment_manager.py: the choice of the stage, the order of
-- the sources, the validators and the list of origins. The sources of pydantic are tables.
pub mod Stages
pub mod Origins
use gamely.Base.{
  ℕ, Bool, true, false, Option, none, some, List, [], ◌∷◌, ◌++◌, map, Text, codes, text_eq, lower,
  length, ltb, ◌==◌, if◌then◌else◌,
}
use gamely.Errors.{Outcome, returns, raises, value_error}
use gamely.Auth.EmailAddress.{strip}
use gamely.Config.Result.{ConfigFileError, not_a_stage, Result, ok, failed, ◌>>=◌}
use gamely.Config.Table.{Table, lookup, put, update}
use gamely.Config.Layer.{Yaml, text, LayerFile, merge_layers}

-- `AppEnv`
pub data Stage : Type 0 where
  dev test prod : Stage

abbrev pub stage_text : Stage → Text
stage_text dev = codes "dev"
stage_text test = codes "test"
stage_text prod = codes "prod"

abbrev pub is_test : Stage → Bool
is_test test = true
is_test _ = false

-- `_validate_app_env`
abbrev stage_of : Text → Text → Result Stage
stage_of value normalised =
    if text_eq normalised (codes "dev")
    then ok dev
    else if text_eq normalised (codes "test")
    then ok test
    else if text_eq normalised (codes "prod")
    then ok prod
    else failed (not_a_stage value)

unfoldable pub validate_app_env : Text → Result Stage
validate_app_env value = stage_of value (lower (strip value))

-- What a source gives: settings by their names.
abbrev pub Source : Type 0
Source = Table Yaml

abbrev text_of : Option Yaml → Option Text
text_of (some (text t)) = some t
text_of _ = none

-- `_stage_from`
unfoldable pub stage_from : Source → Option Text
stage_from source = text_of (lookup (codes "app_env") source)

abbrev pub Environ : Type 0
Environ = Table Text

abbrev stage_or_dev : Option Text → Result Stage
stage_or_dev none = ok dev
stage_or_dev (some value) = validate_app_env value

abbrev first_stage : Option Text → Result Stage → Result Stage
first_stage (some value) rest = validate_app_env value
first_stage none rest = rest

-- `resolve_app_env`
unfoldable pub resolve_app_env : List Source → Environ → Result Stage
resolve_app_env [] environ = stage_or_dev (lookup (codes "APP_ENV") environ)
resolve_app_env (source ∷ sources) environ =
    first_stage (stage_from source) (resolve_app_env sources environ)

-- A file for `dotenv_values`: its variables, or no file.
abbrev pub DotenvFile : Type 0
DotenvFile = Option (Table (Option Text))

-- `source.env_file`, of a source that is a `DotenvSettingsSource`
pub data EnvFile : Type 0 where
  no_file : EnvFile
  one_file : DotenvFile → EnvFile
  more_files : List DotenvFile → EnvFile

unfoldable pub dotenv_files : EnvFile → List DotenvFile
dotenv_files no_file = []
dotenv_files (one_file path) = path ∷ []
dotenv_files (more_files paths) = paths

-- The variables of a file that have a value.
abbrev with_values : Table (Option Text) → Environ
with_values [] = []
with_values ((k, some v) ∷ es) = (k, v) ∷ with_values es
with_values ((k, none) ∷ es) = with_values es

abbrev add_file : DotenvFile → Environ → Environ
add_file none values = values
add_file (some file) values = update values (with_values file)

abbrev add_files : List DotenvFile → Environ → Environ
add_files [] values = values
add_files (path ∷ paths) values = add_files paths (add_file path values)

unfoldable pub interpolation_env : List DotenvFile → Environ → Environ
interpolation_env files environ = update (add_files files []) environ

-- `StageSource.__call__`
unfoldable pub stage_source : Stage → Source
stage_source stage = (codes "app_env", text (stage_text stage)) ∷ []

-- `config_dir`
abbrev dir_or : Text → Option Text → Text
dir_or default (some (c ∷ cs)) = c ∷ cs
dir_or default _ = default

unfoldable pub config_dir : Text → Environ → Text
config_dir default environ = dir_or default (lookup (codes "BACKEND_CONFIG_DIR") environ)

module _ (field_names : List Text) (backend_config : Text) (read_file : Text → LayerFile)
    (environ : Environ) where
  abbrev layer_paths : Stage → List Text
  layer_paths stage =
      (config_dir backend_config environ ++ codes "/default.yml")
      ∷ (config_dir backend_config environ ++ (codes "/" ++ (stage_text stage ++ codes ".yml")))
      ∷ []

  -- The files that placeholders may see.
  abbrev seen_files : Stage → EnvFile → List DotenvFile
  seen_files stage files = if is_test stage then [] else dotenv_files files

  unfoldable pub yaml_settings : Stage → EnvFile → Result Source
  yaml_settings stage files =
      merge_layers field_names
        (λ name. lookup name (interpolation_env (seen_files stage files) environ))
        (map read_file (layer_paths stage)) []

  abbrev pub ordered : Stage → Source → Source → Source → Source → List Source
  ordered stage init env dotenv yaml =
      if is_test stage
      then stage_source stage ∷ init ∷ env ∷ yaml ∷ []
      else stage_source stage ∷ init ∷ env ∷ dotenv ∷ yaml ∷ []

  -- `settings_customise_sources`: the sources in the order of falling precedence
  unfoldable pub settings_customise_sources :
      Source → Source → Source → EnvFile → Result (List Source)
  settings_customise_sources init env dotenv files = do
    stage ← resolve_app_env (init ∷ env ∷ dotenv ∷ []) environ
    yaml ← yaml_settings stage files
    ok (ordered stage init env dotenv yaml)

-- The value of a setting that is no mapping: the first source that has it decides.
unfoldable pub effective : Text → List Source → Option Yaml
effective name [] = none
effective name (source ∷ sources) = elim (lookup name source) [
  | some value ↦ some value
  | none ↦ effective name sources
]

-- `connection_url_must_not_be_blank`
abbrev not_blank : Text → Text → Outcome Text
not_blank value [] = raises value_error
not_blank value (c ∷ cs) = returns value

unfoldable pub connection_url_must_not_be_blank : Text → Outcome Text
connection_url_must_not_be_blank value = not_blank value (strip value)

unfoldable pub jwt_secret_must_be_strong : Text → Outcome Text
jwt_secret_must_be_strong value =
    if ltb (length value) 32 then raises value_error else returns value

-- `s.split(c)`
abbrev cons_part : ℕ → List Text → List Text
cons_part x [] = (x ∷ []) ∷ []
cons_part x (part ∷ parts) = (x ∷ part) ∷ parts

unfoldable pub split : ℕ → Text → List Text
split c [] = [] ∷ []
split c (x ∷ xs) = let rest = split c xs in if x == c then [] ∷ rest else cons_part x rest

-- `[origin.strip() for origin in … if origin.strip()]`
abbrev cons_origin : Text → List Text → List Text
cons_origin [] rest = rest
cons_origin (c ∷ cs) rest = (c ∷ cs) ∷ rest

unfoldable pub stripped : List Text → List Text
stripped [] = []
stripped (origin ∷ origins) = cons_origin (strip origin) (stripped origins)

unfoldable pub cors_origin_list : Text → List Text
cors_origin_list cors_origins = stripped (split b',' cors_origins)
