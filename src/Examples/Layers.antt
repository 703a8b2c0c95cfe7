-- ===== src/Examples/Layers.antt =====
-- Configuration layers.
use gamely.Base.{◌≡◌, ◌↔◌, refl, none, some, Option, List, [], ◌∷◌, Text, codes, map}
use gamely.Config.Result.{ok}
use gamely.Config.Table.{Table, lookup, put, update, IsDistinct}
use gamely.Config.Placeholders.{
  interpolate, replace_escapes, substitute, match_placeholder, restore_escapes, resolve, fullmatch,
}
use gamely.Config.Layer.{
  Yaml, Fields, fields_nil, fields_cons, mapping, text, scalar, Leaves, flatten, add_leaf, expand,
  read_leaves, LayerFile, document, load_document, load_layer, merge_layers, join,
}
use gamely.Config.Layer.Flat.{leaves_of, entry, flatten-leaves_of}
use gamely.Config.Layer.Known.{KeepsKnown, AllKnown, load_document-known}
use gamely.Config.Layer.Merged.{decided, merge_layers-decided}
use gamely.Config.Sources.{
  Environ, no_file, one_file, Source, resolve_app_env, stage_from, validate_app_env,
}
use gamely.Config.Sources.Stages.{customised, test_sealed}
use gamely.Auth.EmailAddress.{strip, lstrip, rstrip}

-- auth: {jwt: {issuer: api}, code_minutes: 5}
abbrev nested : Fields
nested =
    fields_cons (codes "auth")
      (mapping (
        fields_cons (codes "jwt")
          (mapping (fields_cons (codes "issuer") (text (codes "api")) fields_nil))
          (fields_cons (codes "code_minutes") (scalar 5) fields_nil)))
      fields_nil

abbrev nested_leaves : Leaves
nested_leaves =
    (codes "auth_jwt_issuer", (codes "auth.jwt.issuer", text (codes "api")))
    ∷ (codes "auth_code_minutes", (codes "auth.code_minutes", scalar 5))
    ∷ []

flatten-leaves_of_example :
    (flatten nested [] [] ≡ ok nested_leaves)
    ↔ ((nested_leaves ≡ map entry (leaves_of nested [])) × IsDistinct nested_leaves)
flatten-leaves_of_example = flatten-leaves_of nested nested_leaves

abbrev names : List Text
names =
    codes "app_env" ∷ codes "app_name" ∷ codes "auth_jwt_issuer" ∷ codes "auth_code_minutes" ∷ []

abbrev variables : Text → Option Text
variables name = lookup name ((codes "HOST", codes "x.org") ∷ [])

abbrev nested_table : Table Yaml
nested_table =
    (codes "auth_jwt_issuer", text (codes "api")) ∷ (codes "auth_code_minutes", scalar 5) ∷ []

load_document-known_example :
    KeepsKnown names variables nested_table × AllKnown names variables nested_leaves
unfolding flatten add_leaf join put load_document read_leaves expand interpolate replace_escapes
    substitute match_placeholder restore_escapes resolve fullmatch
load_document-known_example =
    load_document-known names variables nested nested_leaves nested_table refl refl

-- The later layer composes the name from a variable, and leaves the issuer absent.
abbrev named_layer : LayerFile
named_layer = document (
    mapping (
      fields_cons (codes "app_name") (text (codes "Games at ${HOST}"))
        (fields_cons (codes "auth_jwt_issuer") (text (codes "${ISSUER}")) fields_nil)))

abbrev layers : List LayerFile
layers = document (mapping nested) ∷ named_layer ∷ []

abbrev merged : Table Yaml
merged =
    (codes "auth_jwt_issuer", text (codes "api"))
    ∷ (codes "auth_code_minutes", scalar 5)
    ∷ (codes "app_name", text (codes "Games at x.org"))
    ∷ []

merge_layers-decided_example :
    lookup (codes "auth_jwt_issuer") merged
    ≡ decided names variables (codes "auth_jwt_issuer") layers none
unfolding flatten add_leaf join put update load_layer merge_layers load_document read_leaves expand
    interpolate replace_escapes substitute match_placeholder restore_escapes resolve fullmatch
merge_layers-decided_example =
    merge_layers-decided names variables (codes "auth_jwt_issuer") layers merged refl

abbrev environ : Environ
environ = (codes "APP_ENV", codes "test") ∷ []

abbrev local_file : Source
local_file = (codes "app_name", text (codes "local")) ∷ []

test_sealed_example :
    customised names (codes "/config") (λ path. LayerFile.missing) environ [] [] local_file no_file
    ≡ customised names
        (codes "/config")
        (λ path. LayerFile.missing)
        environ
        []
        []
        []
        (one_file (some ((codes "HOST", some (codes "y.org")) ∷ [])))
unfolding resolve_app_env stage_from validate_app_env strip lstrip rstrip
test_sealed_example =
    test_sealed names (codes "/config") (λ path. LayerFile.missing) environ [] [] local_file []
      no_file (one_file (some ((codes "HOST", some (codes "y.org")) ∷ []))) refl refl
