-- ===== src/Config/Layer.antt =====
-- backend/src/application/environment/yaml_source.py: `_expand`, `_flatten`, `load_layer` and the
-- merge of `YamlSettingsSource`.
pub mod Flat
pub mod Known
pub mod Merged
use gamely.Base.{
  ℕ, Bool, true, false, ◌&&◌, ◌||◌, Option, none, some, List, [], ◌∷◌, ◌++◌, Text, codes, ltb, ◌==◌,
  text_eq, contains, if◌then◌else◌,
}
use gamely.Config.Result.{
  ConfigFileError, both_resolve, invalid_yaml, not_a_mapping, app_env_is_set, unknown_settings,
  unset, Result, ok, failed, ◌>>=◌, map_ok,
}
use gamely.Config.Table.{Table, lookup, put, update}
use gamely.Config.Placeholders.{interpolate}

-- What `yaml.safe_load` gives. A scalar that is no text is only handed on, and a key is its `str`.
mutual
  pub data Yaml : Type 0 where
    text : Text → Yaml
    scalar : ℕ → Yaml
    sequence : Items → Yaml
    mapping : Fields → Yaml

  pub data Items : Type 0 where
    items_nil : Items
    items_cons : Yaml → Items → Items

  pub data Fields : Type 0 where
    fields_nil : Fields
    fields_cons : Text → Yaml → Fields → Fields

-- `separator.join(path)`
unfoldable pub join : Text → List Text → Text
join separator [] = []
join separator (name ∷ []) = name
join separator (name ∷ more ∷ path) = name ++ (separator ++ join separator (more ∷ path))

-- The leaves so far, by their joined name: the dotted path and the value.
abbrev pub Leaves : Type 0
Leaves = Table (Text × Yaml)

-- `if flat in out: raise …` and `out[flat] = (dotted, value)`
abbrev pub add_new : Text → Text → Yaml → Leaves → Option (Text × Yaml) → Result Leaves
add_new flat dotted value out (some (other, _)) = failed (both_resolve dotted other flat)
add_new flat dotted value out none = ok (put flat (dotted, value) out)

unfoldable pub add_leaf : List Text → Yaml → Leaves → Result Leaves
add_leaf path value out =
    let flat = join (codes "_") path in
    add_new flat (join (codes ".") path) value out (lookup flat out)

-- `_flatten`
unfoldable mutual
  pub flatten : Fields → List Text → Leaves → Result Leaves
  flatten fields_nil prefix out = ok out
  flatten (fields_cons name value rest) prefix out =
      flatten_value value (prefix ++ name ∷ []) out >>= λ out'. flatten rest prefix out'

  pub flatten_value : Yaml → List Text → Leaves → Result Leaves
  flatten_value (mapping fields) path out = flatten fields path out
  flatten_value (text t) path out = add_leaf path (text t) out
  flatten_value (scalar n) path out = add_leaf path (scalar n) out
  flatten_value (sequence items) path out = add_leaf path (sequence items) out

module _ (env : Text → Option Text) (key : Text) where
  -- An item that is a text; the text is never absent where that is not allowed.
  abbrev expanded_item : Option Text → Yaml
  expanded_item none = text []
  expanded_item (some t) = text t

  abbrev expand_item : Yaml → Result Yaml
  expand_item (text t) = map_ok expanded_item (interpolate env key false t)
  expand_item value = ok value

  unfoldable pub expand_items : Items → Result Items
  expand_items items_nil = ok items_nil
  expand_items (items_cons value rest) =
      expand_item value >>= λ v. expand_items rest >>= λ vs. ok (items_cons v vs)

  abbrev text_or_absent : Option Text → Option Yaml
  text_or_absent none = none
  text_or_absent (some t) = some (text t)

  -- `_expand`, absent for `_Unresolved`
  unfoldable pub expand : Yaml → Result (Option Yaml)
  expand (text t) = map_ok text_or_absent (interpolate env key true t)
  expand (sequence items) = map_ok (λ vs. some (sequence vs)) (expand_items items)
  expand value = ok (some value)

-- Python's order of texts, and `sorted`.
abbrev text_lt : Text → Text → Bool
text_lt [] [] = false
text_lt [] (y ∷ ys) = true
text_lt (x ∷ xs) [] = false
text_lt (x ∷ xs) (y ∷ ys) = ltb x y || (x == y && text_lt xs ys)

abbrev insert : Text → List Text → List Text
insert t [] = t ∷ []
insert t (u ∷ us) = let rest = insert t us in if text_lt u t then u ∷ rest else t ∷ u ∷ us

unfoldable pub sorted : List Text → List Text
sorted [] = []
sorted (t ∷ ts) = insert t (sorted ts)

-- A path: no file, a file that is no YAML, an empty document, or a document.
pub data LayerFile : Type 0 where
  missing malformed empty : LayerFile
  document : Yaml → LayerFile

module _ (field_names : List Text) (env : Text → Option Text) where
  abbrev keep_value : Text → Table Yaml → Option Yaml → Table Yaml
  keep_value name kept none = kept
  keep_value name kept (some value) = put name value kept

  -- One turn of the loop of `load_layer`, with `data` and `unknown`.
  abbrev pub read_leaf :
      Text → Text → Yaml → Table Yaml × List Text → Result (Table Yaml × List Text)
  read_leaf name dotted value (kept, unknown) =
      if text_eq name (codes "app_env")
      then failed app_env_is_set
      else if contains field_names name
      then map_ok (λ v. (keep_value name kept v, unknown)) (expand env dotted value)
      else ok (kept, unknown ++ dotted ∷ [])

  unfoldable pub read_leaves : Leaves → Table Yaml × List Text → Result (Table Yaml × List Text)
  read_leaves [] read = ok read
  read_leaves ((name, (dotted, value)) ∷ leaves) read =
      read_leaf name dotted value read >>= λ next. read_leaves leaves next

  abbrev check_unknown : Table Yaml × List Text → Result (Table Yaml)
  check_unknown (kept, []) = ok kept
  check_unknown (kept, u ∷ us) = failed (unknown_settings (sorted (u ∷ us)))

  unfoldable pub load_document : Yaml → Result (Table Yaml)
  load_document (mapping fields) = do
    leaves ← flatten fields [] []
    read ← read_leaves leaves ([], [])
    check_unknown read
  load_document value = failed not_a_mapping

  unfoldable pub load_layer : LayerFile → Result (Table Yaml)
  load_layer missing = ok []
  load_layer malformed = failed invalid_yaml
  load_layer empty = ok []
  load_layer (document value) = load_document value

  -- `YamlSettingsSource.__init__`, with the paths in the order of rising precedence
  unfoldable pub merge_layers : List LayerFile → Table Yaml → Result (Table Yaml)
  merge_layers [] merged = ok merged
  merge_layers (file ∷ files) merged =
      load_layer file >>= λ layer. merge_layers files (update merged layer)
