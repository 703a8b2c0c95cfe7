-- ===== src/Config/Layer/Merged.antt =====
-- backend/src/application/environment/yaml_source.py: the precedence of the layers.
use mathlib.Core.Path.{subst}
use gamely.Base.{
  ◌≡◌, refl, Option, none, some, List, [], ◌∷◌, ◌++◌, Text, codes, contains, text_eq, if◌then◌else◌,
}
use gamely.Config.Result.{
  app_env_is_set, Result, ok, failed, ◌>>=◌, map_ok, Gives, bind-Gives, if-Gives, any,
}
use gamely.Config.Table.{
  Table, lookup, update, or_value, IsDistinct, distinct_nil, put-IsDistinct, lookup-update,
}
use gamely.Config.Layer.{
  Yaml, mapping, text, scalar, sequence, Leaves, flatten, expand, read_leaf, read_leaves,
  keep_value, check_unknown, LayerFile, missing, malformed, empty, document, load_document,
  load_layer, merge_layers,
}

module _ (names : List Text) (env : Text → Option Text) where
  keep-IsDistinct :
      (name : Text) (kept : Table Yaml) (v : Option Yaml)
      → IsDistinct kept
      → IsDistinct (keep_value names env name kept v)
  keep-IsDistinct name kept none h = h
  keep-IsDistinct name kept (some v) h = put-IsDistinct name v kept h

  Kept : Table Yaml × List Text → Type 0
  Kept p = IsDistinct p.0

  map-Kept :
      (name : Text) (kept : Table Yaml) (unknown : List Text) (r : Result (Option Yaml))
      → IsDistinct kept
      → Gives Kept (map_ok (λ v. (keep_value names env name kept v, unknown)) r)
  unfolding Kept
  map-Kept name kept unknown (ok v) h = keep-IsDistinct name kept v h
  map-Kept name kept unknown (failed e) h = tt

  read_leaf-Kept :
      (name dotted : Text) (value : Yaml) (p : Table Yaml × List Text)
      → Kept p
      → Gives Kept (read_leaf names env name dotted value p)
  unfolding Kept
  read_leaf-Kept name dotted value (kept, unknown) h =
      let known =
        map_ok (λ v. (keep_value names env name kept v, unknown)) (expand env dotted value) in
      let other : Result (Table Yaml × List Text) = ok (kept, unknown ++ dotted ∷ []) in
      if-Gives Kept (text_eq name (codes "app_env")) (failed app_env_is_set)
        (if contains names name then known else other) tt
        (if-Gives Kept (contains names name) known other
          (map-Kept name kept unknown (expand env dotted value) h) h)

  read_leaves-Kept :
      (leaves : Leaves) (p : Table Yaml × List Text)
      → Kept p
      → Gives Kept (read_leaves names env leaves p)
  unfolding read_leaves
  read_leaves-Kept [] p h = h
  read_leaves-Kept ((name, (dotted, value)) ∷ leaves) p h =
      bind-Gives Kept Kept (read_leaf names env name dotted value p)
        (λ next. read_leaves names env leaves next) (read_leaf-Kept name dotted value p h)
        (λ next k. read_leaves-Kept leaves next k)

  checked-IsDistinct :
      (p : Table Yaml × List Text) → Kept p → Gives IsDistinct (check_unknown names env p)
  unfolding Kept
  checked-IsDistinct (kept, []) h = h
  checked-IsDistinct (kept, u ∷ us) h = tt

  load_document-IsDistinct : (v : Yaml) → Gives IsDistinct (load_document names env v)
  unfolding load_document Kept
  load_document-IsDistinct (text t) = tt
  load_document-IsDistinct (scalar n) = tt
  load_document-IsDistinct (sequence items) = tt
  load_document-IsDistinct (mapping fields) =
      bind-Gives (λ _. Unit {0}) IsDistinct (flatten fields [] [])
        (λ leaves. read_leaves names env leaves ([], []) >>= check_unknown names env)
        (any (flatten fields [] []))
        (λ leaves _.
          bind-Gives Kept IsDistinct (read_leaves names env leaves ([], []))
            (check_unknown names env) (read_leaves-Kept leaves ([], []) distinct_nil)
            checked-IsDistinct)

  load_layer-IsDistinct : (file : LayerFile) → Gives IsDistinct (load_layer names env file)
  unfolding load_layer
  load_layer-IsDistinct missing = distinct_nil
  load_layer-IsDistinct malformed = tt
  load_layer-IsDistinct empty = distinct_nil
  load_layer-IsDistinct (document v) = load_document-IsDistinct v

  abbrev in_layer : Text → Result (Table Yaml) → Option Yaml
  in_layer name (ok layer) = lookup name layer
  in_layer name (failed e) = none

  -- The value of a setting by the layers one at a time: the last layer that has it decides, and
  -- what is below the layers where none has it.
  unfoldable pub decided : Text → List LayerFile → Option Yaml → Option Yaml
  decided name [] below = below
  decided name (file ∷ files) below =
      decided name files (or_value (in_layer name (load_layer names env file)) below)

  merge-Gives :
      (name : Text) (files : List LayerFile) (merged : Table Yaml)
      → Gives
          (λ result. lookup name result ≡ decided name files (lookup name merged))
          (merge_layers names env files merged)
  unfolding merge_layers decided
  merge-Gives name [] merged = refl
  merge-Gives name (file ∷ files) merged =
      one (load_layer names env file) (load_layer-IsDistinct file)
        (λ layer. merge-Gives name files (update merged layer))
    where
      one :
          (r : Result (Table Yaml))
          → Gives IsDistinct r
          → ((layer : Table Yaml)
              → Gives
                  (λ result.
                    lookup name result ≡ decided name files (lookup name (update merged layer)))
                  (merge_layers names env files (update merged layer)))
          → Gives
              (λ result.
                lookup name result
                ≡ decided name files (or_value (in_layer name r) (lookup name merged)))
              (r >>= λ layer. merge_layers names env files (update merged layer))
      one (ok layer) distinct next =
          subst
            (λ o.
              Gives (λ result. lookup name result ≡ decided name files o)
                (merge_layers names env files (update merged layer)))
            (lookup-update name merged layer distinct) (next layer)
      one (failed e) distinct next = tt

  -- Where all layers are read, a setting has the value of the last layer that names it: a later layer
  -- wins, an earlier one decides only what the later ones leave absent.
  pub merge_layers-decided :
      (name : Text) (files : List LayerFile) (result : Table Yaml)
      → merge_layers names env files [] ≡ ok result
      → lookup name result ≡ decided name files none
  merge_layers-decided name files result e =
      subst (Gives (λ r. lookup name r ≡ decided name files none)) e (merge-Gives name files [])
