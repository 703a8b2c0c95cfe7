-- ===== src/Config/Sources/Stages.antt =====
-- backend/src/application/environment/environment_manager.py: the stage of the settings.
use mathlib.Core.Path.{subst}
use gamely.Base.{◌≡◌, refl, some, List, [], ◌∷◌, Text, codes}
use gamely.Config.Result.{Result, ok, failed, ◌>>=◌, Gives, bind-Gives, any}
use gamely.Config.Layer.{text, LayerFile}
use gamely.Config.Sources.{
  Stage, test, dev, prod, stage_text, Source, Environ, EnvFile, resolve_app_env, stage_source,
  yaml_settings, ordered, settings_customise_sources, effective,
}

module _ (field_names : List Text) (backend_config : Text) (read_file : Text → LayerFile)
    (environ : Environ) (init env : Source) where
  abbrev pub customised : Source → EnvFile → Result (List Source)
  customised = settings_customise_sources field_names backend_config read_file environ init env

  -- In the stage `test` the settings do not depend on the root's dotenv file: neither on its
  -- values as a source, nor on its variables in placeholders.
  pub test_sealed :
      (dotenv other : Source) (files others : EnvFile)
      → resolve_app_env (init ∷ env ∷ dotenv ∷ []) environ ≡ ok test
      → resolve_app_env (init ∷ env ∷ other ∷ []) environ ≡ ok test
      → customised dotenv files ≡ customised other others
  unfolding settings_customise_sources yaml_settings
  test_sealed dotenv other files others h k = rw (h, k) refl

  -- Where the sources can be read, the setting `app_env` is the stage whose layer was read, whatever
  -- the other sources say of it, and that stage is the one that was resolved from them.
  pub stage_pinned :
      (dotenv : Source) (files : EnvFile) (sources : List Source)
      → customised dotenv files ≡ ok sources
      → (stage : Stage) × (resolve_app_env (init ∷ env ∷ dotenv ∷ []) environ ≡ ok stage)
        × (effective (codes "app_env") sources ≡ some (text (stage_text stage)))
  unfolding settings_customise_sources stage_source effective
  stage_pinned dotenv files sources e =
      subst (Gives Pinned) e (by_stage (resolve_app_env (init ∷ env ∷ dotenv ∷ []) environ) refl)
    where
      Pinned : List Source → Type 0
      Pinned ss =
          (stage : Stage) × (resolve_app_env (init ∷ env ∷ dotenv ∷ []) environ ≡ ok stage)
          × (effective (codes "app_env") ss ≡ some (text (stage_text stage)))

      pinned :
          (stage : Stage) (yaml : Source)
          → effective
              (codes "app_env")
              (ordered field_names backend_config read_file environ stage init env dotenv yaml)
            ≡ some (text (stage_text stage))
      pinned dev yaml = refl
      pinned test yaml = refl
      pinned prod yaml = refl

      by_stage :
          (r : Result Stage)
          → resolve_app_env (init ∷ env ∷ dotenv ∷ []) environ ≡ r
          → Gives Pinned (
              r >>= λ stage.
              yaml_settings field_names backend_config read_file environ stage files >>= λ yaml.
              ok (ordered field_names backend_config read_file environ stage init env dotenv yaml))
      by_stage (failed x) h = tt
      by_stage (ok stage) h =
          bind-Gives (λ _. Unit {0}) Pinned
            (yaml_settings field_names backend_config read_file environ stage files)
            (λ yaml.
              ok (ordered field_names backend_config read_file environ stage init env dotenv yaml))
            (any (yaml_settings field_names backend_config read_file environ stage files))
            (λ yaml _. (stage, h, pinned stage yaml))
