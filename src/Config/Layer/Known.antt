-- ===== src/Config/Layer/Known.antt =====
-- backend/src/application/environment/yaml_source.py: which names a layer may have.
use mathlib.Core.Path.{subst}
use gamely.Base.{
  ◌≡◌, refl, sym, ◌∙◌, ap, Bool, true, false, Bool-cases, inl, inr, Option, none, some, List, [],
  ◌∷◌, ◌++◌, Text, codes, contains, text_eq, text_eq_sound, if◌then◌else◌, arith,
}
use gamely.Config.Result.{
  app_env_is_set, Result, ok, failed, ◌>>=◌, map_ok, Gives, bind-Gives, map-Gives,
}
use gamely.Config.Table.{Table, lookup, lookup-put}
use gamely.Config.Layer.{
  Yaml, Fields, mapping, Leaves, flatten, expand, read_leaf, read_leaves, keep_value, check_unknown,
  load_document,
}

module _ (names : List Text) (env : Text → Option Text) where
  -- A name that a layer may set: a field of the settings other than the stage.
  abbrev pub IsKnown : Text → Type 0
  IsKnown name = (contains names name ≡ true) × (text_eq name (codes "app_env") ≡ false)

  pub data AllKnown : Leaves → Type 0 where
    known_nil : AllKnown []
    known_cons :
        {name : Text} {leaf : Text × Yaml} {leaves : Leaves}
        → IsKnown name
        → AllKnown leaves
        → AllKnown ((name, leaf) ∷ leaves)

  -- Each value that was kept has a known name.
  pub KeepsKnown : Table Yaml → Type 0
  KeepsKnown kept = (k : Text) (v : Yaml) → lookup k kept ≡ some v → IsKnown k

  keep-known :
      (name : Text) (kept : Table Yaml) (v : Option Yaml)
      → IsKnown name
      → KeepsKnown kept
      → KeepsKnown (keep_value names env name kept v)
  unfolding KeepsKnown
  keep-known name kept none known h k u e = h k u e
  keep-known name kept (some v) known h k u e = elim (Bool-cases (text_eq name k)) [
    | inl same ↦ subst IsKnown (text_eq_sound name k same) known
    | inr other ↦ h k u (rw other at (sym (lookup-put name k v kept) ∙ e))
  ]

  -- What a turn of the loop does, for a leaf and what was read before.
  One : Text → Table Yaml × List Text → Table Yaml × List Text → Type 0
  One name p r = (KeepsKnown p.0 → KeepsKnown r.0) × (r.1 ≡ [] → IsKnown name × (p.1 ≡ []))

  not_empty : {A : Type 0} (ts : List Text) (t : Text) → ts ++ t ∷ [] ≡ [] → A
  not_empty [] t e = ground arith
  not_empty (u ∷ us) t e = ground arith

  kept-One :
      (name : Text) (p : Table Yaml × List Text) (r : Result (Option Yaml))
      → IsKnown name
      → Gives (One name p) (map_ok (λ v. (keep_value names env name p.0 v, p.1)) r)
  unfolding One
  kept-One name p (ok v) known = (keep-known name p.0 v known, λ e. (known, e))
  kept-One name p (failed e) known = tt

  tested-One :
      (name dotted : Text) (value : Yaml) (p : Table Yaml × List Text) (a b : Bool)
      → text_eq name (codes "app_env") ≡ a
      → contains names name ≡ b
      → Gives (One name p) (
          if a
          then failed app_env_is_set
          else if b
          then map_ok (λ v. (keep_value names env name p.0 v, p.1)) (expand env dotted value)
          else ok (p.0, p.1 ++ dotted ∷ []))
  unfolding One
  tested-One name dotted value p true b e f = tt
  tested-One name dotted value p false true e f = kept-One name p (expand env dotted value) (f, e)
  tested-One name dotted value p false false e f = (λ h. h, λ g. not_empty p.1 dotted g)

  All : Leaves → Table Yaml × List Text → Table Yaml × List Text → Type 0
  All leaves p r = (KeepsKnown p.0 → KeepsKnown r.0) × (r.1 ≡ [] → AllKnown leaves × (p.1 ≡ []))

  read_leaves-All :
      (leaves : Leaves) (p : Table Yaml × List Text)
      → Gives (All leaves p) (read_leaves names env leaves p)
  unfolding read_leaves All One
  read_leaves-All [] p = (λ h. h, λ e. (known_nil, e))
  read_leaves-All ((name, (dotted, value)) ∷ leaves) p =
      bind-Gives (One name p) (All ((name, (dotted, value)) ∷ leaves) p)
        (read_leaf names env name dotted value p) (λ next. read_leaves names env leaves next)
        (tested-One name dotted value p (text_eq name (codes "app_env")) (contains names name) refl
          refl)
        (λ next h.
          map-Gives (read_leaves names env leaves next)
            (λ r k. (
              λ old. k.0 (h.0 old),
              λ e.
                  let (rest, none_before) = k.1 e in
                  let (known, before) = h.1 none_before in (known_cons known rest, before),
            ))
            (read_leaves-All leaves next))

  checked-All :
      (leaves : Leaves) (p : Table Yaml × List Text)
      → All leaves ([], []) p
      → Gives (λ kept. KeepsKnown kept × AllKnown leaves) (check_unknown names env p)
  unfolding All KeepsKnown
  checked-All leaves (kept, []) h = (h.0 (λ k v e. ground arith), (h.1 refl).0)
  checked-All leaves (kept, u ∷ us) h = tt

  -- A document that is read has only leaves whose names are fields of the settings, and the stage is
  -- none of them; and so has what it sets.
  pub load_document-known :
      (top : Fields) (leaves : Leaves) (kept : Table Yaml)
      → flatten top [] [] ≡ ok leaves
      → load_document names env (mapping top) ≡ ok kept
      → KeepsKnown kept × AllKnown leaves
  unfolding load_document
  load_document-known top leaves kept flat e =
      subst (Gives (λ t. KeepsKnown t × AllKnown leaves))
        (ap (λ m. m >>= λ ls. read_leaves names env ls ([], []) >>= check_unknown names env)
            (sym flat)
          ∙ e)
        (bind-Gives (All leaves ([], [])) (λ t. KeepsKnown t × AllKnown leaves)
          (read_leaves names env leaves ([], [])) (check_unknown names env)
          (read_leaves-All leaves ([], [])) (checked-All leaves))
