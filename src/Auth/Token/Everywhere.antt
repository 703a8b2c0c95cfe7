-- ===== src/Auth/Token/Everywhere.antt =====
-- `revoke_all`, backend/src/features/auth/token/token_service.py.
use gamely.Base.{
  ◌≡◌, refl, ◌∙◌, ap, sym, none, Text, text_eq, text_eq_sound, text_eq_refl, [], ◌∷◌, List, true,
  contains, arith, Bool-cases, inl, inr,
}
use gamely.Base.Uuid.{Uuid}
use gamely.Errors.{returns, pure, bind-returns, ◌>>◌}
use gamely.Redis.{Reply, Command, single}
use gamely.Redis.Documented.{Documented, Keyspace, drop, on_smembers}
use gamely.Redis.Sets.{array_injective}
use gamely.Outside.{Outside, World, command}
use gamely.Settings.{Settings}
use gamely.Auth.Token.{
  refresh_key, family_key, sessions_key, revoke_families, revoke_family, revoke_all,
}
use gamely.Auth.Token.Keys.{sessions_ne_refresh}
use gamely.Auth.Token.Revocation.{
  Holds, revoke_family-eq, revoked, revoked-refresh, revoked-other_family, revoked-sessions,
}

-- A token that is gone, or whose digest stands in the set of one of these families.
pub data Doomed (u : Uuid) (d : Text) (families : List Text) (ks : Keyspace) : Type 0 where
  gone : ks (refresh_key d) ≡ none → Doomed u d families ks
  listed :
      (f : Text) (ds : List Text)
      → contains families f ≡ true
      → on_smembers (ks (family_key u f)) ≡ Reply.array ds
      → contains ds d ≡ true
      → Doomed u d families ks

-- The families are sets, and so is the user's set of them.
pub record AllSets (u : Uuid) (families : List Text) (ks : Keyspace) : Type 0 where
  pub family :
      (f : Text)
      → contains families f ≡ true
      → (ds : List Text) × (on_smembers (ks (family_key u f)) ≡ Reply.array ds)
  pub user : (fs : List Text) × (on_smembers (ks (sessions_key u)) ≡ Reply.array fs)

module _ (u : Uuid) (f : Text) (ds : List Text) (ks : Keyspace) where
  step-set :
      (g : Text)
      → (es : List Text) × (on_smembers (ks (family_key u g)) ≡ Reply.array es)
      → (es : List Text) × (on_smembers (revoked u f ds ks (family_key u g)) ≡ Reply.array es)
  step-set g (es, h) = elim (Bool-cases (text_eq f g)) [
    | inl same ↦ ([], rw (revoked-other_family u f ds ks g) (rw same))
    | inr other ↦ (es, rw (revoked-other_family u f ds ks g) (rw (other, h)))
  ]

  step-AllSets : (rest : List Text) → AllSets u (f ∷ rest) ks → AllSets u rest (revoked u f ds ks)
  step-AllSets rest a = record {
    family = λ g h. step-set g (a.family g (ground arith));
    user = revoked-sessions u f ds ks a.user.0 a.user.1;
  }

  now_gone : (d : Text) → contains ds d ≡ true → revoked u f ds ks (refresh_key d) ≡ none
  now_gone d h = revoked-refresh u f ds ks d ∙ rw h

  step-Doomed :
      (d : Text) (rest : List Text)
      → on_smembers (ks (family_key u f)) ≡ Reply.array ds
      → Doomed u d (f ∷ rest) ks
      → Doomed u d rest (revoked u f ds ks)
  step-Doomed d rest h (gone g) = gone (revoked-refresh u f ds ks d ∙ ground (arith, g))
  step-Doomed d rest h (listed g es member set held) = elim (Bool-cases (text_eq f g)) [
    | inl same ↦
        let e = text_eq_sound f g same in
        let one = array_injective ds es (sym (rw e at h) ∙ set) in gone (now_gone d (rw one held))
    | inr other ↦
        listed g es (ground arith) (rw (revoked-other_family u f ds ks g) (rw (other, set))) held
  ]

module _ (o : Outside) (D : Documented o.redis) (settings : Settings) (u : Uuid) where
  view : World o → Keyspace
  view w = D.view w.server

  Ends : List Text → World o → Type 0
  unfolding view
  Ends families w =
      let (r, w') = revoke_families o settings u families w in
      (r ≡ returns tt)
      × ((d : Text) → Doomed u d families (view w) → view w' (refresh_key d) ≡ none)

  nothing_listed : (d : Text) (ks : Keyspace) → Doomed u d [] ks → ks (refresh_key d) ≡ none
  nothing_listed d ks (gone g) = g
  nothing_listed d ks (listed f ds member set held) = ground arith

  revoke_families-Ends :
      (families : List Text) (w : World o) → AllSets u families (view w) → Ends families w
  unfolding revoke_families Ends view
  revoke_families-Ends [] w a = (refl, λ d h. nothing_listed d (D.view w.server) h)
  revoke_families-Ends (f ∷ rest) w a =
      let (ds, set) = a.family f (ground (arith, text_eq_refl f)) in
      let (fs, user) = a.user in
      let holds : Holds o D u f w ds fs = record { digests = set; families = user } in
      let (ended, left) = revoke_family-eq o D u f w settings ds fs holds in
      let w1 = (revoke_family o settings u f w).1 in
      let sets = step-AllSets u f ds (D.view w.server) rest a in
      let (rest_ended, rest_gone) = revoke_families-Ends rest w1 (rw left sets) in
      let whole =
        bind-returns (revoke_family o settings u f) (λ _. revoke_families o settings u rest) w tt
          ended in
      rw whole (
        rest_ended,
        λ d h. rest_gone d (rw left (step-Doomed u f ds (D.view w.server) d rest set h)),
      )

  module _ (fs : List Text) (w : World o) where
    w1 : World o
    w1 = record w { server = D.after (single (Command.smembers (sessions_key u))) w.server }

    same : D.view w1.server ≡ D.view w.server
    unfolding w1
    same = D.view-after (single (Command.smembers (sessions_key u))) w.server

    revoke_all-eq :
        on_smembers (D.view w.server (sessions_key u)) ≡ Reply.array fs
        → revoke_all o settings u w
          ≡ (revoke_families o settings u fs
                >> (command o (Command.del (sessions_key u ∷ [])) >> pure tt))
              w1
    unfolding revoke_all w1
    revoke_all-eq h = rw (D.run_lem, h) refl

    pub revoke_all-Doomed :
        on_smembers (D.view w.server (sessions_key u)) ≡ Reply.array fs
        → AllSets u fs (D.view w.server)
        → let (r, w') = revoke_all o settings u w in
          (r ≡ returns tt)
          × ((d : Text) → Doomed u d fs (D.view w.server) → D.view w'.server (refresh_key d) ≡ none)
          × (D.view w'.server (sessions_key u) ≡ none)
    unfolding Ends view
    revoke_all-Doomed h sets =
        let (ended, ends) = revoke_families-Ends fs w1 (rw same sets) in
        let v = (revoke_families o settings u fs w1).1 in
        let whole =
          revoke_all-eq h
          ∙ bind-returns (revoke_families o settings u fs)
              (λ _. command o (Command.del (sessions_key u ∷ [])) >> pure tt) w1 tt ended in
        let left : D.view (D.after (single (Command.del (sessions_key u ∷ []))) v.server)
            ≡ drop (sessions_key u) (D.view v.server) =
          D.view-after _ v.server in
        rw whole (
          rw D.run_lem (
            refl,
            λ d doomed.
                ap (λ (ks : Keyspace). ks (refresh_key d)) left
                ∙ rw (sessions_ne_refresh u d) (ends d (rw same doomed)),
            ap (λ (ks : Keyspace). ks (sessions_key u)) left ∙ rw (text_eq_refl (sessions_key u)),
          ))

    -- On a documented Redis, where the user's families are a set and each of them is a set of digests,
    -- `revoke_all` returns. No token whose digest stands in one of the families is live then, and the
    -- user has no families.
    pub revoke_all-ends :
        (f : Text) (ds : List Text) (d : Text)
        → on_smembers (D.view w.server (sessions_key u)) ≡ Reply.array fs
        → AllSets u fs (D.view w.server)
        → contains fs f ≡ true
        → on_smembers (D.view w.server (family_key u f)) ≡ Reply.array ds
        → contains ds d ≡ true
        → let (r, w') = revoke_all o settings u w in
          (r ≡ returns tt)
          × (D.view w'.server (refresh_key d) ≡ none)
          × (D.view w'.server (sessions_key u) ≡ none)
    revoke_all-ends f ds d h sets member set held =
        let (ended, ends, none_left) = revoke_all-Doomed h sets in
        (ended, ends d (listed f ds member set held), none_left)
