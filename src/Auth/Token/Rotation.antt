-- ===== src/Auth/Token/Rotation.antt =====
-- `rotate_refresh`, backend/src/features/auth/token/token_service.py.
use gamely.Base.{
  ℕ, ◌≡◌, ◌≢◌, refl, ◌∙◌, ap, Option, none, some, Text, text_eq, contains, ◌||◌, arith, [], ◌∷◌,
  List, Bool, codes, if◌then◌else◌,
}
use gamely.Base.Uuid.{Uuid, IsUuid}
use gamely.Errors.{Outcome, returns, raises, application, make_error, unauthorized}
use gamely.Redis.{Reply}
use gamely.Redis.Documented.{Documented, Keyspace, Entry, str, put, drop, perform, on_get}
use gamely.Outside.{Outside, World}
use gamely.Settings.{Settings}
use gamely.Auth.Token.{
  family_key, refresh_key, reuse_key, session_value, rotate_script, token_digest, rotate_refresh,
  result_pair, refresh_seconds, rotate_session, rotate_reused,
}
use gamely.Auth.Token.Keys.{
  parse_session-session_value, reuse_ne_family, reuse_ne_sessions, reuse_ne_refresh, reuse_key-eq,
}
use gamely.Auth.Token.Revocation.{
  Holds, revoke_family-eq, revoked-refresh, revoked-reuse, revoked-family,
}

abbrev pub text_entry : Text → Option ℕ → Entry
text_entry t left = record { value = str t; left = left }

module _ (collides : List Text → Text → Bool) (k1 k2 : Text) (seconds : ℕ) (ks : Keyspace) where
  rotate_script-live :
      (session : Text) (left : Option ℕ)
      → ks k1 ≡ some (text_entry session left)
      → perform collides (rotate_script k1 k2 seconds) ks ≡ (
        Reply.array (codes "rotated" ∷ session ∷ []),
        put k2 (text_entry session (some seconds)) (drop k1 ks),
      )
  unfolding rotate_script
  rotate_script-live session left h =
      ap (λ e. perform collides (rotate_session k1 k2 seconds (on_get e)) ks) h

  rotate_script-used :
      (session : Text) (left : Option ℕ)
      → ks k1 ≡ none
      → ks k2 ≡ some (text_entry session left)
      → perform collides (rotate_script k1 k2 seconds) ks
        ≡ (Reply.array (codes "reused" ∷ session ∷ []), drop k2 ks)
  unfolding rotate_script
  rotate_script-used session left h h' =
      ap (λ e. perform collides (rotate_session k1 k2 seconds (on_get e)) ks) h
      ∙ ap (λ e. perform collides (rotate_reused k2 (on_get e)) ks) h'

  rotate_script-missing :
      ks k1 ≡ none
      → ks k2 ≡ none
      → perform collides (rotate_script k1 k2 seconds) ks
        ≡ (Reply.array (codes "missing" ∷ [] ∷ []), ks)
  unfolding rotate_script
  rotate_script-missing h h' =
      ap (λ e. perform collides (rotate_session k1 k2 seconds (on_get e)) ks) h
      ∙ ap (λ e. perform collides (rotate_reused k2 (on_get e)) ks) h'

abbrev pub already_used : Outcome (Uuid × Text)
already_used =
    raises (application (make_error unauthorized (some "The refresh token has already been used.")))

module _ (o : Outside) (D : Documented o.redis) (settings : Settings) (value : Text)
    (w : World o) where
  -- On a documented Redis, where the token of `value` is live, with a user and a family that is not
  -- empty, `rotate_refresh` returns that user and family. The token is then gone, its digest is
  -- kept as used for the lifetime of a refresh token, and every other key holds what it held.
  pub rotate_refresh-live :
      (u : Uuid) (f : Text) (left : Option ℕ) (k : Text)
      → IsUuid u
      → f ≢ []
      → D.view w.server (refresh_key (token_digest o settings value))
        ≡ some (text_entry (session_value u f) left)
      → let (r, w') = rotate_refresh o settings value w in
        let d = token_digest o settings value in
        (r ≡ returns (u, f))
        × (D.view w'.server k ≡ (
            if text_eq (reuse_key d) k
            then some (text_entry (session_value u f) (some (refresh_seconds settings)))
            else if text_eq (refresh_key d) k
            then none
            else D.view w.server k))
  unfolding rotate_refresh result_pair
  rotate_refresh-live u f left k hu hf live =
      let d = token_digest o settings value in
      let e =
        rotate_script-live D.collides (refresh_key d) (reuse_key d) (refresh_seconds settings)
          (D.view w.server) (session_value u f) left live in
      rw (D.run_lem, e) (rw (parse_session-session_value u f hu hf) (refl, rw (D.view-after, e)))

  -- On a documented Redis, where the token of `value` is not live and is kept as used, and its
  -- family and its user's families are sets, `rotate_refresh` raises that the token has already
  -- been used. Every token in the family's set is then gone, used or not, with the note on this
  -- token and the set itself, and every other token is as it was.
  pub rotate_refresh-reused :
      (u : Uuid) (f : Text) (left : Option ℕ) (ds fs : List Text) (e : Text)
      → IsUuid u
      → f ≢ []
      → Holds o D u f w ds fs
      → D.view w.server (refresh_key (token_digest o settings value)) ≡ none
      → D.view w.server (reuse_key (token_digest o settings value))
        ≡ some (text_entry (session_value u f) left)
      → let (r, w') = rotate_refresh o settings value w in
        (r ≡ already_used)
        × (D.view w'.server (refresh_key e)
            ≡ (if contains ds e then none else D.view w.server (refresh_key e)))
        × (D.view w'.server (reuse_key e) ≡ (
            if contains ds e || text_eq (token_digest o settings value) e
            then none
            else D.view w.server (reuse_key e)))
        × (D.view w'.server (family_key u f) ≡ none)
  unfolding rotate_refresh result_pair
  rotate_refresh-reused u f left ds fs e hu hf holds gone used =
      let d = token_digest o settings value in
      let sc = rotate_script (refresh_key d) (reuse_key d) (refresh_seconds settings) in
      let done =
        rotate_script-used D.collides (refresh_key d) (reuse_key d) (refresh_seconds settings)
          (D.view w.server) (session_value u f) left gone used in
      let w1 : World o = record w { server = D.after sc w.server } in
      let view1 : D.view w1.server ≡ drop (reuse_key d) (D.view w.server) =
        D.view-after sc w.server ∙ ap (λ (p : Reply × Keyspace). p.1) done in
      let holds1 : Holds o D u f w1 ds fs = record {
        digests = rw (view1, reuse_ne_family u f d) holds.digests;
        families = rw (view1, reuse_ne_sessions u d) holds.families;
      } in
      let revoke = revoke_family-eq o D u f w1 settings ds fs holds1 in
      rw (D.run_lem, done)
        (rw (parse_session-session_value u f hu hf) (
          rw revoke.0 (
            rw (revoke.1, view1)
              (
                refl,
                revoked-refresh u f ds (drop (reuse_key d) (D.view w.server)) e
                    ∙ rw (reuse_ne_refresh d e),
                revoked-reuse u f ds (drop (reuse_key d) (D.view w.server)) e
                    ∙ ground (arith, reuse_key-eq d e),
                revoked-family u f ds (drop (reuse_key d) (D.view w.server)),
              ))))
