-- ===== src/Auth/Token/Keys.antt =====
-- The key names and session texts of backend/src/features/auth/token/token_service.py.
use gamely.Base.{◌≡◌, ◌≢◌, refl, false, [], ◌∷◌, ◌++◌, arith, Text, text_eq, split_once-append}
use gamely.Base.Uuid.{Uuid, IsUuid, uuid_text, parse_uuid-uuid_text, has_colon-uuid_text}
use gamely.Errors.{returns}
use gamely.Auth.Token.{
  refresh_key, reuse_key, sessions_key, family_key, session_value, parse_session,
}

-- What `_session_value` writes, `_parse_session` reads back, for every user and every family name
-- that is not empty, also one that holds a colon.
pub parse_session-session_value :
    (u : Uuid) (f : Text) → IsUuid u → f ≢ [] → parse_session (session_value u f) ≡ returns (u, f)
unfolding parse_session session_value
parse_session-session_value u [] h ne = absurd (ne refl)
parse_session-session_value u (c ∷ cs) h ne =
    rw (split_once-append b':' (uuid_text u) (c ∷ cs) (has_colon-uuid_text u h))
      (rw (parse_uuid-uuid_text u h))

module _ (d e : Text) where
  pub refresh_ne_reuse : text_eq (refresh_key d) (reuse_key e) ≡ false
  unfolding refresh_key reuse_key
  refresh_ne_reuse = refl

  pub reuse_ne_refresh : text_eq (reuse_key d) (refresh_key e) ≡ false
  unfolding refresh_key reuse_key
  reuse_ne_refresh = refl

module _ (u : Uuid) (f d : Text) where
  pub family_ne_refresh : text_eq (family_key u f) (refresh_key d) ≡ false
  unfolding refresh_key family_key
  family_ne_refresh = refl

  pub family_ne_reuse : text_eq (family_key u f) (reuse_key d) ≡ false
  unfolding reuse_key family_key
  family_ne_reuse = refl

  pub refresh_ne_family : text_eq (refresh_key d) (family_key u f) ≡ false
  unfolding refresh_key family_key
  refresh_ne_family = refl

  pub reuse_ne_family : text_eq (reuse_key d) (family_key u f) ≡ false
  unfolding reuse_key family_key
  reuse_ne_family = refl

module _ (u : Uuid) (d : Text) where
  pub sessions_ne_refresh : text_eq (sessions_key u) (refresh_key d) ≡ false
  unfolding refresh_key sessions_key
  sessions_ne_refresh = refl

  pub sessions_ne_reuse : text_eq (sessions_key u) (reuse_key d) ≡ false
  unfolding reuse_key sessions_key
  sessions_ne_reuse = refl

  pub refresh_ne_sessions : text_eq (refresh_key d) (sessions_key u) ≡ false
  unfolding refresh_key sessions_key
  refresh_ne_sessions = refl

  pub reuse_ne_sessions : text_eq (reuse_key d) (sessions_key u) ≡ false
  unfolding reuse_key sessions_key
  reuse_ne_sessions = refl

module _ (u v : Uuid) (f : Text) where
  pub family_ne_sessions : text_eq (family_key v f) (sessions_key u) ≡ false
  unfolding family_key sessions_key
  family_ne_sessions = refl

  pub sessions_ne_family : text_eq (sessions_key u) (family_key v f) ≡ false
  unfolding family_key sessions_key
  sessions_ne_family = refl

pub refresh_key-eq : (d e : Text) → text_eq (refresh_key d) (refresh_key e) ≡ text_eq d e
unfolding refresh_key
refresh_key-eq d e = refl

pub reuse_key-eq : (d e : Text) → text_eq (reuse_key d) (reuse_key e) ≡ text_eq d e
unfolding reuse_key
reuse_key-eq d e = refl

text_eq-append : (a x y : Text) → text_eq (a ++ x) (a ++ y) ≡ text_eq x y
text_eq-append [] x y = refl
text_eq-append (c ∷ cs) x y = ground (arith, text_eq-append cs x y)

-- Two families of one user have the same key only if they have the same name.
pub family_key-eq :
    (u : Uuid) (f g : Text) → text_eq (family_key u f) (family_key u g) ≡ text_eq f g
unfolding family_key
family_key-eq u f g = text_eq-append (uuid_text u) (b':' ∷ f) (b':' ∷ g)
