-- ===== src/Auth/Token/Kept.antt =====
-- What a rotation and a revocation leave of one user's refresh tokens, backend/src/features/auth/token/token_service.py.
use gamely.Base.{
  ℕ, ◌≡◌, refl, sym, ◌∙◌, ap, Bool, true, false, Bool-cases, inl, inr, Option, some, List, [], Text,
  text_eq, text_eq_sound, contains, if◌then◌else◌, arith,
}
use gamely.Base.Uuid.{Uuid}
use gamely.Redis.{Reply}
use gamely.Redis.Documented.{Keyspace, perform, on_smembers, on_get, put, drop}
use gamely.Redis.Sets.{IsSetOf, without, without-other, array_injective}
use gamely.Auth.Token.{
  refresh_key, reuse_key, sessions_key, family_key, session_value, rotate_script, rotate_session,
  rotate_reused,
}
use gamely.Auth.Token.Keys.{
  refresh_ne_family, refresh_ne_sessions, reuse_ne_family, reuse_ne_sessions, reuse_ne_refresh,
}
use gamely.Auth.Token.Revocation.{revoked, revoked-refresh, revoked-IsSetOf, revoked-other_family}
use gamely.Auth.Token.Rotation.{text_entry}
use gamely.Auth.Token.Tracked.{IsTracked}

-- The user's sets are as they were, and no token of the user became live.
pub record Fewer (u : Uuid) (ks ks' : Keyspace) : Type 0 where
  pub sessions : ks' (sessions_key u) ≡ ks (sessions_key u)
  pub family : (f : Text) → ks' (family_key u f) ≡ ks (family_key u f)
  pub live :
      (d f : Text) (left : Option ℕ)
      → ks' (refresh_key d) ≡ some (text_entry (session_value u f) left)
      → (left' : Option ℕ) × (ks (refresh_key d) ≡ some (text_entry (session_value u f) left'))

module _ (u : Uuid) (ks ks' : Keyspace) where
  pub Fewer-IsTracked : Fewer u ks ks' → IsTracked u ks → IsTracked u ks'
  Fewer-IsTracked less t = record {
    families = t.families;
    sessions = ap on_smembers less.sessions ∙ t.sessions;
    digests = t.digests;
    family = λ f. ap on_smembers (less.family f) ∙ t.family f;
    listed = λ d f left h. let (left', e) = less.live d f left h in t.listed d f left' e;
  }

module _ (u : Uuid) (collides : List Text → Text → Bool) (d : Text) (n : ℕ) (ks : Keyspace) where
  same_keys : Fewer u ks ks
  same_keys = record { sessions = refl; family = λ f. refl; live = λ e f left h. (left, h) }

  without_reuse : Fewer u ks (drop (reuse_key d) ks)
  without_reuse = record {
    sessions = rw (reuse_ne_sessions u d) refl;
    family = λ f. rw (reuse_ne_family u f d) refl;
    live = λ e f left h. (left, (rw (reuse_ne_refresh d e) at h));
  }

  spent : (session : Text) → Keyspace
  spent session = put (reuse_key d) (text_entry session (some n)) (drop (refresh_key d) ks)

  spent-live :
      (session e f : Text) (left : Option ℕ)
      → spent session (refresh_key e) ≡ some (text_entry (session_value u f) left)
      → ks (refresh_key e) ≡ some (text_entry (session_value u f) left)
  unfolding spent
  spent-live session e f left h = elim (Bool-cases (text_eq (refresh_key d) (refresh_key e))) [
    | inl same ↦ ground (arith, (rw (reuse_ne_refresh d e, same) at h))
    | inr other ↦ rw (reuse_ne_refresh d e, other) at h
  ]

  spent-Fewer : (session : Text) → Fewer u ks (spent session)
  unfolding spent
  spent-Fewer session = record {
    sessions = rw (reuse_ne_sessions u d, refresh_ne_sessions u d) refl;
    family = λ f. rw (reuse_ne_family u f d, refresh_ne_family u f d) refl;
    live = λ e f left h. (left, spent-live session e f left h);
  }

  reused-Fewer : (r : Reply) → Fewer u ks (perform collides (rotate_reused (reuse_key d) r) ks).1
  reused-Fewer (Reply.bulk session) = without_reuse
  reused-Fewer (Reply.error m) = same_keys
  reused-Fewer _ = same_keys

  session-Fewer :
      (r : Reply)
      → Fewer u ks (perform collides (rotate_session (refresh_key d) (reuse_key d) n r) ks).1
  unfolding spent
  session-Fewer (Reply.bulk session) = spent-Fewer session
  session-Fewer (Reply.error m) = same_keys
  session-Fewer _ = reused-Fewer (on_get (ks (reuse_key d)))

  -- A rotation leaves the sets, whatever it finds.
  pub rotate_script-Fewer :
      Fewer u ks (perform collides (rotate_script (refresh_key d) (reuse_key d) n) ks).1
  unfolding rotate_script
  rotate_script-Fewer = session-Fewer (on_get (ks (refresh_key d)))

module _ (u : Uuid) (f : Text) (ds : List Text) (ks : Keyspace) (t : IsTracked u ks) where
  digests_left : Text → List Text
  digests_left g = if text_eq f g then [] else t.digests g

  family_left : (g : Text) → IsSetOf (digests_left g) (revoked u f ds ks (family_key u g))
  unfolding digests_left
  family_left g =
      ap on_smembers (revoked-other_family u f ds ks g) ∙ elim (Bool-cases (text_eq f g)) [
        | inl same ↦ rw same refl
        | inr other ↦ rw other (t.family g)
      ]

  listed_left :
      IsSetOf ds (ks (family_key u f))
      → (d g : Text) → contains ds d ≡ false
      → contains t.families g ≡ true
      → contains (t.digests g) d ≡ true
      → (contains (without f t.families) g ≡ true) × (contains (digests_left g) d ≡ true)
  unfolding digests_left
  listed_left set d g kept a b = elim (Bool-cases (text_eq f g)) [
    | inl same ↦
        let e = text_eq_sound f g same in
        let all =
          array_injective ds (t.digests g)
            (sym set ∙ ap (λ h. on_smembers (ks (family_key u h))) e ∙ t.family g) in
        ground (arith, sym kept ∙ ap (λ xs. contains xs d) all ∙ b)
    | inr other ↦ (without-other f g t.families other a, rw other b)
  ]

  pub revoked-IsTracked : IsSetOf ds (ks (family_key u f)) → IsTracked u (revoked u f ds ks)
  revoked-IsTracked set = record {
    families = without f t.families;
    sessions = revoked-IsSetOf u f ds ks t.families t.sessions;
    digests = digests_left;
    family = family_left;
    listed = still;
  }
    where
      still :
          (d g : Text) (left : Option ℕ)
          → revoked u f ds ks (refresh_key d) ≡ some (text_entry (session_value u g) left)
          → (contains (without f t.families) g ≡ true) × (contains (digests_left g) d ≡ true)
      still d g left h =
          let h' = sym (revoked-refresh u f ds ks d) ∙ h in
          elim (Bool-cases (contains ds d)) [
            | inl held ↦ ground (arith, (rw held at h'))
            | inr kept ↦
                let (a, b) = t.listed d g left (rw kept at h') in listed_left set d g kept a b
          ]
