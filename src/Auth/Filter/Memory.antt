-- ===== src/Auth/Filter/Memory.antt =====
-- `remember`, backend/src/features/auth/availability/email_filter.py.
use Prim.Native.String.{String}
use gamely.Base.{
  ℕ, ◌≡◌, refl, sym, ◌∙◌, ap, Option, Option-cases, none, some, inl, inr, List, [], ◌∷◌, Bool, true,
  ◌||◌, not, Text, text_eq_refl, arith,
}
use mathlib.Core.Path.{subst}
use gamely.Errors.{Outcome, returns, try_except-returns}
use gamely.Redis.{Reply, Command, single}
use gamely.Redis.Documented.{
  Documented, Keyspace, Entry, Value, filter, str, members, put, drop, perform, on_insert,
}
use gamely.Auth.Filter.{
  build_email_filter, remember, add_address, withdraw_trust, email_filter_key,
  email_filter_meta_key,
}
use gamely.Auth.Filter.Trust.{items, is_safe, is_trusted, covers}
use gamely.Cuckoo.{add, mark_unready}
use gamely.Outside.{Outside, World}
use gamely.Settings.{Settings}

covers-more :
    (x : Text) (xs emails : List Text) → covers xs emails ≡ true → covers (x ∷ xs) emails ≡ true
covers-more x xs [] h = refl
covers-more x xs (e ∷ es) h = ground (arith, covers-more x xs es)

safe_step :
    (trusted : Bool) (xs ys emails : List Text) (email : Text)
    → ys ≡ email ∷ xs
    → (not trusted || covers xs emails) ≡ true
    → (not trusted || covers ys (email ∷ emails)) ≡ true
safe_step trusted xs ys emails email e h =
    subst (λ zs. (not trusted || covers zs (email ∷ emails)) ≡ true) (sym e)
      (ground (arith, text_eq_refl email, covers-more email xs emails))

-- The keys that a successful insertion leaves, and that a withdrawal leaves.
module _ (settings : Settings) (email : Text) (emails : List Text) (ks : Keyspace) where
  safe_inserted :
      (e : Entry)
      → items (some e) ≡ email ∷ items (ks email_filter_key)
      → is_safe settings ks emails ≡ true
      → is_safe settings (put email_filter_key e ks) (email ∷ emails) ≡ true
  safe_inserted e new safe =
      safe_step (is_trusted settings ks) (items (ks email_filter_key)) (items (some e)) emails email
        new safe

  safe_withdrawn : is_safe settings (drop email_filter_meta_key ks) (email ∷ emails) ≡ true
  safe_withdrawn = refl

abbrev pub filter_entry : List Text → ℕ → Option ℕ → Entry
filter_entry xs d left = record { value = filter xs d; left = left }

module _ (o : Outside) (D : Documented o.redis) (settings : Settings) (email : Text)
    (w : World o) where
  abbrev insert_one : Command
  insert_one = Command.cf_insert email_filter_key settings.auth_email_filter_capacity (email ∷ [])

  abbrev inserted : Option Entry → Reply × Keyspace
  inserted e = on_insert email_filter_key (email ∷ []) e (D.view w.server)

  -- How the addition ends, by what the key holds.
  add_address-added :
      (e : Option Entry) (added : Entry)
      → D.view w.server email_filter_key ≡ e
      → inserted e ≡ (Reply.ints (1 ∷ []), put email_filter_key added (D.view w.server))
      → let (r, w') = add_address o settings email w in
        (r ≡ returns tt) × (D.view w'.server ≡ put email_filter_key added (D.view w.server))
  unfolding add_address add build_email_filter
  add_address-added e added h h' =
      let done : perform D.collides (single insert_one) (D.view w.server)
          ≡ (Reply.ints (1 ∷ []), put email_filter_key added (D.view w.server)) =
        ap inserted h ∙ h' in
      rw (D.run_lem, done) (refl, D.view-after (single insert_one) w.server ∙ rw done)

  -- A key of another type: the addition raises, and the marker is deleted.
  remember-withdrawn :
      (e : Option Entry) (m : String)
      → settings.auth_email_filter_enabled ≡ true
      → D.view w.server email_filter_key ≡ e
      → inserted e ≡ (Reply.error m, D.view w.server)
      → D.view (remember o settings email w).1.server ≡ drop email_filter_meta_key (D.view w.server)
  unfolding remember add_address add withdraw_trust mark_unready build_email_filter
  remember-withdrawn e m on h h' =
      let done : perform D.collides (single insert_one) (D.view w.server)
          ≡ (Reply.error m, D.view w.server) =
        ap inserted h ∙ h' in
      let same : D.view (D.after (single insert_one) w.server) ≡ D.view w.server =
        D.view-after (single insert_one) w.server ∙ rw done in
      simp on (
        rw (D.run_lem, done, D.run_lem)
          (D.view-after (single (Command.del (email_filter_meta_key ∷ [])))
              (D.after (single insert_one) w.server)
            ∙ rw same))

  remember-added :
      (e : Option Entry) (added : Entry)
      → settings.auth_email_filter_enabled ≡ true
      → D.view w.server email_filter_key ≡ e
      → inserted e ≡ (Reply.ints (1 ∷ []), put email_filter_key added (D.view w.server))
      → D.view (remember o settings email w).1.server ≡ put email_filter_key added (D.view w.server)
  unfolding remember
  remember-added e added on h h' =
      let done = add_address-added e added h h' in
      simp on (
        ap (λ (p : Outcome Unit × World o). D.view p.1.server)
          (try_except-returns (add_address o settings email) (λ _. withdraw_trust o settings) w tt
            done.0)
        ∙ done.1)

  module _ (emails : List Text) (on : settings.auth_email_filter_enabled ≡ true)
      (safe : is_safe settings (D.view w.server) emails ≡ true) where
    abbrev Kept : Type 0
    Kept = is_safe settings (D.view (remember o settings email w).1.server) (email ∷ emails) ≡ true

    kept_added :
        (e : Option Entry) (added : Entry)
        → D.view w.server email_filter_key ≡ e
        → inserted e ≡ (Reply.ints (1 ∷ []), put email_filter_key added (D.view w.server))
        → items (some added) ≡ email ∷ items e
        → Kept
    kept_added e added h h' new =
        subst (λ ks. is_safe settings ks (email ∷ emails) ≡ true)
          (sym (remember-added e added on h h'))
          (safe_inserted settings email emails (D.view w.server) added (rw h new) safe)

    kept_withdrawn :
        (e : Option Entry) (m : String)
        → D.view w.server email_filter_key ≡ e
        → inserted e ≡ (Reply.error m, D.view w.server)
        → Kept
    kept_withdrawn e m h h' = rw (remember-withdrawn e m on h h') refl

    kept_value :
        (v : Value) (left : Option ℕ)
        → D.view w.server email_filter_key ≡ some (record { value = v; left = left })
        → Kept
    kept_value (filter xs d) left h =
        kept_added (some (filter_entry xs d left)) (filter_entry (email ∷ xs) d left) h refl refl
    kept_value (str t) left h =
        kept_withdrawn (some (record { value = str t; left = left })) _ h refl
    kept_value (members xs) left h =
        kept_withdrawn (some (record { value = members xs; left = left })) _ h refl

    -- On a documented Redis, where the filter is enabled and safe for the registered addresses, it
    -- is safe for these and the noted address after `remember`, also where the addition fails
    -- because the key holds another type.
    pub remember-is_safe :
        is_safe settings (D.view (remember o settings email w).1.server) (email ∷ emails) ≡ true
    remember-is_safe = elim (Option-cases (D.view w.server email_filter_key)) [
      | inl absent ↦ kept_added none (filter_entry (email ∷ []) 0 none) absent refl refl
      | inr (e, present) ↦ kept_value e.value e.left present
    ]
