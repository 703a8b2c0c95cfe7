-- ===== src/Auth/Warmer/Rebuild.antt =====
-- `_rebuild`, backend/src/features/auth/availability/email_filter_warmer.py.
use gamely.Base.{◌≡◌, refl, ◌∙◌, ap, Option, none, List, [], ◌∷◌, true, Text, text_eq_refl}
use gamely.Errors.{Exception, returns, raises, bind-returns, bind-raises, ◌>>◌}
use gamely.Redis.{Reply, Command, SetMode, single}
use gamely.Redis.Documented.{Documented, Keyspace, Entry, str, put, drop, perform}
use gamely.Auth.Filter.{build_email_filter, email_filter_key, email_filter_meta_key}
use gamely.Auth.Filter.Trust.{items, is_trusted, covers}
use gamely.Auth.Filter.Memory.{filter_entry}
use gamely.Auth.Warmer.{Stream, email_filter_lock_key, add_batches, rebuild}
use gamely.Cuckoo.{fingerprint, mark_ready, drop_filter, reserve}
use gamely.Outside.{Outside, World}
use gamely.Settings.{Settings}
use gamely.Auth.Warmer.Loop.{all_addresses, Building, add_batches-Built, add_batches-Stopped}

module _ (o : Outside) (D : Documented o.redis) (settings : Settings) (lock : Option Entry) where
  abbrev dropped : World o → World o
  dropped w = record w {
    server =
        D.after (single (Command.del (email_filter_key ∷ email_filter_meta_key ∷ []))) w.server;
  }

  abbrev reserve_command : Command
  reserve_command =
      Command.cf_reserve email_filter_key settings.auth_email_filter_capacity
        settings.auth_email_filter_expansion settings.auth_email_filter_bucket_size
        settings.auth_email_filter_max_iterations

  abbrev reserved : World o → World o
  reserved w = record (dropped w) { server = D.after (single reserve_command) (dropped w).server }

  view-dropped :
      (w : World o)
      → D.view (dropped w).server
        ≡ drop email_filter_meta_key (drop email_filter_key (D.view w.server))
  view-dropped w = D.view-after _ w.server

  reserve-done :
      (w : World o)
      → perform D.collides (single reserve_command) (D.view (dropped w).server) ≡ (
        Reply.ok,
        put email_filter_key
            (filter_entry [] 0 none)
            (drop email_filter_meta_key (drop email_filter_key (D.view w.server))),
      )
  reserve-done w = rw view-dropped

  reserved-Building :
      (w : World o)
      → D.view w.server email_filter_lock_key ≡ lock
      → Building o D settings lock [] (reserved w)
  reserved-Building w held =
      let left =
        D.view-after (single reserve_command) (dropped w).server
        ∙ ap (λ (p : Reply × Keyspace). p.1) (reserve-done w) in
      record {
        filter_key = ap (λ (ks : Keyspace). ks email_filter_key) left;
        meta_key = ap (λ (ks : Keyspace). ks email_filter_meta_key) left;
        lock_key = ap (λ (ks : Keyspace). ks email_filter_lock_key) left ∙ held;
      }

  rebuild-eq :
      (batches : Stream) (w : World o)
      → rebuild o settings batches w
        ≡ (add_batches o settings batches >> mark_ready o (build_email_filter settings))
            (reserved w)
  unfolding rebuild drop_filter reserve build_email_filter
  rebuild-eq batches w = rw (D.run_lem, D.run_lem, reserve-done w) refl

  mark_ready-eq :
      (xs : List Text) (w : World o)
      → Building o D settings lock xs w
      → let (r, w') = mark_ready o (build_email_filter settings) w in
        (r ≡ returns tt)
        × (is_trusted settings (D.view w'.server) ≡ true)
        × (items (D.view w'.server email_filter_key) ≡ xs)
        × (D.view w'.server email_filter_lock_key ≡ lock)
  unfolding mark_ready build_email_filter
  mark_ready-eq xs w b =
      let mark = fingerprint (build_email_filter settings) in
      let c = Command.set email_filter_meta_key mark none SetMode.always in
      let left : D.view (D.after (single c) w.server)
          ≡ put email_filter_meta_key (record { value = str mark; left = none }) (D.view w.server) =
        D.view-after (single c) w.server in
      rw (D.run_lem) (
        refl,
        rw left (text_eq_refl mark),
        ap (λ (ks : Keyspace). items (ks email_filter_key)) left ∙ ap items b.filter_key,
        ap (λ (ks : Keyspace). ks email_filter_lock_key) left ∙ b.lock_key,
      )

module _ (o : Outside) (D : Documented o.redis) (settings : Settings) where
  pub rebuild-ends :
      (batches : Stream) (es : List Text) (w : World o)
      → all_addresses batches ≡ returns es
      → let (r, w') = rebuild o settings batches w in
        (r ≡ returns tt)
        × (is_trusted settings (D.view w'.server) ≡ true)
        × (covers (items (D.view w'.server email_filter_key)) es ≡ true)
        × (D.view w'.server email_filter_lock_key ≡ D.view w.server email_filter_lock_key)
  rebuild-ends batches es w e =
      let lock = D.view w.server email_filter_lock_key in
      let start = reserved o D settings lock w in
      let built =
        add_batches-Built o D settings lock batches es [] start e
          (reserved-Building o D settings lock w refl) in
      let (ended, trusted, held, kept) =
        mark_ready-eq o D settings lock built.all_items (add_batches o settings batches start).1
          built.building in
      let whole =
        rebuild-eq o D settings lock batches w
        ∙ bind-returns (add_batches o settings batches) _ start tt built.ended in
      rw whole (ended, trusted, rw held built.complete, kept)

  -- On a documented Redis, where the stream ends well and every address of every batch is accepted by
  -- `normalize_email`, `rebuild` returns, the filter is then marked as complete for these settings, and it holds every
  -- one of the addresses, whatever the keys held before.
  pub rebuild_complete :
      (batches : Stream) (es : List Text) (w : World o)
      → all_addresses batches ≡ returns es
      → let (r, w') = rebuild o settings batches w in
        (r ≡ returns tt)
        × (is_trusted settings (D.view w'.server) ≡ true)
        × (covers (items (D.view w'.server email_filter_key)) es ≡ true)
  rebuild_complete batches es w e =
      let (ended, trusted, held, kept) = rebuild-ends batches es w e in (ended, trusted, held)

  -- On a documented Redis, where the first failure is that `normalize_email` refuses an address or that the
  -- stream raises, `rebuild` raises that exception, the filter has no marker then, and the lock is as it was.
  pub rebuild-refused :
      (batches : Stream) (x : Exception) (w : World o)
      → all_addresses batches ≡ raises x
      → let (r, w') = rebuild o settings batches w in
        (r ≡ raises x)
        × (D.view w'.server email_filter_meta_key ≡ none)
        × (D.view w'.server email_filter_lock_key ≡ D.view w.server email_filter_lock_key)
  rebuild-refused batches x w e =
      let lock = D.view w.server email_filter_lock_key in
      let start = reserved o D settings lock w in
      let stopped =
        add_batches-Stopped o D settings lock batches x [] start e
          (reserved-Building o D settings lock w refl) in
      let whole =
        rebuild-eq o D settings lock batches w
        ∙ bind-raises (add_batches o settings batches) _ start x stopped.ended in
      rw whole (refl, stopped.building.meta_key, stopped.building.lock_key)
