-- ===== src/Auth/Warmer/Loop.antt =====
-- The loop over the batches of registered addresses, and what the filter's keys hold meanwhile.
use gamely.Base.{
  ℕ, ◌≡◌, ◌⊎◌, inl, inr, refl, sym, ◌∙◌, ap, Option, none, some, List, [], ◌∷◌, ◌++◌, true, Text,
  contains, contains-append_right, text_eq_refl, arith,
}
use gamely.Errors.{Outcome, Exception, returns, raises, cancelled, bind-returns}
use gamely.Redis.{Reply, Command, single}
use gamely.Redis.Documented.{Documented, Keyspace, Entry, put, on_insert, ones}
use gamely.Auth.Filter.{build_email_filter, email_filter_key, email_filter_meta_key}
use gamely.Auth.Filter.Trust.{covers}
use gamely.Auth.Filter.Memory.{filter_entry}
use mathlib.Core.Path.{subst}
use gamely.Auth.Warmer.{Stream, ended, batch, email_filter_lock_key, normalize_all, add_batches}
use gamely.Cuckoo.{add_many, count_ones}
use gamely.Outside.{Outside, World}
use gamely.Settings.{Settings}

-- The addresses of all batches, or the first failure: of `normalize_email`, or of the stream.
abbrev pub append_outcome : Outcome (List Text) → Outcome (List Text) → Outcome (List Text)
append_outcome (returns a) (returns b) = returns (a ++ b)
append_outcome (returns a) (raises x) = raises x
append_outcome (returns a) cancelled = cancelled
append_outcome (raises x) _ = raises x
append_outcome cancelled _ = cancelled

abbrev none_more : Outcome (Unit {0}) → Outcome (List Text)
none_more (returns _) = returns []
none_more (raises x) = raises x
none_more cancelled = cancelled

abbrev pub all_addresses : Stream → Outcome (List Text)
all_addresses (ended r) = none_more r
all_addresses (batch b bs) = append_outcome (normalize_all b) (all_addresses bs)

pub append_outcome-returns :
    (n m : Outcome (List Text)) (es : List Text)
    → append_outcome n m ≡ returns es
    → (a : List Text) × (c : List Text) × (n ≡ returns a) × (m ≡ returns c) × (a ++ c ≡ es)
append_outcome-returns (returns a) (returns c) es h = (a, c, refl, refl, ground arith)
append_outcome-returns (returns a) (raises x) es h = ground arith
append_outcome-returns (returns a) cancelled es h = ground arith
append_outcome-returns (raises x) m es h = ground arith
append_outcome-returns cancelled m es h = ground arith

pub append_outcome-raises :
    (n m : Outcome (List Text)) (x : Exception)
    → append_outcome n m ≡ raises x
    → (n ≡ raises x) ⊎ ((a : List Text) × (n ≡ returns a) × (m ≡ raises x))
append_outcome-raises (returns a) (raises y) x h = inr (a, refl, ground arith)
append_outcome-raises (returns a) (returns c) x h = ground arith
append_outcome-raises (returns a) cancelled x h = ground arith
append_outcome-raises (raises y) m x h = inl (ground arith)
append_outcome-raises cancelled m x h = ground arith

-- Every item of the first is one of the second.
abbrev Subset : List Text → List Text → Type 0
Subset xs ys = (e : Text) → contains xs e ≡ true → contains ys e ≡ true

pub covers-Subset :
    (xs ys es : List Text) → Subset xs ys → covers xs es ≡ true → covers ys es ≡ true
covers-Subset xs ys [] sub h = refl
covers-Subset xs ys (e ∷ es) sub h = ground (arith, sub e, covers-Subset xs ys es sub)

pub covers-append :
    (xs es fs : List Text) → covers xs es ≡ true → covers xs fs ≡ true → covers xs (es ++ fs) ≡ true
covers-append xs [] fs h k = k
covers-append xs (e ∷ es) fs h k = ground (arith, covers-append xs es fs)

pub covers-tail : (x : Text) (xs es : List Text) → covers xs es ≡ true → covers (x ∷ xs) es ≡ true
covers-tail x xs es = covers-Subset xs (x ∷ xs) es (λ e h. ground arith)

pub covers_self : (es xs : List Text) → covers (es ++ xs) es ≡ true
covers_self [] xs = refl
covers_self (e ∷ es) xs =
    ground (arith, text_eq_refl e, covers-tail e (es ++ xs) es (covers_self es xs))

module _ (o : Outside) (D : Documented o.redis) (settings : Settings) (lock : Option Entry) where
  -- What the keys of the filter hold.
  pub record Building (xs : List Text) (w : World o) : Type 0 where
    pub filter_key : D.view w.server email_filter_key ≡ some (filter_entry xs 0 none)
    pub meta_key : D.view w.server email_filter_meta_key ≡ none
    pub lock_key : D.view w.server email_filter_lock_key ≡ lock

  pub add_many-Building :
      (new xs : List Text) (w : World o)
      → Building xs w
      → let (r, w') = add_many o (build_email_filter settings) new w in
        ((n : ℕ) × (r ≡ returns n)) × Building (new ++ xs) w'
  unfolding add_many build_email_filter
  add_many-Building [] xs w b = ((0, refl), b)
  add_many-Building (x ∷ new) xs w b =
      let c = Command.cf_insert email_filter_key settings.auth_email_filter_capacity (x ∷ new) in
      let done = ap (λ e. on_insert email_filter_key (x ∷ new) e (D.view w.server)) b.filter_key in
      let left : D.view (D.after (single c) w.server)
          ≡ put email_filter_key (filter_entry (x ∷ (new ++ xs)) 0 none) (D.view w.server) =
        D.view-after (single c) w.server ∙ ap (λ (p : Reply × Keyspace). p.1) done in
      rw (D.run_lem, done)
        (
          (count_ones (ones (x ∷ new)), refl),
          record {
            filter_key = ap (λ (ks : Keyspace). ks email_filter_key) left;
            meta_key = ap (λ (ks : Keyspace). ks email_filter_meta_key) left ∙ b.meta_key;
            lock_key = ap (λ (ks : Keyspace). ks email_filter_lock_key) left ∙ b.lock_key;
          },
        )

  -- What the loop has done when it ends well.
  pub record Built (es xs : List Text) (r : Outcome (Unit {0}) × World o) : Type 0 where
    pub ended : r.0 ≡ returns tt
    pub all_items : List Text
    pub building : Building all_items r.1
    pub kept : Subset xs all_items
    pub complete : covers all_items es ≡ true

  pub Built-step :
      (a c xs : List Text) (r : Outcome (Unit {0}) × World o)
      → Built c (a ++ xs) r
      → Built (a ++ c) xs r
  Built-step a c xs r b = record {
    ended = b.ended;
    all_items = b.all_items;
    building = b.building;
    kept = λ e h. b.kept e (contains-append_right a xs e h);
    complete =
        covers-append b.all_items a c
          (covers-Subset (a ++ xs) b.all_items a b.kept (covers_self a xs)) b.complete;
  }

  pub add_batches-first :
      (b a xs : List Text) (rest : Stream) (w : World o)
      → normalize_all b ≡ returns a
      → Building xs w
      → add_batches o settings (batch b rest) w
        ≡ add_batches o settings rest (add_many o (build_email_filter settings) a w).1
  unfolding add_batches
  add_batches-first b a xs rest w e h =
      let ((n, done), _) = add_many-Building a xs w h in
      rw e (bind-returns (add_many o (build_email_filter settings) a) _ w n done)

  pub add_batches-Built :
      (batches : Stream) (es xs : List Text) (w : World o)
      → all_addresses batches ≡ returns es
      → Building xs w
      → Built es xs (add_batches o settings batches w)
  add_batches-Built (ended (returns _)) es xs w e h =
      let same : [] ≡ es = ground arith in
      subst (λ es. Built es xs (add_batches o settings (ended (returns tt)) w)) same
        (unfold add_batches in
          record { ended = refl; all_items = xs; building = h; kept = λ e h. h; complete = refl })
  add_batches-Built (ended (raises x)) es xs w e h = ground arith
  add_batches-Built (ended cancelled) es xs w e h = ground arith
  add_batches-Built (batch b rest) es xs w e h =
      let (a, c, now, later, same) =
        append_outcome-returns (normalize_all b) (all_addresses rest) es e in
      let (_, b1) = add_many-Building a xs w h in
      let w1 = (add_many o (build_email_filter settings) a w).1 in
      let built = add_batches-Built rest c (a ++ xs) w1 later b1 in
      subst (λ es. Built es xs (add_batches o settings (batch b rest) w)) same
        (subst (Built (a ++ c) xs) (sym (add_batches-first b a xs rest w now h))
          (Built-step a c xs (add_batches o settings rest w1) built))

  -- What it has done when an address is refused, or the stream fails.
  pub record Stopped (x : Exception) (r : Outcome (Unit {0}) × World o) : Type 0 where
    pub ended : r.0 ≡ raises x
    pub all_items : List Text
    pub building : Building all_items r.1

  pub add_batches-refused :
      (b : List Text) (rest : Stream) (x : Exception) (w : World o)
      → normalize_all b ≡ raises x
      → add_batches o settings (batch b rest) w ≡ (raises x, w)
  unfolding add_batches
  add_batches-refused b rest x w e = rw e

  pub add_batches-Stopped :
      (batches : Stream) (x : Exception) (xs : List Text) (w : World o)
      → all_addresses batches ≡ raises x
      → Building xs w
      → Stopped x (add_batches o settings batches w)
  add_batches-Stopped (ended (returns _)) x xs w e h = ground arith
  add_batches-Stopped (ended (raises y)) x xs w e h =
      unfold add_batches in record { ended = ground arith; all_items = xs; building = h }
  add_batches-Stopped (ended cancelled) x xs w e h = ground arith
  add_batches-Stopped (batch b rest) x xs w e h =
      elim (append_outcome-raises (normalize_all b) (all_addresses rest) x e) [
        | inl now ↦
            subst (Stopped x) (sym (add_batches-refused b rest x w now))
              (record { ended = refl; all_items = xs; building = h })
        | inr (a, now, later) ↦
            let (_, b1) = add_many-Building a xs w h in
            subst (Stopped x) (sym (add_batches-first b a xs rest w now h)) (
              add_batches-Stopped rest x (a ++ xs) (add_many o (build_email_filter settings) a w).1
                later b1)
      ]
  -- The rebuild up to the loop, and from it on.
