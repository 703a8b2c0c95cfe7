-- ===== src/Ioc/Lifetimes.antt =====
-- backend/src/application/ioc/container.py: one scope among others over its whole life.
use gamely.Base.{
  ℕ, ◌≡◌, refl, sym, ◌∙◌, ap, ◌⊎◌, inl, inr, ◌++◌, append-nil, Bool-cases, Bool, true, false, none,
  some, List, [], ◌∷◌, if◌then◌else◌, arith,
}
use gamely.Errors.{Exec, Outcome, returns, raises, cancelled, pure, continue}
use gamely.Ioc.{
  Instance, Descriptor, Store, Owner, root, scope, cache, root_get, scope_get, dispose_and_clear,
  close_scope, dispose_all, clear_scope, reverse, dispose, DisposalMethod,
}
use gamely.Ioc.Dict.{Entries, lookup, values}
use gamely.Ioc.Closing.{log, log-log, calls, end_of, dispose_lem}
use gamely.Ioc.Caching.{Grows, root_get-Growing, scope_get-Growing, IsProper}

-- Another scope of the same root takes the place of this one, and gives it back.
abbrev pub enter : Entries Instance → Bool → Store → Store
enter es c s = record s { scoped = es; closed = c }

abbrev pub leave : Store → Store → Store
leave s s' = record s' { scoped = s.scoped; closed = s.closed }

-- What happens to one scope and its root: a `get` of the scope, of the root or of another scope, a
-- new scope elsewhere, and the closing of this or of another one.
pub data Step (ds : Entries Descriptor) : Store → Store → Type 0 where
  here : (n t : ℕ) (s : Store) → Step ds s (scope_get ds n t s).1
  at_root : (n t : ℕ) (s : Store) → Step ds s (root_get ds n t s).1
  elsewhere :
      (es : Entries Instance) (c : Bool) (n t : ℕ) (s : Store)
      → Step ds s (leave s (scope_get ds n t (enter es c s)).1)
  closing : (s : Store) → Step ds s (close_scope s).1
  closing_elsewhere :
      (es : Entries Instance) (c : Bool) (s : Store)
      → Step ds s (leave s (close_scope (enter es c s)).1)

pub data Steps (ds : Entries Descriptor) : Store → Store → Type 0 where
  done : (s : Store) → Steps ds s s
  next : {s t u : Store} → Step ds s t → Steps ds t u → Steps ds s u

-- A store with an empty root and a new scope.
abbrev pub new_store : Store
new_store = record { singletons = []; scoped = []; closed = false; made = 0; disposed = [] }

-- A closing ends in this form, whatever the disposals do.
record Closed (s s' : Store) : Type 0 where
  same_singletons : s'.singletons ≡ s.singletons
  scoped_or_empty : (s'.scoped ≡ s.scoped) ⊎ (s'.scoped ≡ [])
  closed_now : s'.closed ≡ true

then-log :
    (i : Instance) (s : Store) (k : Exec Store (Unit {0}))
    → ((t : Store) → (cs : List (ℕ × DisposalMethod)) × ((k t).1 ≡ log cs t))
    → (p : Outcome (Unit {0}) × Store) → p ≡ (end_of i, log (calls i) s)
    → (cs : List (ℕ × DisposalMethod)) × ((continue (λ _. k) p.0 p.1).1 ≡ log cs s)
then-log i s k rest (returns x, t) h =
    let (cs, e) = rest t in (calls i ++ cs, e ∙ ap (λ q. log cs q.1) h ∙ log-log (calls i) cs s)
then-log i s k rest (raises x, t) h = (calls i, ap (λ q. q.1) h)
then-log i s k rest (cancelled, t) h = (calls i, ap (λ q. q.1) h)

dispose_all-log :
    (is : List Instance) (s : Store)
    → (cs : List (ℕ × DisposalMethod)) × ((dispose_all is s).1 ≡ log cs s)
unfolding dispose_all
dispose_all-log [] s = ([], simp append-nil)
dispose_all-log (i ∷ is) s =
    then-log i s (dispose_all is) (λ t. dispose_all-log is t) (dispose i s) (dispose_lem i s)

clear-Closed :
    (s : Store) (r : Outcome (Unit {0})) (t : Store) (cs : List (ℕ × DisposalMethod))
    → t ≡ log cs (record s { closed = true })
    → Closed s (continue (λ _. clear_scope) r t).1
clear-Closed s (returns x) t cs h = record {
  same_singletons = ap Store.singletons h;
  scoped_or_empty = inr refl;
  closed_now = ap Store.closed h;
}
clear-Closed s (raises x) t cs h = record {
  same_singletons = ap Store.singletons h;
  scoped_or_empty = inl (ap Store.scoped h);
  closed_now = ap Store.closed h;
}
clear-Closed s cancelled t cs h = record {
  same_singletons = ap Store.singletons h;
  scoped_or_empty = inl (ap Store.scoped h);
  closed_now = ap Store.closed h;
}

closed_or-Closed :
    (shut : Bool) (s : Store)
    → s.closed ≡ shut
    → Closed s ((if shut then pure tt else dispose_and_clear) s).1
closed_or-Closed true s h = record {
  same_singletons = refl;
  scoped_or_empty = inl refl;
  closed_now = h;
}
closed_or-Closed false s h =
    let all = dispose_all (reverse (values s.scoped)) (record s { closed = true }) in
    let (cs, e) = dispose_all-log (reverse (values s.scoped)) (record s { closed = true }) in
    clear-Closed s all.0 all.1 cs e

close_scope-Closed : (s : Store) → Closed s (close_scope s).1
unfolding close_scope
close_scope-Closed s = closed_or-Closed s.closed s refl

pub close_scope-shut : (s : Store) → (close_scope s).1.closed ≡ true
close_scope-shut s = (close_scope-Closed s).closed_now

-- What a step does to the two caches and to the flag.
pub record Follows (ds : Entries Descriptor) (s s' : Store) : Type 0 where
  pub singletons_kept :
      (u : ℕ) (b : Instance) → lookup u s.singletons ≡ some b → lookup u s'.singletons ≡ some b
  pub scoped_kept :
      s'.closed ≡ false
      → (u : ℕ) (b : Instance) → lookup u s.scoped ≡ some b
      → lookup u s'.scoped ≡ some b
  pub stays_closed : s.closed ≡ true → s'.closed ≡ true
  pub proper : (who : Owner) → IsProper ds who (cache who s) → IsProper ds who (cache who s')

Grows-Follows : (ds : Entries Descriptor) (s s' : Store) → Grows ds s s' → Follows ds s s'
Grows-Follows ds s s' g = record {
  singletons_kept = g.kept root;
  scoped_kept = λ _. g.kept scope;
  stays_closed = λ h. g.same_closed ∙ h;
  proper = g.proper;
}

-- Another scope leaves this one as it was.
leave-Follows :
    (ds : Entries Descriptor) (s s' : Store)
    → ((u : ℕ) (b : Instance) → lookup u s.singletons ≡ some b → lookup u s'.singletons ≡ some b)
    → (IsProper ds root s.singletons → IsProper ds root s'.singletons)
    → Follows ds s (leave s s')
leave-Follows ds s s' kept proper = record {
  singletons_kept = kept;
  scoped_kept = λ _ u b h. h;
  stays_closed = λ h. h;
  proper = all;
}
  where
    all : (who : Owner) → IsProper ds who (cache who s) → IsProper ds who (cache who (leave s s'))
    all root p = proper p
    all scope p = p

nothing_there : {A : Type 0} {i : Instance} → none ≡ some i → A
nothing_there e = ground arith

Closed-Follows : (ds : Entries Descriptor) (s s' : Store) → Closed s s' → Follows ds s s'
unfolding IsProper
Closed-Follows ds s s' h = record {
  singletons_kept = λ u b e. ap (lookup u) h.same_singletons ∙ e;
  scoped_kept = λ opened u b e. ground (arith, h.closed_now);
  stays_closed = λ _. h.closed_now;
  proper = all;
}
  where
    all : (who : Owner) → IsProper ds who (cache who s) → IsProper ds who (cache who s')
    all root p t i e = p t i (ap (lookup t) (sym h.same_singletons) ∙ e)
    all scope p t i e = elim h.scoped_or_empty [
      | inl same ↦ p t i (ap (lookup t) (sym same) ∙ e)
      | inr empty ↦ nothing_there (ap (lookup t) (sym empty) ∙ e)
    ]

Step-Follows : (ds : Entries Descriptor) {s s' : Store} → Step ds s s' → Follows ds s s'
Step-Follows ds (here n t s) = Grows-Follows ds s _ ((scope_get-Growing ds n t).grows s)
Step-Follows ds (at_root n t s) = Grows-Follows ds s _ ((root_get-Growing ds n t).grows s)
Step-Follows ds (elsewhere es c n t s) =
    let g = (scope_get-Growing ds n t).grows (enter es c s) in
    leave-Follows ds s (scope_get ds n t (enter es c s)).1 (g.kept root) (g.proper root)
Step-Follows ds (closing s) = Closed-Follows ds s _ (close_scope-Closed s)
Step-Follows ds (closing_elsewhere es c s) =
    let f =
      Closed-Follows ds (enter es c s) (close_scope (enter es c s)).1
        (close_scope-Closed (enter es c s)) in
    leave-Follows ds s (close_scope (enter es c s)).1 f.singletons_kept (f.proper root)

module _ (ds : Entries Descriptor) where
  pub Steps-singletons :
      {s s' : Store} (u : ℕ) (b : Instance)
      → Steps ds s s'
      → lookup u s.singletons ≡ some b
      → lookup u s'.singletons ≡ some b
  Steps-singletons u b (done s) h = h
  Steps-singletons u b (next step rest) h =
      Steps-singletons u b rest ((Step-Follows ds step).singletons_kept u b h)

  pub Steps-closed : {s s' : Store} → Steps ds s s' → s.closed ≡ true → s'.closed ≡ true
  Steps-closed (done s) h = h
  Steps-closed (next step rest) h = Steps-closed rest ((Step-Follows ds step).stays_closed h)

  open_before : {s s' : Store} → Steps ds s s' → s'.closed ≡ false → s.closed ≡ false
  open_before {s} steps h = elim (Bool-cases s.closed) [
    | inl shut ↦ ground (arith, Steps-closed steps shut)
    | inr opened ↦ opened
  ]

  pub Steps-scoped :
      {s s' : Store} (u : ℕ) (b : Instance)
      → Steps ds s s'
      → s'.closed ≡ false
      → lookup u s.scoped ≡ some b
      → lookup u s'.scoped ≡ some b
  Steps-scoped u b (done s) opened h = h
  Steps-scoped u b (next step rest) opened h =
      Steps-scoped u b rest opened
        ((Step-Follows ds step).scoped_kept (open_before rest opened) u b h)

  pub Steps-IsProper :
      {s s' : Store} (who : Owner)
      → Steps ds s s'
      → IsProper ds who (cache who s)
      → IsProper ds who (cache who s')
  Steps-IsProper who (done s) p = p
  Steps-IsProper who (next step rest) p =
      Steps-IsProper who rest ((Step-Follows ds step).proper who p)

  -- Whatever is done with a new scope, the other scopes and their root, the root's cache holds only
  -- services registered as singletons, and the scope's only services registered as scoped.
  pub caches-IsProper :
      (s : Store) (who : Owner) → Steps ds new_store s → IsProper ds who (cache who s)
  unfolding IsProper
  caches-IsProper s root steps = Steps-IsProper root steps (λ t i e. nothing_there e)
  caches-IsProper s scope steps = Steps-IsProper scope steps (λ t i e. nothing_there e)
