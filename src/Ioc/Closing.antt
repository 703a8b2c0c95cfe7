-- ===== src/Ioc/Closing.antt =====
-- backend/src/application/ioc/container.py: `ServiceScope.close`.
use gamely.Base.{
  ℕ, ◌≡◌, refl, sym, ◌∙◌, ap, true, false, Option, none, some, List, [], ◌∷◌, ◌++◌, append_assoc,
  append-nil,
}
use gamely.Errors.{Outcome, Exception, returns, raises, cancelled, bind-returns, bind-raises}
use gamely.Ioc.{
  DisposalMethod, Instance, Store, call_method, dispose, dispose_all, reverse, close_scope,
  clear_scope,
}
use gamely.Ioc.Dict.{values}

abbrev pub log : List (ℕ × DisposalMethod) → Store → Store
log cs s = record s { disposed = s.disposed ++ cs }

-- The calls that an object with these methods needs: of `aclose` where it has it, else of `close`.
abbrev pub calls_with :
    ℕ → Option (Outcome (Unit {0})) → Option (Outcome (Unit {0})) → List (ℕ × DisposalMethod)
calls_with n (some _) _ = (n, DisposalMethod.aclose) ∷ []
calls_with n none (some _) = (n, DisposalMethod.close) ∷ []
calls_with n none none = []

-- The calls that one object needs: one, or none where it has neither method.
abbrev pub calls : Instance → List (ℕ × DisposalMethod)
calls i = calls_with i.identity i.aclose i.close

abbrev pub end_with : Option (Outcome (Unit {0})) → Option (Outcome (Unit {0})) → Outcome (Unit {0})
end_with (some r) _ = r
end_with none (some r) = r
end_with none none = returns tt

abbrev pub end_of : Instance → Outcome (Unit {0})
end_of i = end_with i.aclose i.close

abbrev pub calls_all : List Instance → List (ℕ × DisposalMethod)
calls_all [] = []
calls_all (i ∷ is) = calls i ++ calls_all is

pub data AllReturn : List Instance → Type 0 where
  none_left : AllReturn []
  one_more :
      {i : Instance} {is : List Instance}
      → end_of i ≡ returns tt
      → AllReturn is
      → AllReturn (i ∷ is)

noted :
    (i : Instance) (m : DisposalMethod) (r : Outcome (Unit {0})) (s : Store)
    → call_method i (some (m, r)) s ≡ (r, log ((i.identity, m) ∷ []) s)
noted i m (returns tt) s = refl
noted i m (raises e) s = refl
noted i m cancelled s = refl

module _ (n : ℕ) (parts : List ℕ) where
  dispose_with :
      (a c : Option (Outcome (Unit {0}))) (s : Store)
      → dispose (record { identity = n; parts = parts; aclose = a; close = c }) s
        ≡ (end_with a c, log (calls_with n a c) s)
  unfolding dispose
  dispose_with (some r) c s =
      noted (record { identity = n; parts = parts; aclose = some r; close = c })
        DisposalMethod.aclose r s
  dispose_with none (some r) s =
      noted (record { identity = n; parts = parts; aclose = none; close = some r })
        DisposalMethod.close r s
  dispose_with none none s = simp append-nil

pub dispose_lem : (i : Instance) (s : Store) → dispose i s ≡ (end_of i, log (calls i) s)
dispose_lem i s = dispose_with i.identity i.parts i.aclose i.close s

pub log-log : (a b : List (ℕ × DisposalMethod)) (s : Store) → log b (log a s) ≡ log (a ++ b) s
log-log a b s = ap (λ l. record s { disposed = l }) (append_assoc s.disposed a b)

pub dispose_all-returns :
    (is : List Instance) (s : Store)
    → AllReturn is
    → dispose_all is s ≡ (returns tt, log (calls_all is) s)
unfolding dispose_all
dispose_all-returns [] s none_left = simp append-nil
dispose_all-returns (i ∷ is) s (one_more e h) =
    bind-returns (dispose i) (λ _. dispose_all is) s tt (ap (λ p. p.0) (dispose_lem i s) ∙ e)
    ∙ ap (λ p. dispose_all is p.1) (dispose_lem i s)
    ∙ dispose_all-returns is (log (calls i) s) h
    ∙ ap (λ t. (returns tt, t)) (log-log (calls i) (calls_all is) s)

pub dispose_all-raises :
    (before : List Instance) (bad : Instance) (after : List Instance) (e : Exception) (s : Store)
    → AllReturn before
    → end_of bad ≡ raises e
    → dispose_all (before ++ bad ∷ after) s ≡ (raises e, log (calls_all before ++ calls bad) s)
unfolding dispose_all
dispose_all-raises [] bad after e s none_left h =
    bind-raises (dispose bad) (λ _. dispose_all after) s e (ap (λ p. p.0) (dispose_lem bad s) ∙ h)
    ∙ ap (λ p. (raises e, p.1)) (dispose_lem bad s)
dispose_all-raises (i ∷ is) bad after e s (one_more r all) h =
    bind-returns (dispose i) (λ _. dispose_all (is ++ bad ∷ after)) s tt
      (ap (λ p. p.0) (dispose_lem i s) ∙ r)
    ∙ ap (λ p. dispose_all (is ++ bad ∷ after) p.1) (dispose_lem i s)
    ∙ dispose_all-raises is bad after e (log (calls i) s) all h
    ∙ ap (λ t. (raises e, t))
        (log-log (calls i) (calls_all is ++ calls bad) s
          ∙ ap (λ l. log l s) (sym (append_assoc (calls i) (calls_all is) (calls bad))))

-- The calls of objects in the opposite order.
abbrev pub calls_back : List Instance → List (ℕ × DisposalMethod)
calls_back [] = []
calls_back (i ∷ is) = calls_back is ++ calls i

calls_all-append : (is js : List Instance) → calls_all (is ++ js) ≡ calls_all is ++ calls_all js
calls_all-append [] js = refl
calls_all-append (i ∷ is) js =
    ap (λ l. calls i ++ l) (calls_all-append is js)
    ∙ sym (append_assoc (calls i) (calls_all is) (calls_all js))

pub calls_all-reverse : (is : List Instance) → calls_all (reverse is) ≡ calls_back is
unfolding reverse
calls_all-reverse [] = refl
calls_all-reverse (i ∷ is) =
    calls_all-append (reverse is) (i ∷ [])
    ∙ ap (λ l. calls_all (reverse is) ++ l) (append-nil (calls i))
    ∙ ap (λ l. l ++ calls i) (calls_all-reverse is)

-- The first closing of a scope whose objects all dispose of themselves calls the method of each
-- object once, the latest object first, empties the scope, and touches neither the root's cache nor
-- anything else.
pub close_scope-returns :
    (s : Store)
    → s.closed ≡ false
    → AllReturn (reverse (values s.scoped))
    → close_scope s ≡ (
      returns tt,
      record s {
        closed = true;
        scoped = [];
        disposed = s.disposed ++ calls_all (reverse (values s.scoped));
      },
    )
unfolding close_scope
close_scope-returns s opened all = rw opened (
    bind-returns (dispose_all (reverse (values s.scoped))) (λ _. clear_scope)
      (record s { closed = true }) tt
      (ap (λ p. p.0)
        (dispose_all-returns (reverse (values s.scoped)) (record s { closed = true }) all))
    ∙ ap (λ p. clear_scope p.1)
        (dispose_all-returns (reverse (values s.scoped)) (record s { closed = true }) all))

-- A closing of a closed scope does nothing.
pub close_scope-closed : (s : Store) → s.closed ≡ true → close_scope s ≡ (returns tt, s)
unfolding close_scope
close_scope-closed s shut = rw shut refl

-- An object whose disposal raises ends the closing with its exception: the objects that were got
-- before it are not disposed of, the scope keeps its entries, and it counts as closed, so that a
-- second closing does nothing.
pub close_scope-raises :
    (s : Store) (before : List Instance) (bad : Instance) (after : List Instance) (e : Exception)
    → s.closed ≡ false
    → reverse (values s.scoped) ≡ before ++ bad ∷ after
    → AllReturn before
    → end_of bad ≡ raises e
    → (close_scope s ≡ (
      raises e,
      record s { closed = true; disposed = s.disposed ++ (calls_all before ++ calls bad) },
    ))
      × (close_scope (close_scope s).1 ≡ (returns tt, (close_scope s).1))
unfolding close_scope
close_scope-raises s before bad after e opened split all h =
    (first, close_scope-closed (close_scope s).1 (ap (λ p. p.1.closed) first))
  where
    shut : Store
    shut = record s { closed = true }

    failed :
        dispose_all (reverse (values s.scoped)) shut
        ≡ (raises e, log (calls_all before ++ calls bad) shut)
    failed = ap (λ is. dispose_all is shut) split ∙ dispose_all-raises before bad after e shut all h

    first : close_scope s ≡ (raises e, log (calls_all before ++ calls bad) shut)
    first = rw opened (
        bind-raises (dispose_all (reverse (values s.scoped))) (λ _. clear_scope) shut e
          (ap (λ p. p.0) failed)
        ∙ ap (λ p. (raises e, p.1)) failed)
