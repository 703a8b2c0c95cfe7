-- ===== src/Ioc/Dict.antt =====
-- Python's `dict` with a class as key, as the list of its entries in the order of insertion.
use gamely.Base.{
  ℕ, ◌≡◌, ◌≢◌, Bool, false, Option, none, some, List, [], ◌∷◌, ◌==◌, ◌||◌, if◌then◌else◌, arith,
}

abbrev pub Entries : Type 0 → Type 0
Entries A = List (ℕ × A)

module _ {A : Type 0} where
  abbrev pub lookup : ℕ → Entries A → Option A
  lookup t [] = none
  lookup t ((u, a) ∷ es) = if u == t then some a else lookup t es

  -- `t in d`
  abbrev pub has_key : ℕ → Entries A → Bool
  has_key t [] = false
  has_key t ((u, a) ∷ es) = u == t || has_key t es

  -- `d[t] = a`: in place where the key is there, and at the end otherwise.
  unfoldable pub set_entry : ℕ → A → Entries A → Entries A
  set_entry t a [] = (t, a) ∷ []
  set_entry t a ((u, b) ∷ es) =
      let rest = set_entry t a es in if u == t then (u, a) ∷ es else (u, b) ∷ rest

  abbrev pub values : Entries A → List A
  values [] = []
  values ((u, a) ∷ es) = a ∷ values es

  pub lookup-set_same : (t : ℕ) (a : A) (es : Entries A) → lookup t (set_entry t a es) ≡ some a
  unfolding set_entry
  lookup-set_same t a [] = ground arith
  lookup-set_same t a ((u, b) ∷ es) = ground (arith, lookup-set_same t a es)

  pub lookup-set_other :
      (t u : ℕ) (a : A) (es : Entries A) → t ≢ u → lookup u (set_entry t a es) ≡ lookup u es
  unfolding set_entry
  lookup-set_other t u a [] ne = ground arith
  lookup-set_other t u a ((v, b) ∷ es) ne = ground (arith, lookup-set_other t u a es ne)

  -- A set of a key that is not there leaves every entry that is.
  pub lookup-set_new :
      (t u : ℕ) (a b : A) (es : Entries A)
      → lookup t es ≡ none
      → lookup u es ≡ some b
      → lookup u (set_entry t a es) ≡ some b
  unfolding set_entry
  lookup-set_new t u a b [] absent present = ground arith
  lookup-set_new t u a b ((v, c) ∷ es) absent present = ground (arith, lookup-set_new t u a b es)
