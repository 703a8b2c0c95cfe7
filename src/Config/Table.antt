-- ===== src/Config/Table.antt =====
-- Python's `dict` with texts as keys, as the list of its entries in the order of insertion.
use mathlib.Core.Bool.{true≢false}
use gamely.Base.{
  ◌≡◌, refl, ◌∙◌, sym, ap, Bool, true, false, Option, none, some, List, [], ◌∷◌, Text, text_eq,
  text_eq_refl, text_eq_sound, text_eq_complete, Bool-cases, inl, inr, if◌then◌else◌, arith,
}

abbrev pub Table : Type 0 → Type 0
Table A = List (Text × A)

-- A text that is one of two different texts is not the other.
differ : (i k j : Text) → text_eq i k ≡ false → text_eq i j ≡ true → text_eq k j ≡ false
differ i k j h e = elim (Bool-cases (text_eq k j)) [
  | inl same ↦
      elim (true≢false
        (sym (text_eq_complete i k (text_eq_sound i j e ∙ sym (text_eq_sound k j same))) ∙ h)) [ ]
  | inr other ↦ other
]

pub differ_sym : (j k : Text) → text_eq j k ≡ false → text_eq k j ≡ false
differ_sym j k h = differ j k j h (text_eq_refl j)

module _ {A : Type 0} where
  abbrev pub lookup : Text → Table A → Option A
  lookup k [] = none
  lookup k ((j, a) ∷ es) = if text_eq j k then some a else lookup k es

  -- `d[k] = a`
  unfoldable pub put : Text → A → Table A → Table A
  put k a [] = (k, a) ∷ []
  put k a ((j, b) ∷ es) =
      let rest = put k a es in if text_eq j k then (j, a) ∷ es else (j, b) ∷ rest

  -- `d.update(e)`
  unfoldable pub update : Table A → Table A → Table A
  update d [] = d
  update d ((k, a) ∷ es) = update (put k a d) es

  -- The first of two values that is there.
  abbrev pub or_value : Option A → Option A → Option A
  or_value (some a) _ = some a
  or_value none o = o

  text_first :
      (i k j : Text) (a b : A) (o : Option A)
      → i ≡ k
      → (if text_eq i j then some a else o)
        ≡ (if text_eq k j then some a else (if text_eq i j then some b else o))
  text_first i k j a b o e = rw e (again (text_eq k j))
    where
      again :
          (t : Bool) → (if t then some a else o) ≡ (if t then some a else (if t then some b else o))
      again true = refl
      again false = refl

  pub lookup-put :
      (k j : Text) (a : A) (es : Table A)
      → lookup j (put k a es) ≡ (if text_eq k j then some a else lookup j es)
  unfolding put
  lookup-put k j a [] = refl
  lookup-put k j a ((i, b) ∷ es) = elim (Bool-cases (text_eq i k)) [
    | inl same ↦ rw same (text_first i k j a b (lookup j es) (text_eq_sound i k same))
    | inr other ↦ ground (arith, lookup-put k j a es, differ i k j other)
  ]

  pub data IsDistinct : Table A → Type 0 where
    distinct_nil : IsDistinct []
    distinct_cons :
        {k : Text} {a : A} {es : Table A}
        → lookup k es ≡ none
        → IsDistinct es
        → IsDistinct ((k, a) ∷ es)

  -- A `put` and an `update` with tables that name no key twice.
  pub lookup-update :
      (j : Text) (d es : Table A)
      → IsDistinct es
      → lookup j (update d es) ≡ or_value (lookup j es) (lookup j d)
  unfolding update
  lookup-update j d [] h = refl
  lookup-update j d ((k, a) ∷ es) (distinct_cons absent h) =
      lookup-update j (put k a d) es h
      ∙ ap (or_value (lookup j es)) (lookup-put k j a d)
      ∙ first (text_eq k j) refl
    where
      first :
          (t : Bool)
          → text_eq k j ≡ t
          → or_value (lookup j es) (if t then some a else lookup j d)
            ≡ or_value (if t then some a else lookup j es) (lookup j d)
      first true e = rw (sym (ap (λ v. lookup v es) (text_eq_sound k j e)) ∙ absent) refl
      first false e = refl

  pub put-IsDistinct : (k : Text) (a : A) (es : Table A) → IsDistinct es → IsDistinct (put k a es)
  unfolding put
  put-IsDistinct k a [] h = distinct_cons refl distinct_nil
  put-IsDistinct k a ((j, b) ∷ es) (distinct_cons absent h) = elim (Bool-cases (text_eq j k)) [
    | inl same ↦ rw same (distinct_cons absent h)
    | inr other ↦ rw other (
        distinct_cons (lookup-put k j a es ∙ rw (differ_sym j k other) absent)
          (put-IsDistinct k a es h))
  ]
