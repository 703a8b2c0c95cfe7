-- ===== src/Config/Layer/Flat.antt =====
-- backend/src/application/environment/yaml_source.py: `_flatten` against the list of leaves.
use mathlib.Core.Path.{subst}
use gamely.Base.{
  ◌≡◌, ◌↔◌, refl, sym, ◌∙◌, ap, false, Option, none, some, List, [], ◌∷◌, ◌++◌, append_assoc,
  append-nil, map, Text, codes, text_eq, arith,
}
use gamely.Config.Result.{Result, ok, failed, ◌>>=◌, Gives, map-Gives}
use gamely.Config.Table.{
  Table, lookup, put, IsDistinct, distinct_nil, distinct_cons, put-IsDistinct, differ_sym,
}
use gamely.Config.Layer.{
  Yaml, Fields, fields_nil, fields_cons, mapping, text, scalar, sequence, Leaves, join, add_new,
  add_leaf, flatten, flatten_value,
}

-- The leaves of a document in its order, each with the path of its names.
unfoldable mutual
  pub leaves_of : Fields → List Text → List (List Text × Yaml)
  leaves_of fields_nil prefix = []
  leaves_of (fields_cons name value rest) prefix =
      value_leaves value (prefix ++ name ∷ []) ++ leaves_of rest prefix

  pub value_leaves : Yaml → List Text → List (List Text × Yaml)
  value_leaves (mapping fields) path = leaves_of fields path
  value_leaves (text t) path = (path, text t) ∷ []
  value_leaves (scalar n) path = (path, scalar n) ∷ []
  value_leaves (sequence items) path = (path, sequence items) ∷ []

add_all : List (List Text × Yaml) → Leaves → Result Leaves
add_all [] out = ok out
add_all ((path, value) ∷ ps) out = add_leaf path value out >>= λ out'. add_all ps out'

abbrev pub entry : List Text × Yaml → Text × (Text × Yaml)
entry (path, value) = (join (codes "_") path, (join (codes ".") path, value))

bind_assoc :
    {A B C : Type 0} (m : Result A) (f : A → Result B) (g : B → Result C)
    → (m >>= f >>= g) ≡ (m >>= λ a. f a >>= g)
bind_assoc (ok a) f g = refl
bind_assoc (failed e) f g = refl

bind_ext :
    {A B : Type 0} (m : Result A) (f g : A → Result B)
    → ((a : A) → f a ≡ g a)
    → (m >>= f) ≡ (m >>= g)
bind_ext (ok a) f g h = h a
bind_ext (failed e) f g h = refl

bind_ok : {A : Type 0} (m : Result A) → (m >>= ok) ≡ m
bind_ok (ok a) = refl
bind_ok (failed e) = refl

add_all-append :
    (ps qs : List (List Text × Yaml)) (out : Leaves)
    → add_all (ps ++ qs) out ≡ (add_all ps out >>= λ out'. add_all qs out')
unfolding add_all
add_all-append [] qs out = refl
add_all-append ((path, value) ∷ ps) qs out =
    bind_ext (add_leaf path value out) (λ out'. add_all (ps ++ qs) out')
      (λ out'. add_all ps out' >>= λ r. add_all qs r) (λ out'. add_all-append ps qs out')
    ∙ sym (bind_assoc (add_leaf path value out) (λ out'. add_all ps out') (λ r. add_all qs r))

mutual
  unfolding flatten leaves_of add_all

  flatten-add_all :
      (fields : Fields) (prefix : List Text) (out : Leaves)
      → flatten fields prefix out ≡ add_all (leaves_of fields prefix) out
  flatten-add_all fields_nil prefix out = refl
  flatten-add_all (fields_cons name value rest) prefix out =
      ap (λ m. m >>= λ out'. flatten rest prefix out')
        (value-add_all value (prefix ++ name ∷ []) out)
      ∙ bind_ext (add_all (value_leaves value (prefix ++ name ∷ [])) out)
          (λ out'. flatten rest prefix out') (λ out'. add_all (leaves_of rest prefix) out')
          (λ out'. flatten-add_all rest prefix out')
      ∙ sym (add_all-append (value_leaves value (prefix ++ name ∷ [])) (leaves_of rest prefix) out)

  value-add_all :
      (value : Yaml) (path : List Text) (out : Leaves)
      → flatten_value value path out ≡ add_all (value_leaves value path) out
  value-add_all (mapping fields) path out = flatten-add_all fields path out
  value-add_all (text t) path out = sym (bind_ok (add_leaf path (text t) out))
  value-add_all (scalar n) path out = sym (bind_ok (add_leaf path (scalar n) out))
  value-add_all (sequence items) path out = sym (bind_ok (add_leaf path (sequence items) out))

put-absent :
    {A : Type 0} (k : Text) (a : A) (es : Table A)
    → lookup k es ≡ none
    → put k a es ≡ es ++ (k, a) ∷ []
unfolding put
put-absent k a [] h = refl
put-absent k a ((j, b) ∷ es) h = ground (arith, put-absent k a es)

-- Where leaves are added, they are appended, and the table stays without a double key.
Appends : List (List Text × Yaml) → Leaves → Leaves → Type 0
Appends ps out r = (r ≡ out ++ map entry ps) × (IsDistinct out → IsDistinct r)

then-Appends :
    (path : List Text) (value : Yaml) (ps : List (List Text × Yaml)) (out : Leaves)
    (o : Option (Text × Yaml))
    → lookup (join (codes "_") path) out ≡ o
    → ((out' : Leaves) → Gives (Appends ps out') (add_all ps out'))
    → Gives (Appends ((path, value) ∷ ps) out) (
        add_new (join (codes "_") path) (join (codes ".") path) value out o >>= λ out'.
        add_all ps out')
unfolding Appends
then-Appends path value ps out (some (other, v)) e next = tt
then-Appends path value ps out none e next =
    map-Gives (add_all ps out')
      (λ r h. (
        h.0
            ∙ ap (λ l. l ++ map entry ps) (put-absent k v out e)
            ∙ append_assoc out ((k, v) ∷ []) (map entry ps),
        λ d. h.1 (put-IsDistinct k v out d),
      ))
      (next out')
  where
    k : Text
    k = join (codes "_") path

    v : Text × Yaml
    v = (join (codes ".") path, value)

    out' : Leaves
    out' = put k v out

add_all-Appends :
    (ps : List (List Text × Yaml)) (out : Leaves) → Gives (Appends ps out) (add_all ps out)
unfolding Appends add_all add_leaf
add_all-Appends [] out = (sym (append-nil out), λ d. d)
add_all-Appends ((path, value) ∷ ps) out =
    then-Appends path value ps out (lookup (join (codes "_") path) out) refl
      (λ out'. add_all-Appends ps out')

behind_absent :
    {A : Type 0} (k j : Text) (a : A) (es rest : Table A)
    → lookup j (es ++ (k, a) ∷ rest) ≡ none
    → text_eq k j ≡ false
behind_absent k j a [] rest h = ground arith
behind_absent k j a ((i, b) ∷ es) rest h = ground (arith, behind_absent k j a es rest)

before_absent :
    {A : Type 0} (k : Text) (a : A) (es rest : Table A)
    → IsDistinct (es ++ (k, a) ∷ rest)
    → lookup k es ≡ none
before_absent k a [] rest h = refl
before_absent k a ((j, b) ∷ es) rest (distinct_cons absent h) =
    rw (differ_sym k j (behind_absent k j a es rest absent)) (before_absent k a es rest h)

distinct-add_all :
    (ps : List (List Text × Yaml)) (out : Leaves)
    → IsDistinct (out ++ map entry ps)
    → add_all ps out ≡ ok (out ++ map entry ps)
unfolding add_all add_leaf
distinct-add_all [] out h = ap ok (sym (append-nil out))
distinct-add_all ((path, value) ∷ ps) out h =
    let k = join (codes "_") path in
    let v : Text × Yaml = (join (codes ".") path, value) in
    let absent = before_absent k v out (map entry ps) h in
    let longer =
      ap (λ l. l ++ map entry ps) (put-absent k v out absent)
      ∙ append_assoc out ((k, v) ∷ []) (map entry ps) in
    ap (λ o. add_new k (join (codes ".") path) value out o >>= λ out'. add_all ps out') absent
    ∙ distinct-add_all ps (put k v out) (subst IsDistinct (sym longer) h)
    ∙ ap ok longer

-- A document is flattened exactly where its leaves have different joined names, and then to its leaves
-- in their order, each under the names on its path joined by underscores, with its dotted path.
pub flatten-leaves_of :
    (fields : Fields) (r : Leaves)
    → (flatten fields [] [] ≡ ok r) ↔ ((r ≡ map entry (leaves_of fields [])) × IsDistinct r)
unfolding Appends
flatten-leaves_of fields r = (
  λ e.
      let (same, distinct) =
        subst (Gives (Appends (leaves_of fields []) [])) (sym (flatten-add_all fields [] []) ∙ e)
          (add_all-Appends (leaves_of fields []) []) in
      (same, distinct distinct_nil),
  λ h.
      flatten-add_all fields [] []
      ∙ distinct-add_all (leaves_of fields []) [] (subst IsDistinct h.0 h.1)
      ∙ ap ok (sym h.0),
)
