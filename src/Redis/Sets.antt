-- ===== src/Redis/Sets.antt =====
-- The sets of a keyspace under SADD and EXPIRE, by their documented effects.
use mathlib.Core.Path.{subst}
use gamely.Base.{
  ℕ, ◌≡◌, refl, sym, true, false, Bool-cases, inl, inr, Option, none, some, List, [], ◌∷◌, Text,
  text_eq, text_eq_refl, text_eq_sound, contains, if◌then◌else◌, arith,
}
use gamely.Redis.{Reply}
use gamely.Redis.Documented.{
  Value, str, members, filter, Entry, Keyspace, on_smembers, list_members, on_sadd, add_member,
  on_expire, remove, store_members, remove_member, on_srem,
}

-- The members once one is added.
abbrev pub with_member : Text → List Text → List Text
with_member m xs = if contains xs m then xs else m ∷ xs

pub with_member-new : (m : Text) (xs : List Text) → contains (with_member m xs) m ≡ true
with_member-new m xs = elim (Bool-cases (contains xs m)) [
  | inl there ↦ rw there there
  | inr absent ↦ rw absent (rw (text_eq_refl m) refl)
]

pub with_member-old :
    (m x : Text) (xs : List Text) → contains xs x ≡ true → contains (with_member m xs) x ≡ true
with_member-old m x xs h = elim (Bool-cases (contains xs m)) [
  | inl there ↦ rw there h
  | inr absent ↦ ground arith
]

-- A key that is a set, or absent.
abbrev pub IsSetOf : List Text → Option Entry → Type 0
IsSetOf xs o = on_smembers o ≡ Reply.array xs

pub array_injective : (xs ys : List Text) → Reply.array xs ≡ Reply.array ys → xs ≡ ys
array_injective xs ys e = ground (arith, e)

module _ (k m : Text) (ks : Keyspace) where
  add_member-IsSetOf :
      (xs : List Text) (v : Value) (left : Option ℕ)
      → ks k ≡ some (record { value = v; left = left })
      → list_members v ≡ Reply.array xs
      → IsSetOf (with_member m xs) ((add_member k m v left ks).1 k)
  add_member-IsSetOf xs (members ys) left e h =
      subst (λ zs. IsSetOf (with_member m zs) ((add_member k m (members ys) left ks).1 k))
        (array_injective ys xs h)
        (elim (Bool-cases (contains ys m)) [
          | inl there ↦ rw there (rw e refl)
          | inr absent ↦ rw absent (rw (text_eq_refl k) refl)
        ])
  add_member-IsSetOf xs (str t) left e h = ground arith
  add_member-IsSetOf xs (filter ys d) left e h = ground arith

  add_member-other :
      (v : Value) (left : Option ℕ) (j : Text)
      → text_eq k j ≡ false
      → (add_member k m v left ks).1 j ≡ ks j
  add_member-other (members ys) left j other = elim (Bool-cases (contains ys m)) [
    | inl there ↦ rw there refl
    | inr absent ↦ rw absent (rw other refl)
  ]
  add_member-other (str t) left j other = refl
  add_member-other (filter ys d) left j other = refl

  pub sadd-IsSetOf :
      (xs : List Text) (o : Option Entry)
      → ks k ≡ o
      → IsSetOf xs o
      → IsSetOf (with_member m xs) ((on_sadd k m o ks).1 k)
  sadd-IsSetOf xs none e h =
      subst (λ zs. IsSetOf (with_member m zs) ((on_sadd k m none ks).1 k)) (array_injective [] xs h)
        (rw (text_eq_refl k) refl)
  sadd-IsSetOf xs (some entry) e h = add_member-IsSetOf xs entry.value entry.left e h

  pub sadd-other :
      (o : Option Entry) (j : Text) → text_eq k j ≡ false → (on_sadd k m o ks).1 j ≡ ks j
  sadd-other none j other = rw other refl
  sadd-other (some entry) j other = add_member-other entry.value entry.left j other

module _ (k : Text) (t : ℕ) (ks : Keyspace) where
  pub expire-IsSetOf :
      (xs : List Text) (o : Option Entry)
      → ks k ≡ o
      → IsSetOf xs o
      → IsSetOf xs ((on_expire k t o ks).1 k)
  expire-IsSetOf xs none e h = rw e h
  expire-IsSetOf xs (some entry) e h = rw (text_eq_refl k) h

  pub expire-other :
      (o : Option Entry) (j : Text) → text_eq k j ≡ false → (on_expire k t o ks).1 j ≡ ks j
  expire-other none j other = refl
  expire-other (some entry) j other = rw other refl

-- The members once one is removed.
abbrev pub without : Text → List Text → List Text
without m xs = if contains xs m then remove m xs else xs

remove-other :
    (m x : Text) (xs : List Text)
    → text_eq m x ≡ false
    → contains xs x ≡ true
    → contains (remove m xs) x ≡ true
remove-other m x [] other h = h
remove-other m x (y ∷ ys) other h = elim (Bool-cases (text_eq m y)) [
  | inl same ↦ rw same (remove-other m x ys other (rw (sym (text_eq_sound m y same), other) at h))
  | inr kept ↦ rw kept (elim (Bool-cases (text_eq y x)) [
    | inl here ↦ rw here refl
    | inr behind ↦ rw behind (remove-other m x ys other (rw behind at h))
  ])
]

pub without-other :
    (m x : Text) (xs : List Text)
    → text_eq m x ≡ false
    → contains xs x ≡ true
    → contains (without m xs) x ≡ true
without-other m x xs other h = elim (Bool-cases (contains xs m)) [
  | inl there ↦ rw there (remove-other m x xs other h)
  | inr absent ↦ rw absent h
]

module _ (k m : Text) (ks : Keyspace) where
  stored-IsSetOf : (xs : List Text) (left : Option ℕ) → IsSetOf xs (store_members k xs left ks k)
  stored-IsSetOf [] left = rw (text_eq_refl k) refl
  stored-IsSetOf (x ∷ xs) left = rw (text_eq_refl k) refl

  remove_member-IsSetOf :
      (xs : List Text) (v : Value) (left : Option ℕ)
      → ks k ≡ some (record { value = v; left = left })
      → list_members v ≡ Reply.array xs
      → IsSetOf (without m xs) ((remove_member k m v left ks).1 k)
  remove_member-IsSetOf xs (members ys) left e h =
      subst (λ zs. IsSetOf (without m zs) ((remove_member k m (members ys) left ks).1 k))
        (array_injective ys xs h)
        (elim (Bool-cases (contains ys m)) [
          | inl there ↦ rw there (stored-IsSetOf (remove m ys) left)
          | inr absent ↦ rw absent (rw e refl)
        ])
  remove_member-IsSetOf xs (str t) left e h = ground arith
  remove_member-IsSetOf xs (filter ys d) left e h = ground arith

  pub srem-IsSetOf :
      (xs : List Text) (o : Option Entry)
      → ks k ≡ o
      → IsSetOf xs o
      → IsSetOf (without m xs) ((on_srem k m o ks).1 k)
  srem-IsSetOf xs none e h =
      subst (λ zs. IsSetOf (without m zs) (ks k)) (array_injective [] xs h) (rw e refl)
  srem-IsSetOf xs (some entry) e h = remove_member-IsSetOf xs entry.value entry.left e h
