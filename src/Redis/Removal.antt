-- ===== src/Redis/Removal.antt =====
-- What SREM leaves of the other keys, and when it succeeds, by its documented effect.
use gamely.Base.{ℕ, ◌≡◌, refl, false, Option, none, some, List, [], ◌∷◌, Text, text_eq, arith}
use gamely.Redis.{Reply, first_error}
use gamely.Redis.Documented.{
  Keyspace, Entry, Value, members, remove, on_smembers, on_srem, list_members, remove_member,
  store_members,
}

store_members-other :
    (s : Text) (xs : List Text) (left : Option ℕ) (ks : Keyspace) (k : Text)
    → text_eq s k ≡ false
    → store_members s xs left ks k ≡ ks k
store_members-other s [] left ks k h = ground arith
store_members-other s (x ∷ xs) left ks k h = ground arith

remove_member-other :
    (s m : Text) (v : Value) (left : Option ℕ) (ks : Keyspace) (k : Text)
    → text_eq s k ≡ false
    → (remove_member s m v left ks).1 k ≡ ks k
remove_member-other s m (members xs) left ks k h =
    ground (arith, store_members-other s (remove m xs) left ks k h)
remove_member-other s m _ left ks k h = refl

-- SREM touches its own key alone.
pub on_srem-other :
    (s m : Text) (o : Option Entry) (ks : Keyspace) (k : Text)
    → text_eq s k ≡ false
    → (on_srem s m o ks).1 k ≡ ks k
on_srem-other s m none ks k h = refl
on_srem-other s m (some e) ks k h = remove_member-other s m e.value e.left ks k h

-- On a set, or on no key, SREM succeeds.
remove_member-succeeds :
    (s m : Text) (v : Value) (left : Option ℕ) (ks : Keyspace) (fs : List Text)
    → list_members v ≡ Reply.array fs
    → first_error Reply.ok (remove_member s m v left ks).0 ≡ Reply.ok
remove_member-succeeds s m (members xs) left ks fs h = ground arith
remove_member-succeeds s m _ left ks fs h = cc

pub on_srem-succeeds :
    (s m : Text) (o : Option Entry) (ks : Keyspace) (fs : List Text)
    → on_smembers o ≡ Reply.array fs
    → first_error Reply.ok (on_srem s m o ks).0 ≡ Reply.ok
on_srem-succeeds s m none ks fs h = refl
on_srem-succeeds s m (some e) ks fs h = remove_member-succeeds s m e.value e.left ks fs h
