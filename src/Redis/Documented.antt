-- ===== src/Redis/Documented.antt =====
-- The documented effect of each command on the keys, and what it means that a server has it.
use gamely.Base.{
  ℕ, suc, ◌+◌, ◌≡◌, refl, Bool, true, false, ◌||◌, Option, none, some, List, [], ◌∷◌, ◌++◌, Text,
  text_eq, contains, length, if◌then◌else◌,
}
use gamely.Base.Decimal.{decimal, parse_int}
use gamely.Errors.{returns}
use gamely.Redis.{Redis, Command, Reply, Script, SetMode}

pub data Value : Type 0 where
  str : Text → Value
  members : List Text → Value
  -- the items of a cuckoo filter, once for each insertion, and the number deleted
  filter : List Text → ℕ → Value

-- A key's value and the seconds that it has left, if it expires.
pub record Entry : Type 0 where
  pub value : Value
  pub left : Option ℕ

-- The live keys at one moment.
abbrev pub Keyspace : Type 0
Keyspace = Text → Option Entry

abbrev pub put : Text → Entry → Keyspace → Keyspace
put k e ks j = if text_eq k j then some e else ks j

abbrev pub drop : Text → Keyspace → Keyspace
drop k ks j = if text_eq k j then none else ks j

abbrev pub drop_all : List Text → Keyspace → Keyspace
drop_all [] ks = ks
drop_all (k ∷ rest) ks = drop_all rest (drop k ks)

abbrev pub is_present : Option Entry → Bool
is_present none = false
is_present (some _) = true

abbrev count_present : List Text → Keyspace → ℕ
count_present [] ks = 0
count_present (k ∷ rest) ks =
    if is_present (ks k)
    then suc (count_present rest (drop k ks))
    else count_present rest (drop k ks)

abbrev pub remove : Text → List Text → List Text
remove x [] = []
remove x (y ∷ ys) = let rest = remove x ys in if text_eq x y then rest else y ∷ rest

-- Only one copy goes.
abbrev pub remove_one : Text → List Text → List Text
remove_one x [] = []
remove_one x (y ∷ ys) = let rest = remove_one x ys in if text_eq x y then ys else y ∷ rest

abbrev wrong_type : Reply
wrong_type = Reply.error "WRONGTYPE Operation against a key holding the wrong kind of value"

abbrev pub get_reply : Value → Reply
get_reply (str v) = Reply.bulk v
get_reply _ = wrong_type

abbrev pub on_get : Option Entry → Reply
on_get none = Reply.nil
on_get (some e) = get_reply e.value

abbrev pub ttl_left : Option ℕ → Reply
ttl_left none = Reply.minus 1
ttl_left (some t) = Reply.int t

-- -2 for a key that is absent, -1 for one that does not expire.
abbrev pub on_ttl : Option Entry → Reply
on_ttl none = Reply.minus 2
on_ttl (some e) = ttl_left e.left

-- What a command answers and leaves, by what its key holds.
abbrev Result : Type 0
Result = Reply × Keyspace

abbrev pub on_set : Text → Text → Option ℕ → SetMode → Option Entry → Keyspace → Result
on_set k v ex SetMode.nx (some _) ks = (Reply.nil, ks)
on_set k v ex _ _ ks = (Reply.ok, put k (record { value = str v; left = ex }) ks)

-- SADD keeps the expiry of the key.
abbrev pub add_member : Text → Text → Value → Option ℕ → Keyspace → Result
add_member k m (members xs) left ks =
    if contains xs m
    then (Reply.int 0, ks)
    else (Reply.int 1, put k (record { value = members (m ∷ xs); left = left }) ks)
add_member k m _ left ks = (wrong_type, ks)

abbrev pub on_sadd : Text → Text → Option Entry → Keyspace → Result
on_sadd k m none ks = (Reply.int 1, put k (record { value = members (m ∷ []); left = none }) ks)
on_sadd k m (some e) ks = add_member k m e.value e.left ks

-- A set that loses its last member is deleted.
abbrev pub store_members : Text → List Text → Option ℕ → Keyspace → Keyspace
store_members k [] left ks = drop k ks
store_members k (x ∷ xs) left ks = put k (record { value = members (x ∷ xs); left = left }) ks

abbrev pub remove_member : Text → Text → Value → Option ℕ → Keyspace → Result
remove_member k m (members xs) left ks =
    if contains xs m
    then (Reply.int 1, store_members k (remove m xs) left ks)
    else (Reply.int 0, ks)
remove_member k m _ left ks = (wrong_type, ks)

abbrev pub on_srem : Text → Text → Option Entry → Keyspace → Result
on_srem k m none ks = (Reply.int 0, ks)
on_srem k m (some e) ks = remove_member k m e.value e.left ks

abbrev pub on_expire : Text → ℕ → Option Entry → Keyspace → Result
on_expire k t none ks = (Reply.int 0, ks)
on_expire k t (some e) ks = (Reply.int 1, put k (record e { left = some t }) ks)

abbrev pub list_members : Value → Reply
list_members (members xs) = Reply.array xs
list_members _ = wrong_type

abbrev pub on_smembers : Option Entry → Reply
on_smembers none = Reply.array []
on_smembers (some e) = list_members e.value

abbrev pub count_up : Text → Option ℕ → Option ℕ → Keyspace → Result
count_up k left none ks = (Reply.error "ERR value is not an integer or out of range", ks)
count_up k left (some n) ks =
    (Reply.int (n + 1), put k (record { value = str (decimal (n + 1)); left = left }) ks)

abbrev incr_value : Text → Value → Option ℕ → Keyspace → Result
incr_value k (str v) left ks = count_up k left (parse_int v) ks
incr_value k _ left ks = (wrong_type, ks)

-- INCR keeps the expiry of the key, and an absent key counts from 0.
abbrev pub on_incr : Text → Option Entry → Keyspace → Result
on_incr k none ks = count_up k none (some 0) ks
on_incr k (some e) ks = incr_value k e.value e.left ks

abbrev pub on_reserve : Text → Option Entry → Keyspace → Result
on_reserve k none ks = (Reply.ok, put k (record { value = filter [] 0; left = none }) ks)
on_reserve k (some _) ks = (Reply.error "ERR item exists", ks)

abbrev pub ones : List Text → List ℕ
ones [] = []
ones (x ∷ xs) = 1 ∷ ones xs

abbrev pub insert_items : Text → List Text → Value → Option ℕ → Keyspace → Result
insert_items k new (filter xs d) left ks =
    (Reply.ints (ones new), put k (record { value = filter (new ++ xs) d; left = left }) ks)
insert_items k new _ left ks = (wrong_type, ks)

-- CF.INSERT creates the filter where it is absent. A filter that is full answers otherwise; the
-- program never looks, and a server that has this effect is one with room.
abbrev pub on_insert : Text → List Text → Option Entry → Keyspace → Result
on_insert k new none ks =
    (Reply.ints (ones new), put k (record { value = filter new 0; left = none }) ks)
on_insert k new (some e) ks = insert_items k new e.value e.left ks

abbrev delete_item : Text → Text → Value → Option ℕ → Keyspace → Result
delete_item k x (filter xs d) left ks =
    if contains xs x
    then (Reply.int 1, put k (record { value = filter (remove_one x xs) (suc d); left = left }) ks)
    else (Reply.int 0, ks)
delete_item k x _ left ks = (wrong_type, ks)

abbrev on_cf_del : Text → Text → Option Entry → Keyspace → Result
on_cf_del k x none ks = (Reply.error "Not found", ks)
on_cf_del k x (some e) ks = delete_item k x e.value e.left ks

abbrev filter_info : Value → Reply
filter_info (filter xs d) = Reply.info (length xs + d) d
filter_info _ = wrong_type

abbrev on_info : Option Entry → Reply
on_info none = Reply.error "ERR not found"
on_info (some e) = filter_info e.value

abbrev pub zero_or_one : Bool → Reply
zero_or_one false = Reply.int 0
zero_or_one true = Reply.int 1

-- Two items may share a fingerprint: `collides xs x` says whether `x` meets one of `xs`.
module _ (collides : List Text → Text → Bool) where
  abbrev pub look_up : Text → Value → Reply
  look_up x (filter xs d) = zero_or_one (contains xs x || collides xs x)
  look_up x _ = wrong_type

  abbrev pub on_cf_exists : Text → Option Entry → Reply
  on_cf_exists x none = Reply.int 0
  on_cf_exists x (some e) = look_up x e.value

  abbrev pub step : Command → Keyspace → Reply × Keyspace
  step (Command.set k v ex mode) ks = on_set k v ex mode (ks k) ks
  step (Command.get k) ks = (on_get (ks k), ks)
  step (Command.ttl k) ks = (on_ttl (ks k), ks)
  step (Command.smembers k) ks = (on_smembers (ks k), ks)
  step (Command.incr k) ks = on_incr k (ks k) ks
  step (Command.exists k) ks = (zero_or_one (is_present (ks k)), ks)
  step (Command.del keys) ks = (Reply.int (count_present keys ks), drop_all keys ks)
  step (Command.expire k t) ks = on_expire k t (ks k) ks
  step (Command.sadd k m) ks = on_sadd k m (ks k) ks
  step (Command.srem k m) ks = on_srem k m (ks k) ks
  step (Command.cf_reserve k _ _ _ _) ks = on_reserve k (ks k) ks
  step (Command.cf_insert k _ new) ks = on_insert k new (ks k) ks
  step (Command.cf_exists k x) ks = (on_cf_exists x (ks k), ks)
  step (Command.cf_del k x) ks = on_cf_del k x (ks k) ks
  step (Command.cf_info k) ks = (on_info (ks k), ks)

  abbrev pub perform : Script → Keyspace → Reply × Keyspace
  perform (Script.finish r) ks = (r, ks)
  perform (Script.ask c next) ks = let (r, ks') = step c ks in perform (next r) ks'

-- A server that is up, and has the documented effects. `view` is what it holds.
pub record Documented (r : Redis) : Type 0 where
  pub collides : List Text → Text → Bool
  pub view : r.Server → Keyspace
  pub after : Script → r.Server → r.Server
  pub run_lem :
      (sc : Script) (s : r.Server)
      → r.run sc s ≡ (returns (perform collides sc (view s)).0, after sc s)
  pub view-after :
      (sc : Script) (s : r.Server) → view (after sc s) ≡ (perform collides sc (view s)).1

-- A keyspace is itself such a server.
abbrev pub local_redis : Redis
local_redis = record {
  Server = Keyspace;
  run = λ sc ks. let (r, ks') = perform (λ _ _. false) sc ks in (returns r, ks');
}

abbrev pub local_redis-Documented : Documented local_redis
local_redis-Documented = record {
  collides = λ _ _. false;
  view = λ ks. ks;
  after = λ sc ks. (perform (λ _ _. false) sc ks).1;
  run_lem = λ sc ks. refl;
  view-after = λ sc ks. refl;
}
