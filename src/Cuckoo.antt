-- ===== src/Cuckoo.antt =====
-- backend/src/infrastructure/redis/cuckoo.py
use Prim.Native.String.{String}
use gamely.Base.{
  ℕ, suc, ◌-◌, Option, Bool, true, false, some, none, List, [], ◌∷◌, ◌++◌, Text, codes, text_eq,
  lower, has_text, ◌==◌, if◌then◌else◌,
}
use gamely.Base.Decimal.{decimal}
use gamely.Errors.{Exec, Exception, redis_error, pure, raise, try_except, ◌>>=◌, ◌>>◌}
use gamely.Redis.{Command, Reply, SetMode, checked, single}
use gamely.Outside.{Outside, World, redis, command}

pub record CuckooFilter : Type 0 where
  pub key : Text
  pub meta_key : Text
  pub capacity : ℕ
  pub bucket_size : ℕ
  pub expansion : ℕ
  pub max_iterations : ℕ

-- The property `fingerprint`.
unfoldable pub fingerprint : CuckooFilter → Text
fingerprint c =
    decimal c.capacity
    ++ (b':'
        ∷ (decimal c.bucket_size
            ++ (b':'
                ∷ (decimal c.expansion ++ (b':' ∷ (decimal c.max_iterations ++ codes ":v1"))))))

-- `"exists" in str(error).lower()`
abbrev says_exists : String → Bool
says_exists m = has_text (codes "exists") (lower (codes m))

-- A reply as the number that the code compares it with 1.
abbrev pub is_one : Reply → Bool
is_one (Reply.int n) = n == 1
is_one _ = false

-- `sum(1 for result in added if result == 1)`
abbrev pub count_ones : List ℕ → ℕ
count_ones [] = 0
count_ones (x ∷ xs) = if x == 1 then suc (count_ones xs) else count_ones xs

abbrev pub added_of : Reply → List ℕ
added_of (Reply.ints xs) = xs
added_of _ = []

-- `marker == self.fingerprint`, on the reply of GET.
abbrev pub is_marker : Text → Reply → Bool
is_marker f (Reply.bulk t) = text_eq t f
is_marker f _ = false

-- `max(inserted - deleted, 0)`; a reply of another shape has neither number.
abbrev live_items : Reply → ℕ
live_items (Reply.info inserted deleted) = inserted - deleted
live_items _ = 0

module _ (o : Outside) (c : CuckooFilter) where
  abbrev exists_already : Exception → Exec (World o) Bool
  exists_already (redis_error m) = if says_exists m then pure false else raise (redis_error m)
  exists_already e = raise e

  unfoldable pub reserve : Exec (World o) Bool
  reserve =
      try_except
        (do
          command o (Command.cf_reserve c.key c.capacity c.expansion c.bucket_size c.max_iterations)
          pure true)
        exists_already

  unfoldable pub add_many : List Text → Exec (World o) ℕ
  add_many [] = pure 0
  add_many (x ∷ xs) = do
    reply ← command o (Command.cf_insert c.key c.capacity (x ∷ xs))
    pure (count_ones (added_of reply))

  unfoldable pub add : Text → Exec (World o) Bool
  unfolding add_many
  add item = do added ← add_many (item ∷ []); pure (added == 1)

  unfoldable pub contains_item : Text → Exec (World o) Bool
  contains_item item = do reply ← command o (Command.cf_exists c.key item); pure (is_one reply)

  -- The pipeline is no transaction: two commands, whose errors are raised once both have run.
  unfoldable pub contains_if_ready : Text → Exec (World o) (Option Bool)
  contains_if_ready item = do
    first ← redis o (single (Command.get c.meta_key))
    second ← redis o (single (Command.cf_exists c.key item))
    marker ← checked first
    hit ← checked second
    pure (if is_marker (fingerprint c) marker then some (is_one hit) else none)

  unfoldable pub is_ready : Exec (World o) Bool
  is_ready = do marker ← command o (Command.get c.meta_key); pure (is_marker (fingerprint c) marker)

  unfoldable pub mark_ready : Exec (World o) (Unit {0})
  mark_ready = do command o (Command.set c.meta_key (fingerprint c) none SetMode.always); pure tt

  unfoldable pub mark_unready : Exec (World o) (Unit {0})
  mark_unready = do command o (Command.del (c.meta_key ∷ [])); pure tt

  unfoldable pub forget_item : Text → Exec (World o) Bool
  forget_item item = do reply ← command o (Command.cf_del c.key item); pure (is_one reply)

  unfoldable pub key_exists : Exec (World o) Bool
  key_exists = do reply ← command o (Command.exists c.key); pure (is_one reply)

  abbrev no_items : Exception → Exec (World o) ℕ
  no_items (redis_error m) = pure 0
  no_items e = raise e

  -- Reading the fields of the reply cannot raise, so it may stand inside the `try`.
  unfoldable pub inserted_count : Exec (World o) ℕ
  inserted_count =
      try_except (do reply ← command o (Command.cf_info c.key); pure (live_items reply)) no_items

  unfoldable pub drop_filter : Exec (World o) (Unit {0})
  drop_filter = do command o (Command.del (c.key ∷ c.meta_key ∷ [])); pure tt
