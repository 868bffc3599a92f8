-- ===== src/ListCache.antt =====
-- The cached lists: `read_through_json` and `invalidate` of src/fleet_management/cache.py. The JSON
-- of a list stands for the text that the code builds from the database.
pub mod Staleness
mod Tests
use fleet_management.Prelude.{
  ℕ, ◌+◌, String, Bool, true, false, ◌||◌, Option, none, some, List, [], ◌∷◌, ltb, if◌then◌else◌,
  str_eq,
}

-- A text in Redis and the moment at which it expires.
pub record Entry : Type 0 where
  pub payload : String
  pub expires_at : ℕ

abbrev pub stations_list_key : String
stations_list_key = "cache:stations:list"

abbrev pub vehicles_list_key : String
vehicles_list_key = "cache:vehicles:list"

-- `redis.get`, which finds no entry that has expired
abbrev pub live : ℕ → Option Entry → Option String
live now none = none
live now (some e) = if ltb now e.expires_at then some e.payload else none

-- `redis.set(key, payload, ex=ttl)` at a moment; where it fails nothing is stored
abbrev pub store : Bool → String → Entry → (String → Option Entry) → String → Option Entry
store false key entry redis k = redis k
store true key entry redis k = if str_eq k key then some entry else redis k

-- What is answered, and what Redis holds then, by what the read found.
abbrev pub cached_or_loaded :
    Bool
    → String
    → Entry
    → (String → Option Entry)
    → Option String
    → String × (String → Option Entry)
cached_or_loaded set_up key loaded redis (some cached) = (cached, redis)
cached_or_loaded set_up key loaded redis none = (loaded.payload, store set_up key loaded redis)

-- The read at `now`, the write at `set_at`; `get_up` and `set_up` tell whether Redis answers them.
-- `loaded` is the JSON of the list as the database has it.
unfoldable pub read_through_json :
    (enabled get_up set_up : Bool)
    → (ttl now set_at : ℕ) → (key loaded : String) → (String → Option Entry)
    → String × (String → Option Entry)
read_through_json false get_up set_up ttl now set_at key loaded redis = (loaded, redis)
read_through_json true get_up set_up ttl now set_at key loaded redis =
    cached_or_loaded set_up key (record { payload = loaded; expires_at = set_at + ttl }) redis
      (if get_up then live now (redis key) else none)

abbrev pub is_one_of : String → List String → Bool
is_one_of k [] = false
is_one_of k (key ∷ keys) = str_eq k key || is_one_of k keys

-- `redis.delete`; an error is logged and leaves the entries.
unfoldable pub invalidate : Bool → List String → (String → Option Entry) → String → Option Entry
invalidate false keys redis k = redis k
invalidate true keys redis k = if is_one_of k keys then none else redis k
