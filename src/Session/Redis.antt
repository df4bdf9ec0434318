-- ===== src/Session/Redis.antt =====
-- The Redis commands that the session stores send: a parameter of the model, with what the stores
-- rely on as laws. R is the whole world outside the stores. Keys that lapse are steps of the
-- environment. Lists and strings stand under keys of their own.
pub mod Table
pub mod Queues
use cue_api.Common.{
  ℕ, ◌≡◌, ◌≢◌, ◌<◌, String, Bool, true, false, Option, none, some, List, [], ◌∷◌, ◌++◌, reverse,
  length,
}

-- `get`, `set … PX … NX` with whether it answered OK, `del` and `pexpire` with the number of keys
-- they touched.
pub record Strings (R : Type 0) : Type 0 where
  pub get : R → String → Option String
  pub set_nx : R → String → String → ℕ → R × Bool
  pub del : R → String → R × ℕ
  pub pexpire : R → String → ℕ → R × ℕ

module _ {R : Type 0} (strings : Strings R) where
  open strings use {get, set_nx, del, pexpire}

  pub record StringsLaws : Type 0 where
    pub set_nx-free :
        (r : R) (key value : String) (ttl : ℕ)
        → get r key ≡ none
        → ((set_nx r key value ttl).1 ≡ true) × (get (set_nx r key value ttl).0 key ≡ some value)
    pub set_nx-taken :
        (r : R) (key value held : String) (ttl : ℕ)
        → get r key ≡ some held
        → ((set_nx r key value ttl).1 ≡ false) × (get (set_nx r key value ttl).0 key ≡ some held)
    pub set_nx-other :
        (r : R) (key value other : String) (ttl : ℕ)
        → other ≢ key
        → get (set_nx r key value ttl).0 other ≡ get r other
    pub del-gone : (r : R) (key : String) → get (del r key).0 key ≡ none
    pub del-count : (r : R) (key held : String) → get r key ≡ some held → (del r key).1 ≡ 1
    pub del-other :
        (r : R) (key other : String) → other ≢ key → get (del r key).0 other ≡ get r other
    pub pexpire-same :
        (r : R) (key other : String) (ttl : ℕ) → get (pexpire r key ttl).0 other ≡ get r other

-- `rpush` with the length it answers, `lrange 0 -1`, `lpush` of several values and the key's `del`
-- and `pexpire`.
pub record Lists (R : Type 0) : Type 0 where
  pub lrange : R → String → List String
  pub rpush : R → String → String → R × ℕ
  pub lpush : R → String → List String → R
  pub del : R → String → R
  pub pexpire : R → String → ℕ → R

module _ {R : Type 0} (lists : Lists R) where
  open lists use {lrange, rpush, lpush, del, pexpire}

  -- `lpush` puts its values before the list one after the other, so the last comes first.
  pub record ListsLaws : Type 0 where
    pub lrange-rpush :
        (r : R) (key value : String) → lrange (rpush r key value).0 key ≡ lrange r key ++ value ∷ []
    pub rpush-length :
        (r : R) (key value : String)
        → (rpush r key value).1 ≡ length (lrange (rpush r key value).0 key)
    pub lrange-lpush :
        (r : R) (key : String) (values : List String)
        → lrange (lpush r key values) key ≡ reverse values ++ lrange r key
    pub lrange-del : (r : R) (key : String) → lrange (del r key) key ≡ []
    pub lrange-pexpire :
        (r : R) (key other : String) (ttl : ℕ) → lrange (pexpire r key ttl) other ≡ lrange r other
