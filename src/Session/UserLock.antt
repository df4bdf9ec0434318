-- ===== src/Session/UserLock.antt =====
-- modules/assistant/session/user-lock.store.ts and the key of redis.constants.ts: the lock that
-- serializes a user's turns. The random token of an acquisition is an argument. The interval timer
-- of the watchdog is not modelled: its renewals are steps.
pub mod Exclusion
pub mod Frame
mod Examples
use text.Mathlib.Text.{◌==◌ as str_eq}
use cue_api.Common.{ℕ, ◌==◌, String, Bool, true, false, Option, none, some, if◌then◌else◌}
use Prim.Native.String.{◌++◌ as str_append}
use cue_api.Session.Redis.{Strings}

user_lock_key_prefix : String
user_lock_key_prefix = "assistant:lock"

pub user_lock_key : String → String
user_lock_key user_id = str_append (str_append user_lock_key_prefix ":") user_id

-- Whether a stored value is the caller's token: `redis.call('get', KEYS[1]) == ARGV[1]`.
pub is_held_by : Option String → String → Bool
is_held_by none token = false
is_held_by (some held) token = str_eq held token

module _ {R : Type 0} (redis : Strings R) (user_lock_ttl_ms : ℕ) where
  open redis use {get, set_nx, del, pexpire}

  -- The script RELEASE_IF_HOLDER.
  release_if_holder : R → String → String → R × ℕ
  release_if_holder r key token = if is_held_by (get r key) token then del r key else (r, 0)

  -- The script RENEW_IF_HOLDER.
  renew_if_holder : R → String → String → ℕ → R × ℕ
  renew_if_holder r key token ttl =
      if is_held_by (get r key) token then pexpire r key ttl else (r, 0)

  pub acquire : R → String → String → R × Option String
  acquire r user_id token =
      let (r', ok) = set_nx r (user_lock_key user_id) token user_lock_ttl_ms in
      (r', if ok then some token else none)

  pub release : R → String → String → R × Bool
  release r user_id token =
      let (r', deleted) = release_if_holder r (user_lock_key user_id) token in (r', deleted == 1)

  pub renew : R → String → String → R × Bool
  renew r user_id token =
      let (r', renewed) = renew_if_holder r (user_lock_key user_id) token user_lock_ttl_ms in
      (r', renewed == 1)

  -- What the holder of a lock does: the work, whose result is none where it throws, and the release.
  exclusively :
      {Result : Type 0} → R → String → (R → R × Option Result) → String → R × Option Result
  exclusively r user_id work token =
      let (r', result) = work r in ((release r' user_id token).0, result)

  -- The answer of an acquisition: the work under the lock, or `onBusy`.
  pub exclusive_or_busy :
      {Result : Type 0}
      → R
      → String
      → (R → R × Option Result)
      → Result
      → Option String
      → R × Option Result
  exclusive_or_busy r user_id work on_busy none = (r, some on_busy)
  exclusive_or_busy r user_id work on_busy (some token) = exclusively r user_id work token

  pub run_exclusive :
      {Result : Type 0} → R → String → String → (R → R × Option Result) → Result → R × Option Result
  run_exclusive r user_id fresh_token work on_busy =
      let (r', token) = acquire r user_id fresh_token in
      exclusive_or_busy r' user_id work on_busy token
