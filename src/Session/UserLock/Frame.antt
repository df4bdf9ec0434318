-- ===== src/Session/UserLock/Frame.antt =====
-- What the lock leaves alone.
use cue_api.Common.{ℕ, ◌≡◌, refl, ◌⊎◌, inl, inr, String, Bool, Option, none, some, Bool-cases}
use cue_api.Session.Redis.{Strings}
use cue_api.Session.UserLock.{
  user_lock_key, is_held_by, release_if_holder, acquire, release, exclusively, exclusive_or_busy,
  run_exclusive,
}

module _ {R B : Type 0} (redis : Strings R) (user_lock_ttl_ms : ℕ) (observe : R → B)
    (user_id : String)
    (set_nx-same : (r : R) (value : String) (ttl : ℕ)
      → observe (redis.set_nx r (user_lock_key user_id) value ttl).0 ≡ observe r)
    (del-same : (r : R) → observe (redis.del r (user_lock_key user_id)).0 ≡ observe r) where
  release-observed :
      (r : R) (token : String)
      → observe (release redis user_lock_ttl_ms r user_id token).0 ≡ observe r
  unfolding release release_if_holder
  release-observed r token =
      elim (Bool-cases (is_held_by (redis.get r (user_lock_key user_id)) token)) [
        | inl e ↦ rw e (del-same r)
        | inr e ↦ rw e refl
      ]

  -- Through anything that the lock's commands leave alone, `runExclusive` looks like a busy answer
  -- that did nothing, or, where it acquires the lock, like the work alone.
  pub run_exclusive-observed :
      {Result : Type 0} (r : R) (token : String) (work : R → R × Option Result) (on_busy : Result)
      → let run = run_exclusive redis user_lock_ttl_ms r user_id token work on_busy in
        let (acquired, held) = acquire redis user_lock_ttl_ms r user_id token in
        ((held ≡ none) × (observe run.0 ≡ observe r) × (run.1 ≡ some on_busy))
        ⊎ ((held ≡ some token)
            × (observe acquired ≡ observe r)
            × (observe run.0 ≡ observe (work acquired).0)
            × (run.1 ≡ (work acquired).1))
  unfolding run_exclusive exclusive_or_busy exclusively acquire
  run_exclusive-observed r token work on_busy = elim (Bool-cases set.1) [
    | inl e ↦ rw e (
        inr
          (refl, set_nx-same r token user_lock_ttl_ms, release-observed (work set.0).0 token, refl))
    | inr e ↦ rw e (inl (refl, set_nx-same r token user_lock_ttl_ms, refl))
  ]
    where
      set : R × Bool
      set = redis.set_nx r (user_lock_key user_id) token user_lock_ttl_ms
