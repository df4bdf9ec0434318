-- ===== src/Session/Debounce/Keeps.antt =====
-- No message is lost.
use text.Mathlib.Text.{◌==◌ as str_eq}
use cue_api.Common.{
  ℕ, ◌≡◌, ◌∙◌, String, Bool, true, false, Option, none, some, List, [], ◌∷◌, ◌++◌, Bool-cases, inl,
  inr, All, if◌then◌else◌,
}
use cue_api.Session.Redis.{ListsLaws}
use cue_api.Session.UserLock.{user_lock_key, acquire}
use cue_api.Session.UserLock.Frame.{run_exclusive-observed}
use cue_api.Session.MessageBuffer.{BufferedMessage, debounce_buffer_key, drain}
use cue_api.Session.MessageBuffer.Order.{Holds, RoundTrips, drain-Holds, requeue_front-Holds}
use cue_api.Session.Debounce.{
  Services, DebounceConfig, TurnInput, AddedJob, combined_text, combined_turn, arm_after, work,
  turn_exclusive, run_drained_turn, queue_after, settle_batch, run_batch, drain_window,
  drain_and_run,
}

module _ {R : Type 0} (services : Services R) (config : DebounceConfig) where
  open services use {strings, lists, json, queue_add, run_from_message}

  abbrev pub Buffered : R → String → List BufferedMessage → Type 0
  Buffered r user_id messages = Holds lists json r user_id messages

  -- What the parameters are relied on for: the lock's commands and the queue leave the buffers
  -- alone, and during a turn messages only arrive in them.
  pub record Apart : Type 0 where
    pub set_nx-apart :
        (r : R) (locked value user_id : String) (ttl : ℕ)
        → lists.lrange
            (strings.set_nx r (user_lock_key locked) value ttl).0
            (debounce_buffer_key user_id)
          ≡ lists.lrange r (debounce_buffer_key user_id)
    pub del-apart :
        (r : R) (locked user_id : String)
        → lists.lrange (strings.del r (user_lock_key locked)).0 (debounce_buffer_key user_id)
          ≡ lists.lrange r (debounce_buffer_key user_id)
    pub queue-apart :
        (r : R) (job : AddedJob) (user_id : String)
        → lists.lrange (queue_add r job).0 (debounce_buffer_key user_id)
          ≡ lists.lrange r (debounce_buffer_key user_id)
    pub turn-arrivals : R → TurnInput → String → List BufferedMessage
    pub turn-appends :
        (r : R) (input : TurnInput) (user_id : String) (messages : List BufferedMessage)
        → Buffered r user_id messages
        → Buffered (run_from_message r input).0 user_id (messages ++ turn-arrivals r input user_id)

  -- The buffer after a job: what arrived, and before it the batch unless the batch ran.
  abbrev pub Kept : R → String → List BufferedMessage → List BufferedMessage → Option Bool → Type 0
  Kept r user_id batch arrived (some true) = Buffered r user_id arrived
  Kept r user_id batch arrived (some false) = Buffered r user_id (batch ++ arrived)
  Kept r user_id batch arrived none = Buffered r user_id (batch ++ arrived)

  module _ (lists_laws : ListsLaws lists) (apart : Apart) where
    open apart use {set_nx-apart, del-apart, queue-apart, turn-arrivals, turn-appends}

    -- What arrives for the user while a turn runs under the lock: nothing where the lock is busy.
    abbrev pub arrivals_during : R → String → String → TurnInput → List BufferedMessage
    arrivals_during r user_id token input =
        let (acquired, held) = acquire strings config.user_lock_ttl_ms r user_id token in
        elim held [ none ↦ [] | some _ ↦ turn-arrivals acquired input user_id ]

    -- What arrives while the turn of a batch is tried: nothing where its texts are all empty, since
    -- no turn runs.
    abbrev pub arrivals :
        R → String → String → BufferedMessage → List BufferedMessage → List BufferedMessage
    arrivals r user_id token first messages =
        if str_eq (combined_text messages) ""
        then []
        else arrivals_during r user_id token (combined_turn user_id first messages)

    -- Once a turn was tried on an empty buffer, the buffer holds what arrived.
    turn_exclusive-Buffered :
        (r : R) (user_id token : String) (input : TurnInput)
        → Buffered r user_id []
        → Buffered
            (turn_exclusive services config r user_id token input).0
            user_id
            (arrivals_during r user_id token input)
    unfolding turn_exclusive work
    turn_exclusive-Buffered r user_id token input h =
        elim (run_exclusive-observed strings config.user_lock_ttl_ms
          (λ x. lists.lrange x (debounce_buffer_key user_id)) user_id
          (λ x value ttl. set_nx-apart x user_id value user_id ttl)
          (λ x. del-apart x user_id user_id) r token (work services config input) false) [
            | inl (busy, same, result) ↦ rw (arrivals_during, busy) (same ∙ h)
            | inr (held, same, worked, result) ↦
                rw (arrivals_during, held) (worked ∙ turn-appends _ input user_id [] (same ∙ h))
          ]

    run_drained_turn-Buffered :
        (r : R) (user_id token : String) (first : BufferedMessage) (messages : List BufferedMessage)
        → Buffered r user_id []
        → Buffered
            (run_drained_turn services config r user_id token first messages).0
            user_id
            (arrivals r user_id token first messages)
    unfolding run_drained_turn
    run_drained_turn-Buffered r user_id token first messages h =
        elim (Bool-cases (str_eq (combined_text messages) "")) [
          | inl e ↦ rw e h
          | inr e ↦
              rw e
                (turn_exclusive-Buffered r user_id token (combined_turn user_id first messages) h)
        ]

    queue_after-Buffered :
        (r : R) (user_id nonce : String) (batch arrived : List BufferedMessage)
        → Buffered r user_id arrived
        → Buffered (queue_after services config r user_id nonce batch) user_id (batch ++ arrived)
    unfolding queue_after arm_after
    queue_after-Buffered r user_id nonce batch arrived h =
        queue-apart _ _ user_id
        ∙ requeue_front-Holds lists lists_laws json config.buffer r user_id batch arrived h

    settle_batch-Kept :
        (r : R) (user_id nonce : String) (batch arrived : List BufferedMessage) (ran : Option Bool)
        → Buffered r user_id arrived
        → Kept (settle_batch services config r user_id nonce batch ran) user_id batch arrived ran
    unfolding settle_batch
    settle_batch-Kept r user_id nonce batch arrived (some true) h = h
    settle_batch-Kept r user_id nonce batch arrived (some false) h =
        queue_after-Buffered r user_id nonce batch arrived h
    settle_batch-Kept r user_id nonce batch arrived none h =
        queue_after-Buffered r user_id nonce batch arrived h

    -- A job that finds messages in the buffer either runs their one turn to its end, or has none
    -- to run since their texts are all empty, and leaves in the buffer exactly what arrived during
    -- the turn; or the lock is busy or the turn throws, and the buffer holds all the messages that
    -- it held, in their order, before those that arrived during the turn. Nothing arrives where no
    -- turn runs.
    pub drain_and_run-Kept :
        (r : R) (user_id token nonce : String) (first : BufferedMessage)
        (rest : List BufferedMessage)
        → All (RoundTrips json) (first ∷ rest)
        → Buffered r user_id (first ∷ rest)
        → let drained = (drain lists json config.buffer r user_id).0 in
          Kept
            (drain_and_run services config r user_id token nonce none)
            user_id
            (first ∷ rest)
            (arrivals drained user_id token first (first ∷ rest))
            (run_drained_turn services config drained user_id token first (first ∷ rest)).1
    unfolding drain_and_run drain_window run_batch
    drain_and_run-Kept r user_id token nonce first rest k h =
        let (emptied, drained) =
          drain-Holds lists lists_laws json config.buffer r user_id (first ∷ rest) k h in
        rw drained (
          settle_batch-Kept _ user_id nonce (first ∷ rest) _ _ (
            run_drained_turn-Buffered (drain lists json config.buffer r user_id).0 user_id token
              first (first ∷ rest) emptied))
