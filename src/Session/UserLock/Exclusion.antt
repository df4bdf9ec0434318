-- ===== src/Session/UserLock/Exclusion.antt =====
-- Mutual exclusion.
use text.Mathlib.Text.{◌==◌ as str_eq}
use text.Mathlib.TextEquality.{eq_iff}
use mathlib.Core.Bool.{true≢false}
use mathlib.Core.Option.{none-ne-some}
use cue_api.Common.{
  ℕ, ◌≡◌, ◌≢◌, refl, sym, ap, ◌∙◌, ◌⊎◌, subst, String, true, false, Option, none, some, Bool-cases,
  inl, inr,
}
use cue_api.Session.Redis.{Strings, StringsLaws}
use cue_api.Session.UserLock.{
  user_lock_key, is_held_by, release_if_holder, renew_if_holder, acquire, release, renew,
  exclusively, exclusive_or_busy, run_exclusive,
}

text-cases : (s t : String) → (s ≡ t) ⊎ (s ≢ t)
text-cases s t = elim (Bool-cases (str_eq s t)) [
  | inl e ↦ inl ((eq_iff s t).0 e)
  | inr e ↦ inr λ same. true≢false (sym ((eq_iff s t).1 same) ∙ e)
]

-- Another token does not hold the lock.
is_held_by-other : (held token : String) → token ≢ held → is_held_by (some held) token ≡ false
unfolding is_held_by
is_held_by-other held token h = elim (Bool-cases (str_eq held token)) [
  | inl e ↦ absurd (h (sym ((eq_iff held token).0 e)))
  | inr e ↦ e
]

is_held_by-same : (token : String) → is_held_by (some token) token ≡ true
unfolding is_held_by
is_held_by-same token = (eq_iff token token).1 refl

module _ {R : Type 0} (redis : Strings R) (laws : StringsLaws redis) (user_lock_ttl_ms : ℕ) where
  open redis use {get, set_nx, del, pexpire}
  open laws use {set_nx-free, set_nx-taken, set_nx-other, del-gone, del-other, pexpire-same}

  acquire-Held :
      (r : R) (user_id token key held : String)
      → get r key ≡ some held
      → get (acquire redis user_lock_ttl_ms r user_id token).0 key ≡ some held
  unfolding acquire
  acquire-Held r user_id token key held h = elim (text-cases key (user_lock_key user_id)) [
    | inl same ↦
        rw same
          (set_nx-taken r (user_lock_key user_id) token held user_lock_ttl_ms
            (subst (λ k. get r k ≡ some held) same h)).1
    | inr other ↦ set_nx-other r (user_lock_key user_id) token key user_lock_ttl_ms other ∙ h
  ]

  -- A release by another token, at any key.
  release_if_holder-Held :
      (r : R) (at token key held : String)
      → token ≢ held
      → get r key ≡ some held
      → get (release_if_holder redis user_lock_ttl_ms r at token).0 key ≡ some held
  unfolding release_if_holder
  release_if_holder-Held r at token key held other h = elim (text-cases key at) [
    | inl same ↦ rw (sym same, h, is_held_by-other held token other) h
    | inr different ↦ elim (Bool-cases (is_held_by (get r at) token)) [
      | inl e ↦ rw e (del-other r at key different ∙ h)
      | inr e ↦ rw e h
    ]
  ]

  renew_if_holder-Held :
      (r : R) (at token key held : String) (ttl : ℕ)
      → get r key ≡ some held
      → get (renew_if_holder redis user_lock_ttl_ms r at token ttl).0 key ≡ some held
  unfolding renew_if_holder
  renew_if_holder-Held r at token key held ttl h = elim (Bool-cases (is_held_by (get r at) token)) [
    | inl e ↦ rw e (pexpire-same r at key ttl ∙ h)
    | inr e ↦ rw e h
  ]

  -- What may happen while `held` holds the lock of the user, short of its own release and of its
  -- lapse.
  pub data Step (user_id held : String) : R → R → Type 0 where
    acquires :
        {r : R} (other_user token : String)
        → Step user_id held r (acquire redis user_lock_ttl_ms r other_user token).0
    releases :
        {r : R} (other_user token : String)
        → token ≢ held
        → Step user_id held r (release redis user_lock_ttl_ms r other_user token).0
    renews :
        {r : R} (other_user token : String)
        → Step user_id held r (renew redis user_lock_ttl_ms r other_user token).0
    elsewhere :
        {r r' : R}
        → get r' (user_lock_key user_id) ≡ get r (user_lock_key user_id)
        → Step user_id held r r'

  pub data Steps (user_id held : String) : R → R → Type 0 where
    still : {r : R} → Steps user_id held r r
    then_step :
        {r r' r'' : R}
        → Steps user_id held r r'
        → Step user_id held r' r''
        → Steps user_id held r r''

  Step-Held :
      (user_id held : String) {r r' : R}
      → Step user_id held r r'
      → get r (user_lock_key user_id) ≡ some held
      → get r' (user_lock_key user_id) ≡ some held
  unfolding release renew
  Step-Held user_id held (acquires u token) h = acquire-Held _ u token _ held h
  Step-Held user_id held (releases u token other) h =
      release_if_holder-Held _ (user_lock_key u) token _ held other h
  Step-Held user_id held (renews u token) h =
      renew_if_holder-Held _ (user_lock_key u) token _ held user_lock_ttl_ms h
  Step-Held user_id held (elsewhere same) h = same ∙ h

  Steps-Held :
      (user_id held : String) {r r' : R}
      → Steps user_id held r r'
      → get r (user_lock_key user_id) ≡ some held
      → get r' (user_lock_key user_id) ≡ some held
  Steps-Held user_id held still h = h
  Steps-Held user_id held (then_step steps step) h =
      Step-Held user_id held step (Steps-Held user_id held steps h)

  acquire-free :
      (r : R) (user_id token : String)
      → get r (user_lock_key user_id) ≡ none
      → ((acquire redis user_lock_ttl_ms r user_id token).1 ≡ some token)
        × (get (acquire redis user_lock_ttl_ms r user_id token).0 (user_lock_key user_id)
            ≡ some token)
  unfolding acquire
  acquire-free r user_id token h =
      let law = set_nx-free r (user_lock_key user_id) token user_lock_ttl_ms h in
      (rw law.0 refl, law.1)

  acquire-busy :
      (r : R) (user_id token held : String)
      → get r (user_lock_key user_id) ≡ some held
      → (acquire redis user_lock_ttl_ms r user_id token).1 ≡ none
  unfolding acquire
  acquire-busy r user_id token held h =
      rw (set_nx-taken r (user_lock_key user_id) token held user_lock_ttl_ms h).0 refl

  -- From an acquisition that finds the lock of a user free until its token releases the lock or the
  -- lock lapses, whatever acquisitions, renewals and releases by other tokens come between, for this
  -- user or for others: the acquisition had the token, and no other acquisition for the user does.
  pub acquire-exclusive :
      (r : R) (user_id token : String) {r' : R}
      → get r (user_lock_key user_id) ≡ none
      → Steps user_id token (acquire redis user_lock_ttl_ms r user_id token).0 r'
      → ((acquire redis user_lock_ttl_ms r user_id token).1 ≡ some token)
        × ((later : String) → (acquire redis user_lock_ttl_ms r' user_id later).1 ≡ none)
  acquire-exclusive r user_id token {r'} free steps =
      let (ok, held) = acquire-free r user_id token free in
      (ok, λ later. acquire-busy r' user_id later token (Steps-Held user_id token steps held))

  -- After a release the token does not hold the lock.
  release-gone :
      (r : R) (user_id token : String)
      → get (release redis user_lock_ttl_ms r user_id token).0 (user_lock_key user_id) ≢ some token
  unfolding release release_if_holder
  release-gone r user_id token =
      elim (Bool-cases (is_held_by (get r (user_lock_key user_id)) token)) [
        | inl e ↦ rw e λ h. none-ne-some token (sym (del-gone r (user_lock_key user_id)) ∙ h)
        | inr e ↦
            rw e λ h.
              true≢false (sym (is_held_by-same token) ∙ sym (ap (λ o. is_held_by o token) h) ∙ e)
      ]

  -- Where the lock of a user is free, `runExclusive` runs the work with the lock held by its token,
  -- answers what the work answers, a throw included, and does not hold the lock after.
  pub run_exclusive-free :
      {Result : Type 0} (r : R) (user_id token : String) (work : R → R × Option Result)
      (on_busy : Result)
      → get r (user_lock_key user_id) ≡ none
      → (get (acquire redis user_lock_ttl_ms r user_id token).0 (user_lock_key user_id)
          ≡ some token)
        × ((run_exclusive redis user_lock_ttl_ms r user_id token work on_busy).1
            ≡ (work (acquire redis user_lock_ttl_ms r user_id token).0).1)
        × (get
              (run_exclusive redis user_lock_ttl_ms r user_id token work on_busy).0
              (user_lock_key user_id)
            ≢ some token)
  unfolding run_exclusive exclusive_or_busy exclusively
  run_exclusive-free r user_id token work on_busy free =
      let (ok, held) = acquire-free r user_id token free in
      (held, rw ok refl, rw ok (release-gone _ user_id token))
