-- ===== src/Session/PendingQuestions/Once.antt =====
-- A question is claimed once.
use text.Mathlib.Text.{◌==◌ as str_eq}
use text.Mathlib.TextEquality.{eq_iff}
use mathlib.Core.Bool.{true≢false}
use mathlib.Core.Option.{none-ne-some}
use cue_api.Common.{
  ◌≡◌, ◌≢◌, ◌⊎◌, refl, sym, ap, get_or, ◌∙◌, subst, String, Option, none, some, [], ◌∷◌, Bool-cases,
  inl, inr,
}
use cue_api.Session.PendingQuestions.{
  PendingQuestionStatus, awaiting, answered, cancelled, expired, PendingQuestion,
  PendingQuestionConfig, Stores, first_row, claim_awaiting, claim_row, claim_hot_by_user, clear_key,
  claim_by_id, pending_question_key,
}

-- The row is no longer awaiting an answer, and it is there.
abbrev pub IsClosed : Option PendingQuestionStatus → Type 0
IsClosed none = ⊥
IsClosed (some awaiting) = ⊥
IsClosed (some answered) = Unit {0}
IsClosed (some cancelled) = Unit {0}
IsClosed (some expired) = Unit {0}

-- The claim did not give the row.
abbrev pub Misses : String → Option PendingQuestion → Type 0
Misses id none = Unit {0}
Misses id (some claimed) = claimed.id ≢ id

-- What the claims rely on: the keys stand apart from the rows, and an update changes and answers
-- the row with its id if it has the status, and nothing else.
pub record StoresLaws {R : Type 0} (stores : Stores R) : Type 0 where
  pub getdel-apart :
      (r : R) (key id : String) → stores.status (stores.getdel r key).0 id ≡ stores.status r id
  pub del-apart :
      (r : R) (key id : String) → stores.status (stores.del r key) id ≡ stores.status r id
  pub update-hit :
      (r : R) (id : String) (to : PendingQuestionStatus)
      → stores.status r id ≡ some awaiting
      → (stores.status (stores.update_where r id awaiting to).0 id ≡ some to)
        × ((row : PendingQuestion) × ((stores.update_where r id awaiting to).1 ≡ row ∷ [])
            × (row.id ≡ id))
  pub update-miss :
      (r : R) (id : String) (to : PendingQuestionStatus)
      → stores.status r id ≢ some awaiting
      → (stores.status (stores.update_where r id awaiting to).0 id ≡ stores.status r id)
        × ((stores.update_where r id awaiting to).1 ≡ [])
  pub update-other :
      (r : R) (id other : String) (to : PendingQuestionStatus)
      → other ≢ id
      → stores.status (stores.update_where r id awaiting to).0 other ≡ stores.status r other

not-awaiting : (status : Option PendingQuestionStatus) → IsClosed status → status ≢ some awaiting
not-awaiting status h e = subst IsClosed e h

awaiting? :
    (status : Option PendingQuestionStatus) → (status ≡ some awaiting) ⊎ (status ≢ some awaiting)
awaiting? (some awaiting) = inl refl
awaiting? none = inr (none-ne-some awaiting)
awaiting? (some answered) = inr (not-awaiting (some answered) tt)
awaiting? (some cancelled) = inr (not-awaiting (some cancelled) tt)
awaiting? (some expired) = inr (not-awaiting (some expired) tt)

text-cases : (s t : String) → (s ≡ t) ⊎ (s ≢ t)
text-cases s t = elim (Bool-cases (str_eq s t)) [
  | inl e ↦ inl ((eq_iff s t).0 e)
  | inr e ↦ inr λ same. true≢false (sym ((eq_iff s t).1 same) ∙ e)
]

-- A claim: by a button that carries the id of a row, or by a text.
pub data Claim : Type 0 where
  by_id : String → String → Claim
  by_text : String → Claim

module _ {R : Type 0} (stores : Stores R) (config : PendingQuestionConfig) where
  abbrev pub claim : Claim → R → R × Option PendingQuestion
  claim (by_id user_id id) r = claim_by_id stores config r user_id id
  claim (by_text user_id) r = claim_hot_by_user stores config r user_id

  -- What may happen after a claim: other claims, and whatever does not open the row again.
  pub data Steps (id : String) : R → R → Type 0 where
    still : {r : R} → Steps id r r
    then_claim : {r r' : R} (c : Claim) → Steps id r r' → Steps id r (claim c r').0
    then_other :
        {r r' r'' : R}
        → Steps id r r'
        → (IsClosed (stores.status r' id) → IsClosed (stores.status r'' id))
        → Steps id r r''

module _ {R : Type 0} (stores : Stores R) (laws : StoresLaws stores)
    (config : PendingQuestionConfig) where
  open stores use {status, update_where}
  open laws use {getdel-apart, del-apart, update-hit, update-miss, update-other}

  abbrev Once : String → R × Option PendingQuestion → Type 0
  Once id out = IsClosed (status out.0 id) × Misses id out.1

  -- What a claim of a row gives is that row, which is closed then.
  abbrev Closes : R × Option PendingQuestion → Type 0
  Closes out = (row : PendingQuestion) → out.1 ≡ some row → IsClosed (status out.0 row.id)

  claim_awaiting-Once :
      (r : R) (claimed id : String)
      → IsClosed (status r id)
      → Once id (claim_awaiting stores config r claimed)
  unfolding claim_awaiting first_row
  claim_awaiting-Once r claimed id h = elim (text-cases id claimed) [
    | inl same ↦
        let miss =
          update-miss r claimed answered
            (not-awaiting _ (subst (λ i. IsClosed (status r i)) same h)) in
        (
          subst IsClosed
              (sym (
                ap (λ i. status (claim_awaiting stores config r claimed).0 i) same
                ∙ miss.0
                ∙ ap (λ i. status r i) (sym same)))
              h,
          rw miss.1 tt,
        )
    | inr other ↦ (
      subst IsClosed (sym (update-other r claimed id answered other)) h,
      elim (awaiting? (status r claimed)) [
        | inl free ↦
            let (row, rows, e) = (update-hit r claimed answered free).1 in
            rw rows λ same. other (sym same ∙ e)
        | inr closed ↦ rw (update-miss r claimed answered closed).1 tt
      ],
    )
  ]

  claim_awaiting-Closes :
      (r : R) (claimed : String) → Closes (claim_awaiting stores config r claimed)
  unfolding claim_awaiting first_row
  claim_awaiting-Closes r claimed row e = elim (awaiting? (status r claimed)) [
    | inl free ↦
        let (status', (row', rows, id)) = update-hit r claimed answered free in
        let same = ap (λ o. get_or o row) (sym (ap first_row rows) ∙ e) in
        subst (λ i. IsClosed (status (claim_awaiting stores config r claimed).0 i))
          (sym id ∙ ap (λ q. q.id) same) (subst IsClosed (sym status') tt)
    | inr closed ↦
        absurd (none-ne-some row (sym (ap first_row (update-miss r claimed answered closed).1) ∙ e))
  ]

  clear_key-Once :
      (user_id id : String) (r : R) (o : Option PendingQuestion)
      → Once id (r, o)
      → Once id (clear_key stores config r user_id o)
  unfolding clear_key
  clear_key-Once user_id id r none h = h
  clear_key-Once user_id id r (some row) (h, k) = (subst IsClosed (sym (del-apart r _ id)) h, k)

  clear_key-Closes :
      (user_id : String) (r : R) (o : Option PendingQuestion)
      → Closes (r, o)
      → Closes (clear_key stores config r user_id o)
  unfolding clear_key
  clear_key-Closes user_id r none h row e = h row e
  clear_key-Closes user_id r (some claimed) h row e =
      subst IsClosed (sym (del-apart r _ row.id)) (h row e)

  claim-Once :
      (c : Claim) (r : R) (id : String) → IsClosed (status r id) → Once id (claim stores config c r)
  unfolding claim_by_id claim_hot_by_user claim_row
  claim-Once (by_id user_id claimed) r id h =
      clear_key-Once user_id id _ _ (claim_awaiting-Once r claimed id h)
  claim-Once (by_text user_id) r id h = go (stores.getdel r (pending_question_key user_id)).1
    where
      r' : R
      r' = (stores.getdel r (pending_question_key user_id)).0

      kept : IsClosed (status r' id)
      kept = subst IsClosed (sym (getdel-apart r (pending_question_key user_id) id)) h

      go : (o : Option String) → Once id (claim_row stores config r' o)
      go none = (kept, tt)
      go (some row_id) = claim_awaiting-Once r' row_id id kept

  claim-Closes : (c : Claim) (r : R) → Closes (claim stores config c r)
  unfolding claim_by_id claim_hot_by_user claim_row
  claim-Closes (by_id user_id claimed) r row won =
      clear_key-Closes user_id _ _ (claim_awaiting-Closes r claimed) row won
  claim-Closes (by_text user_id) r row won =
      go (stores.getdel r (pending_question_key user_id)).1 row won
    where
      r' : R
      r' = (stores.getdel r (pending_question_key user_id)).0

      go : (o : Option String) → Closes (claim_row stores config r' o)
      go none row e = absurd (none-ne-some row e)
      go (some row_id) row e = claim_awaiting-Closes r' row_id row e

  Steps-Closed :
      (id : String) {r r' : R}
      → Steps stores config id r r'
      → IsClosed (status r id)
      → IsClosed (status r' id)
  Steps-Closed id still h = h
  Steps-Closed id (then_claim c steps) h = (claim-Once c _ id (Steps-Closed id steps h)).0
  Steps-Closed id (then_other steps keeps) h = keeps (Steps-Closed id steps h)

  -- Once a claim, by a button or by a text, has given a question, no later claim of either kind, by
  -- whatever user, gives it again, whatever claims and changes that do not open it come between.
  pub claim-once :
      (c later : Claim) (r : R) {r' : R} (row : PendingQuestion)
      → (claim stores config c r).1 ≡ some row
      → Steps stores config row.id (claim stores config c r).0 r'
      → Misses row.id (claim stores config later r').1
  claim-once c later r row won steps =
      (claim-Once later _ row.id (Steps-Closed row.id steps (claim-Closes c r row won))).1
