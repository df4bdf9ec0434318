-- ===== src/Tasks/Exceptions/Upsert.antt =====
-- What an upsert leaves in the table.
use text.Mathlib.Text.{◌==◌ as str_eq}
use text.Mathlib.TextEquality.{eq_iff}
use mathlib.Core.Bool.{true≢false}
use cue_api.Common.{
  ==_iff, ◌≡◌, ◌≢◌, refl, sym, ap, ◌∙◌, subst, ◌⊎◌, inl, inr, String, Bool, true, false, ◌&&◌,
  Option, none, some, arith, get_or, Bool-cases, In, All, All-In, All-of_In,
}
use cue_api.Recurrence.Types.{Instant}
use cue_api.Tasks.Types.{ExceptionRow}
use cue_api.Tasks.Database.{TableLaws}
use cue_api.Tasks.Exceptions.{
  OccurrenceOverrideChanges, ExceptionStore, dates_equal, texts_equal, bools_equal, differs,
  assigned, apply_changes, new_exception, at_slot, update_existing, upsert_into, upsert_override,
}

and-true : (a b : Bool) → (a && b) ≡ true → (a ≡ true) × (b ≡ true)
and-true a b h = ground arith

-- The value of a field after a change: the given one, or else the old.
abbrev pub field_after {ℓ} : {A : Type ℓ} → Option A → A → A
field_after none old = old
field_after (some new) old = new

dates_equal-eq : (a b : Option Instant) → dates_equal a b ≡ true → a ≡ b
unfolding dates_equal
dates_equal-eq none none h = refl
dates_equal-eq none (some b) h = cc
dates_equal-eq (some a) none h = cc
dates_equal-eq (some a) (some b) h = ap some ((==_iff a b).0 h)

texts_equal-eq : (a b : Option String) → texts_equal a b ≡ true → a ≡ b
unfolding texts_equal
texts_equal-eq none none h = refl
texts_equal-eq none (some b) h = cc
texts_equal-eq (some a) none h = cc
texts_equal-eq (some a) (some b) h = ap some ((eq_iff a b).0 h)

bools_equal-eq : (a b : Bool) → bools_equal a b ≡ true → a ≡ b
unfolding bools_equal
bools_equal-eq a b h = ground arith

-- Where equal values are the same, the assignment leaves the given value.
assigned-field_after :
    {A : Type 0} (equal : A → A → Bool) (sound : (a b : A) → equal a b ≡ true → a ≡ b)
    (c : Option A) (old : A)
    → assigned equal c old ≡ field_after c old
unfolding assigned
assigned-field_after equal sound none old = refl
assigned-field_after equal sound (some new) old = elim (Bool-cases (equal new old)) [
  | inl e ↦ rw e (sym (sound new old e))
  | inr e ↦ rw e refl
]

-- A field that does not differ stays.
field_after-same :
    {A : Type 0} (equal : A → A → Bool) (sound : (a b : A) → equal a b ≡ true → a ≡ b)
    (c : Option A) (old : A)
    → differs equal c old ≡ false
    → field_after c old ≡ old
unfolding differs
field_after-same equal sound none old h = refl
field_after-same equal sound (some new) old h = sound new old (ground arith)

-- The row of a slot after an upsert.
abbrev pub upserted :
    String → String → Instant → OccurrenceOverrideChanges → Option ExceptionRow → ExceptionRow
upserted new_id task_id original_start c none = record {
  id = new_id;
  task_id = task_id;
  original_start_at = original_start;
  is_skipped = get_or c.is_skipped false;
  override_start_at = get_or c.override_start_at none;
  override_end_at = get_or c.override_end_at none;
  override_title = get_or c.override_title none;
  completed_at = get_or c.completed_at none;
}
upserted new_id task_id original_start c (some e) = record e {
  is_skipped = field_after c.is_skipped e.is_skipped;
  override_start_at = field_after c.override_start_at e.override_start_at;
  override_end_at = field_after c.override_end_at e.override_end_at;
  override_title = field_after c.override_title e.override_title;
  completed_at = field_after c.completed_at e.completed_at;
}

apply_changes-field_after :
    (e : ExceptionRow) (c : OccurrenceOverrideChanges)
    → (apply_changes e c).0 ≡ upserted "" "" 0 c (some e)
unfolding apply_changes
apply_changes-field_after e c =
    rw
      (
        assigned-field_after dates_equal dates_equal-eq c.override_start_at e.override_start_at,
        assigned-field_after dates_equal dates_equal-eq c.override_end_at e.override_end_at,
        assigned-field_after texts_equal texts_equal-eq c.override_title e.override_title,
        assigned-field_after bools_equal bools_equal-eq c.is_skipped e.is_skipped,
        assigned-field_after dates_equal dates_equal-eq c.completed_at e.completed_at,
      )
      refl

-- Where no field differs, the row stays.
apply_changes-same :
    (e : ExceptionRow) (c : OccurrenceOverrideChanges)
    → (apply_changes e c).1 ≡ false
    → upserted "" "" 0 c (some e) ≡ e
unfolding apply_changes
apply_changes-same e c h =
    let a : differs dates_equal c.override_start_at e.override_start_at ≡ false = ground arith in
    let b : differs dates_equal c.override_end_at e.override_end_at ≡ false = ground arith in
    let t : differs texts_equal c.override_title e.override_title ≡ false = ground arith in
    let k : differs bools_equal c.is_skipped e.is_skipped ≡ false = ground arith in
    let l : differs dates_equal c.completed_at e.completed_at ≡ false = ground arith in
    rw
      (
        field_after-same dates_equal dates_equal-eq c.override_start_at e.override_start_at a,
        field_after-same dates_equal dates_equal-eq c.override_end_at e.override_end_at b,
        field_after-same texts_equal texts_equal-eq c.override_title e.override_title t,
        field_after-same bools_equal bools_equal-eq c.is_skipped e.is_skipped k,
        field_after-same dates_equal dates_equal-eq c.completed_at e.completed_at l,
      )
      refl

abbrev pub is_there : ExceptionRow → Bool
is_there row = true

abbrev pub ExceptionLaws : {R : Type 0} → ExceptionStore R → Type 0
ExceptionLaws store = TableLaws store.exceptions (λ row. row.id) is_there

module _ {R : Type 0} (store : ExceptionStore R) (laws : ExceptionLaws store)
    (touch-apart : (r : R) (id : String)
      → store.exceptions.rows (store.touch_updated_at r id) ≡ store.exceptions.rows r) where
  open store use {exceptions, touch_updated_at}
  open laws use {keyed, found-one, found-none, saved, saved-there}

  -- A slot has one row.
  abbrev pub OnePerSlot : R → Type 0
  OnePerSlot r =
      (a b : ExceptionRow)
      → In a (exceptions.rows r)
      → In b (exceptions.rows r)
      → a.task_id ≡ b.task_id
      → a.original_start_at ≡ b.original_start_at
      → a ≡ b

  at_slot-eq :
      (task_id : String) (slot : Instant) (e : ExceptionRow)
      → at_slot task_id slot e ≡ true
      → (e.task_id ≡ task_id) × (e.original_start_at ≡ slot)
  at_slot-eq task_id slot e h =
      let (a, b) = and-true _ _ h in ((eq_iff e.task_id task_id).0 a, (==_iff _ slot).0 b)

  at_slot-true : (e : ExceptionRow) → at_slot e.task_id e.original_start_at e ≡ true
  at_slot-true e =
      rw
        (
          (eq_iff e.task_id e.task_id).1 refl,
          (==_iff e.original_start_at e.original_start_at).1 refl,
        )
        refl

  -- An upsert leaves in the slot the row with the given fields, over the old row or the defaults,
  -- and answers it; every other row is one that was there.
  abbrev pub Puts : R → R × ExceptionRow → ExceptionRow → Type 0
  Puts r out row =
      (out.1 ≡ row)
      × In row (exceptions.rows out.0)
      × All (λ other. (other ≡ row) ⊎ (In other (exceptions.rows r) × (other.id ≢ row.id)))
          (exceptions.rows out.0)

  saved-Puts :
      (r : R) (row : ExceptionRow) (id : String)
      → Puts r (touch_updated_at (exceptions.save r row) id, row) row
  saved-Puts r row id = (
    refl,
    rw (touch-apart (exceptions.save r row) id) (saved-there r row refl),
    All-of_In _ _ λ other h.
        elim (saved r row other (subst (In other) (touch-apart (exceptions.save r row) id) h)) [
          | inl (e, there) ↦ inl e
          | inr k ↦ inr k
        ],
  )

  existing-Puts :
      (r : R) (new_id task_id : String) (slot : Instant) (c : OccurrenceOverrideChanges)
      (e : ExceptionRow)
      → In e (exceptions.rows r)
      → Puts r
          (update_existing store r task_id (apply_changes e c))
          (upserted new_id task_id slot c (some e))
  unfolding update_existing
  existing-Puts r new_id task_id slot c e there =
      go (apply_changes e c) (apply_changes-field_after e c) (apply_changes-same e c)
    where
      row : ExceptionRow
      row = upserted new_id task_id slot c (some e)

      others :
          row ≡ e
          → (other : ExceptionRow) → In other (exceptions.rows r)
          → (other ≡ row) ⊎ (In other (exceptions.rows r) × (other.id ≢ row.id))
      others same other h = elim (Bool-cases (str_eq other.id e.id)) [
        | inl i ↦ inl (keyed r other e h there ((eq_iff other.id e.id).0 i) ∙ sym same)
        | inr i ↦ inr (h, λ k. true≢false (sym ((eq_iff other.id e.id).1 k) ∙ i))
      ]

      go :
          (o : ExceptionRow × Bool)
          → o.0 ≡ row
          → (o.1 ≡ false → row ≡ e)
          → Puts r (update_existing store r task_id o) row
      go (changed, true) h same =
          subst (λ x. Puts r (touch_updated_at (exceptions.save r x) task_id, x) row) (sym h)
            (saved-Puts r row task_id)
      go (changed, false) h same = (
        h,
        subst (λ x. In x (exceptions.rows r)) (sym (same refl)) there,
        All-of_In _ (exceptions.rows r) (others (same refl)),
      )

  -- An upsert leaves in the slot of the table one row: with the given fields, over the row that was
  -- there or over the defaults; it answers that row, and every other row is one that was there.
  pub upsert_override-Puts :
      (r : R) (new_id task_id : String) (slot : Instant) (c : OccurrenceOverrideChanges)
      → Puts r
          (upsert_override store r new_id task_id slot c)
          (upserted new_id task_id slot c (exceptions.find_one r (at_slot task_id slot)))
  unfolding upsert_override upsert_into new_exception
  upsert_override-Puts r new_id task_id slot c =
      go (exceptions.find_one r (at_slot task_id slot)) refl
    where
      go :
          (o : Option ExceptionRow)
          → exceptions.find_one r (at_slot task_id slot) ≡ o
          → Puts r (upsert_into store r new_id task_id slot c o) (upserted new_id task_id slot c o)
      go none e = saved-Puts r (upserted new_id task_id slot c none) task_id
      go (some row) e = existing-Puts r new_id task_id slot c row (found-one r _ row e).0

  -- The upserted row stands in the slot.
  pub upserted-slot :
      (r : R) (new_id task_id : String) (slot : Instant) (c : OccurrenceOverrideChanges)
      → let row = upserted new_id task_id slot c (exceptions.find_one r (at_slot task_id slot)) in
        (row.task_id ≡ task_id) × (row.original_start_at ≡ slot)
  upserted-slot r new_id task_id slot c = go (exceptions.find_one r (at_slot task_id slot)) refl
    where
      go :
          (o : Option ExceptionRow)
          → exceptions.find_one r (at_slot task_id slot) ≡ o
          → ((upserted new_id task_id slot c o).task_id ≡ task_id)
            × ((upserted new_id task_id slot c o).original_start_at ≡ slot)
      go none e = (refl, refl)
      go (some row) e = at_slot-eq task_id slot row (found-one r _ row e).1

  -- Another row in the slot of the upserted one is that row.
  slot-one :
      (r : R) (new_id task_id : String) (slot : Instant) (c : OccurrenceOverrideChanges)
      → OnePerSlot r
      → let row = upserted new_id task_id slot c (exceptions.find_one r (at_slot task_id slot)) in
        (b : ExceptionRow)
        → In b (exceptions.rows r)
        → b.id ≢ row.id
        → b.task_id ≡ task_id
        → b.original_start_at ≡ slot
        → ⊥
  slot-one r new_id task_id slot c one b there other same_task same_slot =
      go (exceptions.find_one r (at_slot task_id slot)) refl other
    where
      go :
          (o : Option ExceptionRow)
          → exceptions.find_one r (at_slot task_id slot) ≡ o
          → b.id ≢ (upserted new_id task_id slot c o).id
          → ⊥
      go none e k = true≢false (
          sym (at_slot-true b)
          ∙ ap (λ x. at_slot x b.original_start_at b) same_task
          ∙ ap (λ x. at_slot task_id x b) same_slot
          ∙ found-none r _ b e there)
      go (some row) e k =
          let (found, at) = found-one r (at_slot task_id slot) row e in
          let (t, s) = at_slot-eq task_id slot row at in
          k (ap (λ x. x.id) (one b row there found (same_task ∙ sym t) (same_slot ∙ sym s)))

  -- Where every slot has one row at most, it still has after an upsert.
  pub upsert_override-OnePerSlot :
      (r : R) (new_id task_id : String) (slot : Instant) (c : OccurrenceOverrideChanges)
      → OnePerSlot r
      → (a b : ExceptionRow)
      → In a (exceptions.rows (upsert_override store r new_id task_id slot c).0)
      → In b (exceptions.rows (upsert_override store r new_id task_id slot c).0)
      → a.task_id ≡ b.task_id
      → a.original_start_at ≡ b.original_start_at
      → a ≡ b
  upsert_override-OnePerSlot r new_id task_id slot c one a b ha hb t s =
      let (_, _, all_others) = upsert_override-Puts r new_id task_id slot c in
      let others = λ (x : ExceptionRow).
        All-In _ (exceptions.rows (upsert_override store r new_id task_id slot c).0) x all_others in
      let (rt, rs) = upserted-slot r new_id task_id slot c in
      elim (others a ha) [
        | inl ea ↦ elim (others b hb) [
          | inl eb ↦ ea ∙ sym eb
          | inr (kb, nb) ↦ absurd (
              slot-one r new_id task_id slot c one b kb nb (sym t ∙ ap (λ x. x.task_id) ea ∙ rt)
                (sym s ∙ ap (λ x. x.original_start_at) ea ∙ rs))
        ]
        | inr (ka, na) ↦ elim (others b hb) [
          | inl eb ↦ absurd (
              slot-one r new_id task_id slot c one a ka na (t ∙ ap (λ x. x.task_id) eb ∙ rt)
                (s ∙ ap (λ x. x.original_start_at) eb ∙ rs))
          | inr (kb, nb) ↦ one a b ka kb t s
        ]
      ]
