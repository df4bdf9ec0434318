-- ===== src/Tasks/Read/Slots.antt =====
-- task.service.ts, buildOverrideSuppressionSet: the slots that it hides.
use text.Mathlib.Text.{◌==◌ as str_eq}
use text.Mathlib.TextEquality.{eq_iff}
use mathlib.Core.Bool.{true≢false}
use cue_api.Common.{
  ◌==◌, ==_iff, ◌<◌, ◌≤◌, ◌≡◌, ◌↔◌, inl, inr, refl, sym, ap, ◌∙◌, subst, String, true, ◌&&◌, Option,
  none, some, List, [], ◌∷◌, arith, Bool-cases, In, flat_map, In-flat_map,
}
use cue_api.Recurrence.Types.{Instant}
use cue_api.Recurrence.Luxon.{Luxon}
use cue_api.Tasks.Types.{TaskRow}
use cue_api.Tasks.Store.{TaskDatabase, TaskLaws, some-null}
use cue_api.Tasks.Read.{
  ListedOccurrence, before, from_on, among, override_child, SlotKey, slot_of, slot_keys, has_key,
  build_override_suppression_set,
}

slot_keys-flat :
    (rows : List TaskRow)
    → slot_keys rows ≡ flat_map (λ child. slot_of child.parent_task_id child.original_start_at) rows
unfolding slot_keys
slot_keys-flat [] = refl
slot_keys-flat (child ∷ rows) = rw (slot_keys-flat rows) refl

slot_of-In :
    (parent : Option String) (start : Option Instant) (id : String) (slot : Instant)
    → In (id, slot) (slot_of parent start)
    → (parent ≡ some id) × (start ≡ some slot)
unfolding slot_of
slot_of-In none start id slot h = absurd h
slot_of-In (some p) none id slot h = absurd h
slot_of-In (some p) (some s) id slot (inl e) =
    (ap (λ k. some (k.0)) (sym e), ap (λ k. some (k.1)) (sym e))
slot_of-In (some p) (some s) id slot (inr h) = absurd h

slot_of-there : (id : String) (slot : Instant) → In (id, slot) (slot_of (some id) (some slot))
unfolding slot_of
slot_of-there id slot = inl refl

has_key-In :
    (keys : List SlotKey) (id : String) (slot : Instant)
    → has_key keys id slot ≡ true
    → In (id, slot) keys
unfolding has_key
has_key-In [] id slot h = absurd (true≢false (sym h))
has_key-In (k ∷ keys) id slot h = elim (Bool-cases (str_eq k.0 id && k.1 == slot)) [
  | inl e ↦
      let a : k.0 ≡ id = (eq_iff k.0 id).0 (ground arith) in
      let b : k.1 ≡ slot = (==_iff k.1 slot).0 (ground arith) in
      inl (sym (ap (λ x. (x, k.1)) a ∙ ap (λ x. (id, x)) b))
  | inr e ↦ inr (has_key-In keys id slot (ground arith))
]

In-has_key :
    (keys : List SlotKey) (id : String) (slot : Instant)
    → In (id, slot) keys
    → has_key keys id slot ≡ true
unfolding has_key
In-has_key [] id slot h = absurd h
In-has_key (k ∷ keys) id slot (inl e) =
    rw ((eq_iff k.0 id).1 (ap (λ x. x.0) (sym e)), (==_iff k.1 slot).1 (ap (λ x. x.1) (sym e))) refl
In-has_key (k ∷ keys) id slot (inr h) = let m = In-has_key keys id slot h in ground arith

override_child-true :
    (ids : List String) (from to : Instant) (child : TaskRow) (slot : Instant)
    → child.original_start_at ≡ some slot
    → override_child ids from to child ≡ true
    → (among ids child.calendar_id ≡ true) × (from ≤ slot) × (slot < to)
unfolding override_child
override_child-true ids from to child slot e h =
    let k : (from_on from (some slot) && before to (some slot)) ≡ true =
      subst (λ x. (from_on from x && before to x) ≡ true) e (ground arith) in
    (ground arith, ground arith, ground arith)

override_child-holds :
    (ids : List String) (from to : Instant) (child : TaskRow) (id : String) (slot : Instant)
    → among ids child.calendar_id ≡ true
    → child.parent_task_id ≡ some id
    → child.original_start_at ≡ some slot
    → from ≤ slot
    → slot < to
    → override_child ids from to child ≡ true
unfolding override_child
override_child-holds ids from to child id slot a ep es l u =
    let n = some-null child.parent_task_id id ep in
    let lb : from_on from child.original_start_at ≡ true =
      subst (λ x. from_on from x ≡ true) (sym es) (ground arith) in
    let ub : before to child.original_start_at ≡ true =
      subst (λ x. before to x ≡ true) (sym es) (ground arith) in
    rw (a, n, lb, ub) refl

module _ {R : Type 0} (store : TaskDatabase R) where
  open store use {tasks}

  -- A live child replaces the slot of a series, and the slot lies in the window.
  abbrev pub Replaced : R → List String → Instant → Instant → String → Instant → Type 0
  Replaced r ids from to id slot =
      (child : TaskRow) × In child (tasks.rows r)
      × (among ids child.calendar_id ≡ true)
      × (child.parent_task_id ≡ some id)
      × (child.original_start_at ≡ some slot)
      × (from ≤ slot)
      × (slot < to)

  abbrev pub Hidden : R → List String → Instant → Instant → ListedOccurrence → Type 0
  Hidden r ids from to o =
      (slot : Instant) × (o.original_start ≡ some slot) × Replaced r ids from to o.task.id slot

module _ (luxon : Luxon) {R : Type 0} (store : TaskDatabase R) (laws : TaskLaws store) where
  open store use {tasks}
  open laws use {found}

  slot_keys-In :
      (rows : List TaskRow) (id : String) (slot : Instant)
      → In (id, slot) (slot_keys rows) ↔ (
          (child : TaskRow) × In child rows
          × In (id, slot) (slot_of child.parent_task_id child.original_start_at))
  slot_keys-In rows id slot =
      rw (slot_keys-flat rows) (
        In-flat_map (λ child. slot_of child.parent_task_id child.original_start_at) (id, slot) rows)

  -- A slot has a key where a live child of the calendars replaces it, and nowhere else.
  pub has_key-Replaced :
      (r : R) (ids : List String) (from to : Instant) (id : String) (slot : Instant)
      → (has_key (build_override_suppression_set luxon store r ids from to) id slot ≡ true)
        ↔ Replaced store r ids from to id slot
  unfolding build_override_suppression_set
  has_key-Replaced r ids from to id slot = (there, here)
    where
      children : List TaskRow
      children = tasks.find_all r (override_child ids from to)

      there : has_key (slot_keys children) id slot ≡ true → Replaced store r ids from to id slot
      there h =
          let (child, k, m) =
            (slot_keys-In children id slot).0 (has_key-In (slot_keys children) id slot h) in
          let (i, t) = (found r (override_child ids from to) child).0 k in
          let (ep, es) = slot_of-In child.parent_task_id child.original_start_at id slot m in
          let (a, l, u) = override_child-true ids from to child slot es t in
          (child, i, a, ep, es, l, u)

      here : Replaced store r ids from to id slot → has_key (slot_keys children) id slot ≡ true
      here (child, i, a, ep, es, l, u) = In-has_key (slot_keys children) id slot (
          (slot_keys-In children id slot).1 (
            child,
            (found r (override_child ids from to) child).1
                (i, override_child-holds ids from to child id slot a ep es l u),
            subst (λ p. In (id, slot) (slot_of p child.original_start_at)) (sym ep)
                (subst (λ x. In (id, slot) (slot_of (some id) x)) (sym es) (slot_of-there id slot)),
          ))
