-- ===== src/Tasks/Rule/Rounds.antt =====
-- What a round of the sweep over the override children of a series leaves.
use text.Mathlib.Text.{◌==◌ as str_eq}
use text.Mathlib.TextEquality.{eq_iff}
use mathlib.Core.Bool.{true≢false}
use cue_api.Common.{
  ◌≡◌, ◌≢◌, ◌⊎◌, inl, inr, refl, sym, ap, ◌∙◌, subst, String, Bool, not, ◌&&◌, Option, none, some,
  arith, Bool-cases, In,
}
use cue_api.Recurrence.Types.{Instant, RecurrenceConfig}
use cue_api.Recurrence.Luxon.{Luxon}
use cue_api.Tasks.Types.{TaskRow, GroupRow}
use cue_api.Tasks.Store.{TaskDatabase, is_null, group_of}
use cue_api.Tasks.Laws.{StoreLaws}
use cue_api.Tasks.Rule.{is_generated_occurrence, generates, sweep_slot, sweep_child}

some-eq : {a b : Instant} → some a ≡ some b → a ≡ b
some-eq h = cc

none-some : {a : Instant} → none ≡ some a → ⊥
none-some h = cc

module _ (luxon : Luxon) {R : Type 0} (store : TaskDatabase R) where
  -- A child is detached where the rule does not generate its slot, and only there.
  abbrev pub Fits : R → TaskRow → Option RecurrenceConfig → TaskRow → Type 0
  Fits r parent config child =
      (slot : Instant)
      → child.original_start_at ≡ some slot
      → is_null child.detached_at ≡ generates luxon store r parent config slot

  -- What a rule generates for a series depends on the state by the group of the series alone.
  generates-group :
      (parent : TaskRow) (r s : R) (c : Option RecurrenceConfig) (slot : Instant)
      → group_of store r parent ≡ group_of store s parent
      → generates luxon store r parent c slot ≡ generates luxon store s parent c slot
  unfolding generates is_generated_occurrence
  generates-group parent r s none slot e = refl
  generates-group parent r s (some config) slot e = rw e refl

  group-save :
      (laws : StoreLaws store) (r : R) (row parent : TaskRow)
      → group_of store (store.tasks.save r row) parent ≡ group_of store r parent
  unfolding group_of
  group-save laws r row parent = go parent.group_id
    where
      go :
          (id : Option String)
          → elim id as (λ x. Option GroupRow) [
            | none ↦ none
            | some i ↦ store.groups.find_one (store.tasks.save r row) (λ g. str_eq g.id i)
          ]
            ≡ elim id as (λ x. Option GroupRow) [
              | none ↦ none
              | some i ↦ store.groups.find_one r (λ g. str_eq g.id i)
            ]
      go none = refl
      go (some i) = laws.save_task-groups r row (λ g. str_eq g.id i)

module _ (luxon : Luxon) {R : Type 0} (store : TaskDatabase R) (laws : StoreLaws store)
    (parent : TaskRow) (config : Option RecurrenceConfig) where
  open store use {tasks, now}
  open laws use {task_laws, save_task-groups}

  -- A round leaves a child that fits, and saves one that fits in the place of one that does not.
  Round : R → TaskRow → R → Type 0
  Round r child r' =
      ((r' ≡ r) × Fits luxon store r parent config child)
      ⊎ ((at : Option Instant) × (r' ≡ tasks.save r (record child { detached_at = at }))
          × Fits luxon store r parent config (record child { detached_at = at }))

  sweep_slot-Round :
      (r : R) (child : TaskRow) (slot : Instant) (generated : Bool)
      → child.original_start_at ≡ some slot
      → generates luxon store r parent config slot ≡ generated
      → Round r child (sweep_slot luxon store r child generated)
  unfolding Round sweep_slot
  sweep_slot-Round r child slot generated start g =
      elim (Bool-cases (not generated && is_null child.detached_at)) [
        | inl e ↦ rw e (inr (some (now r), refl, λ s q. ground arith ∙ sym (same s q)))
        | inr e ↦ elim (Bool-cases (generated && not (is_null child.detached_at))) [
          | inl k ↦ rw (e, k) (inr (none, refl, λ s q. ground arith ∙ sym (same s q)))
          | inr k ↦ rw (e, k) (inl (refl, λ s q. ground arith ∙ sym (same s q)))
        ]
      ]
    where
      same :
          (s : Instant)
          → child.original_start_at ≡ some s
          → generates luxon store r parent config s ≡ generated
      same s q = ap (generates luxon store r parent config) (some-eq (sym q ∙ start)) ∙ g

  sweep_child-Round :
      (r : R) (child : TaskRow) → Round r child (sweep_child luxon store r parent config child)
  unfolding sweep_child Round
  sweep_child-Round r child = go child.original_start_at refl
    where
      go :
          (start : Option Instant)
          → child.original_start_at ≡ start
          → Round r child (elim start [
            | none ↦ r
            | some slot ↦
                sweep_slot luxon store r child (generates luxon store r parent config slot)
          ])
      go none e = inl (refl, λ slot k. absurd (none-some (sym e ∙ k)))
      go (some slot) e =
          sweep_slot-Round r child slot (generates luxon store r parent config slot) e refl

  -- The rule generates the same slots after a write to the tasks.
  generates-save :
      (r : R) (row : TaskRow) (slot : Instant)
      → generates luxon store (tasks.save r row) parent config slot
        ≡ generates luxon store r parent config slot
  generates-save r row slot =
      generates-group luxon store parent (tasks.save r row) r config slot
        (group-save luxon store laws r row parent)

  -- The row is still there, but for its detachment.
  abbrev pub Remains : R → TaskRow → Type 0
  Remains r x = (z : TaskRow) × In z (tasks.rows r) × (z ≡ record x { detached_at = z.detached_at })

  -- What one round leaves: the child, which fits now, and the other rows.
  unfoldable pub After : R → TaskRow → R → Type 0
  After r child r' =
      ((slot : Instant)
        → generates luxon store r' parent config slot ≡ generates luxon store r parent config slot)
      × ((z : TaskRow) → In z (tasks.rows r) → z.id ≢ child.id → In z (tasks.rows r'))
      × ((z : TaskRow)
          → In z (tasks.rows r')
          → ((z.id ≡ child.id)
              × (z ≡ record child { detached_at = z.detached_at })
              × Fits luxon store r parent config z)
            ⊎ (In z (tasks.rows r) × (z.id ≢ child.id)))
      × Remains r' child

  Round-After :
      (r : R) (child : TaskRow) (r' : R)
      → In child (tasks.rows r)
      → Round r child r'
      → After r child r'
  unfolding Round After
  Round-After r child r' there (inl (e, fits)) =
      rw e (λ slot. refl, λ z i n. i, λ z i. stay z i, (child, there, refl))
    where
      stay :
          (z : TaskRow)
          → In z (tasks.rows r)
          → ((z.id ≡ child.id)
              × (z ≡ record child { detached_at = z.detached_at })
              × Fits luxon store r parent config z)
            ⊎ (In z (tasks.rows r) × (z.id ≢ child.id))
      stay z i = elim (Bool-cases (str_eq z.id child.id)) [
        | inl k ↦
            let same : z ≡ child = task_laws.keyed r z child i there ((eq_iff z.id child.id).0 k) in
            inl (
              ap (λ x. x.id) same,
              subst (λ x. x ≡ record child { detached_at = x.detached_at }) (sym same) refl,
              subst (Fits luxon store r parent config) (sym same) fits,
            )
        | inr k ↦ inr (i, λ q. true≢false (sym ((eq_iff z.id child.id).1 q) ∙ k))
      ]
  Round-After r child r' there (inr (at, e, fits)) = rw e (
    λ slot. generates-save r row slot,
    λ z i n. task_laws.saved-others r row z i n,
    λ z i. moved z i,
    (row, task_laws.saved-there r row (task_laws.rows-live r child there), refl),
  )
    where
      row : TaskRow
      row = record child { detached_at = at }

      moved :
          (z : TaskRow)
          → In z (tasks.rows (tasks.save r row))
          → ((z.id ≡ child.id)
              × (z ≡ record child { detached_at = z.detached_at })
              × Fits luxon store r parent config z)
            ⊎ (In z (tasks.rows r) × (z.id ≢ child.id))
      moved z i = elim (task_laws.saved r row z i) [
        | inl (same, live) ↦ inl (
          ap (λ x. x.id) same,
          subst (λ x. x ≡ record child { detached_at = x.detached_at }) (sym same) refl,
          subst (Fits luxon store r parent config) (sym same) fits,
        )
        | inr k ↦ inr k
      ]

  pub sweep_child-After :
      (r : R) (child : TaskRow)
      → In child (tasks.rows r)
      → After r child (sweep_child luxon store r parent config child)
  sweep_child-After r child there =
      Round-After r child (sweep_child luxon store r parent config child) there
        (sweep_child-Round r child)
