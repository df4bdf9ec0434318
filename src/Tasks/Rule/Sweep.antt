-- ===== src/Tasks/Rule/Sweep.antt =====
-- What the sweep over the override children of a series leaves.
use mathlib.Core.Bool.{true≢false}
use cue_api.Common.{
  ◌≡◌, ◌≢◌, ◌⊎◌, inl, inr, refl, sym, ap, ◌∙◌, Bool, true, false, Option, List, [], ◌∷◌, Bool-cases,
  In, All, All-In, All-of_In, Pairwise,
}
use cue_api.Recurrence.Types.{RecurrenceConfig}
use cue_api.Recurrence.Luxon.{Luxon}
use cue_api.Tasks.Types.{TaskRow}
use cue_api.Tasks.Store.{TaskDatabase}
use cue_api.Tasks.Laws.{StoreLaws}
use cue_api.Tasks.Rule.{child_of, sweep_child, sweep_children, sweep_override_children}
use cue_api.Tasks.Rule.Rounds.{Fits, After, Remains, sweep_child-After}

module _ (luxon : Luxon) {R : Type 0} (store : TaskDatabase R) (laws : StoreLaws store)
    (parent : TaskRow) (config : Option RecurrenceConfig) where
  open store use {tasks, now}
  open laws use {task_laws, save_task-groups}

  -- What the sweep leaves: each child, which fits, and the other rows.
  Swept : R → List TaskRow → TaskRow → Type 0
  Swept r children z =
      ((x : TaskRow) × In x children
        × (z ≡ record x { detached_at = z.detached_at })
        × Fits luxon store r parent config z)
      ⊎ (In z (tasks.rows r) × All (λ x. z.id ≢ x.id) children)

  sweep_children-Swept :
      (r : R) (children : List TaskRow)
      → All (λ x. In x (tasks.rows r)) children
      → Pairwise (λ a b. b.id ≢ a.id) children
      → (z : TaskRow) → In z (tasks.rows (sweep_children luxon store r parent config children))
      → Swept r children z
  unfolding sweep_children Swept After
  sweep_children-Swept r [] there apart z i = inr (i, tt)
  sweep_children-Swept r (x ∷ xs) (x_there, there) (x_apart, apart) z i =
      first (sweep_child-After luxon store laws parent config r x x_there) (λ still.
        sweep_children-Swept (sweep_child luxon store r parent config x) xs still apart z i)
    where
      r' : R
      r' = sweep_child luxon store r parent config x

      first :
          After luxon store laws parent config r x r'
          → (All (λ y. In y (tasks.rows r')) xs → Swept r' xs z)
          → Swept r (x ∷ xs) z
      first (same, kept, rows, remains) rest =
          elim (rest
            (All-of_In _ xs (λ y k. kept y (All-In _ xs y there k) (All-In _ xs y x_apart k)))) [
              | inl (y, k, e, fits) ↦ inl (y, inr k, e, λ slot q. fits slot q ∙ same slot)
              | inr (k, others) ↦ elim (rows z k) [
                | inl (id, e, fits) ↦ inl (x, inl refl, e, fits)
                | inr (k', n) ↦ inr (k', (n, others))
              ]
            ]

  -- The rows that are no children stay.
  sweep_children-others :
      (r : R) (children : List TaskRow)
      → All (λ x. In x (tasks.rows r)) children
      → Pairwise (λ a b. b.id ≢ a.id) children
      → (z : TaskRow) → In z (tasks.rows r)
      → All (λ x. z.id ≢ x.id) children
      → In z (tasks.rows (sweep_children luxon store r parent config children))
  unfolding sweep_children After
  sweep_children-others r [] there apart z i others = i
  sweep_children-others r (x ∷ xs) (x_there, there) (x_apart, apart) z i (n, others) =
      let (same, kept, rows, remains) =
        sweep_child-After luxon store laws parent config r x x_there in
      sweep_children-others (sweep_child luxon store r parent config x) xs
        (All-of_In _ xs (λ y k. kept y (All-In _ xs y there k) (All-In _ xs y x_apart k))) apart z
        (kept z i n) others

  -- And so do the children, but for their detachment.
  sweep_children-Remains :
      (r : R) (children : List TaskRow)
      → All (λ x. In x (tasks.rows r)) children
      → Pairwise (λ a b. b.id ≢ a.id) children
      → (x : TaskRow) → In x children
      → Remains luxon store laws parent config
          (sweep_children luxon store r parent config children)
          x
  unfolding sweep_children After
  sweep_children-Remains r [] there apart x h = absurd h
  sweep_children-Remains r (y ∷ ys) (y_there, there) (y_apart, apart) x h =
      let (same, kept, rows, (z, i, e)) =
        sweep_child-After luxon store laws parent config r y y_there in
      let still =
        All-of_In _ ys (λ w k. kept w (All-In _ ys w there k) (All-In _ ys w y_apart k)) in
      elim h [
        | inl first ↦ rw first (
          z,
          sweep_children-others (sweep_child luxon store r parent config y) ys still apart z i
              (All-of_In _ ys (λ w k q. All-In _ ys w y_apart k (sym q ∙ ap (λ a. a.id) e))),
          e,
        )
        | inr later ↦
            sweep_children-Remains (sweep_child luxon store r parent config y) ys still apart x
              later
      ]

  -- The rows after the sweep.
  swept_only :
      (r : R) (z : TaskRow)
      → In z (tasks.rows (sweep_override_children luxon store r parent config))
      → ((x : TaskRow) × In x (tasks.rows r)
          × (child_of parent.id x ≡ true)
          × (z ≡ record x { detached_at = z.detached_at })
          × Fits luxon store r parent config z)
        ⊎ (In z (tasks.rows r) × (child_of parent.id z ≡ false))
  unfolding sweep_override_children Swept
  swept_only r z i =
      elim (sweep_children-Swept r children present (task_laws.found-apart r is_child) z i) [
        | inl (x, k, e, fits) ↦
            let (there, child) = (task_laws.found r is_child x).0 k in
            inl (x, there, child, e, fits)
        | inr (there, others) ↦ inr (
          there,
          elim (Bool-cases (is_child z)) [
            | inl t ↦ absurd (
                All-In (λ x. z.id ≢ x.id) children z others
                  ((task_laws.found r is_child z).1 (there, t)) refl)
            | inr f ↦ f
          ],
        )
      ]
    where
      is_child : TaskRow → Bool
      is_child = child_of parent.id

      children : List TaskRow
      children = tasks.find_all r is_child

      present : All (λ x. In x (tasks.rows r)) children
      present = All-of_In _ children (λ x k. ((task_laws.found r is_child x).0 k).0)

  -- After the sweep with a rule over the children of a series, each row that was no child of it is
  -- still there, and so is each child as it was but for its detachment; nothing else is there, and
  -- a child that names a slot is detached where the rule does not generate that slot and only
  -- there.
  pub sweep_override_children-Fits :
      (r : R)
      → let swept = tasks.rows (sweep_override_children luxon store r parent config) in
        ((z : TaskRow)
          → In z swept
          → ((x : TaskRow) × In x (tasks.rows r)
              × (child_of parent.id x ≡ true)
              × (z ≡ record x { detached_at = z.detached_at })
              × Fits luxon store r parent config z)
            ⊎ (In z (tasks.rows r) × (child_of parent.id z ≡ false)))
        × ((x : TaskRow) → In x (tasks.rows r) → child_of parent.id x ≡ false → In x swept)
        × ((x : TaskRow)
            → In x (tasks.rows r)
            → child_of parent.id x ≡ true
            → (z : TaskRow) × In z swept × (z ≡ record x { detached_at = z.detached_at }))
  unfolding sweep_override_children
  sweep_override_children-Fits r = (
    swept_only r,
    λ x i c.
        sweep_children-others r children present apart x i
          (All-of_In _ children (λ y k q. apart_from x y i c k q)),
    λ x i c.
        sweep_children-Remains r children present apart x ((task_laws.found r is_child x).1 (i, c)),
  )
    where
      is_child : TaskRow → Bool
      is_child = child_of parent.id

      children : List TaskRow
      children = tasks.find_all r is_child

      apart_from :
          (x y : TaskRow) → In x (tasks.rows r) → is_child x ≡ false → In y children → x.id ≢ y.id
      apart_from x y i c k q =
          let (there, child) = (task_laws.found r is_child y).0 k in
          true≢false (sym child ∙ ap is_child (sym (task_laws.keyed r x y i there q)) ∙ c)

      apart : Pairwise (λ a b. b.id ≢ a.id) children
      apart = task_laws.found-apart r is_child

      present : All (λ x. In x (tasks.rows r)) children
      present = All-of_In _ children (λ x k. ((task_laws.found r is_child x).0 k).0)
