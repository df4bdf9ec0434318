-- ===== src/Recurrence/Expand/Pipeline.antt =====
-- The expansion loop against a pipeline of list functions.
use cue_api.Common.{
  ℕ, zero, suc, ◌+◌, ◌-◌, ◌≤◌, ◌<◌, ◌≡◌, refl, sym, ◌∙◌, Bool, true, false, not, ◌&&◌, ◌||◌, Option,
  none, some, List, [], ◌∷◌, ◌++◌, append_assoc, append-nil, leb, if◌then◌else◌, length,
  length-append, take, take_while, arith, Bool-cases, leb→le, leb→lt, map, inl, inr,
}
use cue_api.Recurrence.Types.{Instant, Occurrence}
use cue_api.Recurrence.Luxon.{Luxon}
use cue_api.Recurrence.Expand.{
  Window, Flow, returned, truncated, proceed, visit, visit_all, past_until, count_reached,
  end_millis, skipped, exception_at, build_occurrence, max_occurrences_per_window,
}

module _ (w : Window) where
  -- The instant lies before the end of the window and not after the UNTIL boundary.
  abbrev pub in_bounds : Instant → Bool
  in_bounds millis = not (past_until w.until millis) && not (leb w.window_to millis)

  -- The occurrence at the instant has ended before the window, or is skipped by an exception.
  abbrev pub hides : Instant → Bool
  hides millis =
      leb (end_millis w.duration millis) w.window_from || skipped (exception_at w.exceptions millis)

  abbrev pub built : Instant → Occurrence
  built millis =
      build_occurrence w.anchor w.summary millis w.duration (exception_at w.exceptions millis)

  -- The occurrences at the instants that are not hidden.
  unfoldable pub visible : List Instant → List Occurrence
  visible [] = []
  visible (m ∷ ms) = if hides m then visible ms else built m ∷ visible ms

  abbrev stops : Instant → ℕ → Bool
  stops millis generated =
      past_until w.until millis || (count_reached w.count_limit generated || leb w.window_to millis)

  module _ (m : Instant) (os : List Occurrence) (n : ℕ) where
    visit-stops : stops m n ≡ true → visit w m os n ≡ returned os
    unfolding visit
    visit-stops h = ground arith

    visit-hides : stops m n ≡ false → hides m ≡ true → visit w m os n ≡ proceed os (n + 1)
    unfolding visit
    visit-hides h k = ground arith

    visit-shows :
        stops m n ≡ false
        → hides m ≡ false
        → length os + 1 < max_occurrences_per_window
        → visit w m os n ≡ proceed (os ++ built m ∷ []) (n + 1)
    unfolding visit
    visit-shows h k l = ground (arith, length-append {0} os (built m ∷ []))

    visit-fills :
        stops m n ≡ false
        → hides m ≡ false
        → max_occurrences_per_window ≤ length os + 1
        → visit w m os n ≡ truncated (os ++ built m ∷ [])
    unfolding visit
    visit-fills h k l = ground (arith, length-append {0} os (built m ∷ []))

-- The instants that are left once `generated` of them count towards the limit.
abbrev pub remaining : Option ℕ → ℕ → List Instant → List Instant
remaining none generated ms = ms
remaining (some limit) generated ms = take (limit - generated) ms

module _ (limit : Option ℕ) (generated : ℕ) (m : Instant) (ms : List Instant) where
  remaining-reached : count_reached limit generated ≡ true → remaining limit generated (m ∷ ms) ≡ []
  remaining-reached h = go limit h
    where
      go : (l : Option ℕ) → count_reached l generated ≡ true → remaining l generated (m ∷ ms) ≡ []
      go none h = ground arith
      go (some l) h = rw (none_left l (leb→le l generated h))
        where
          none_left : (l : ℕ) → l ≤ generated → l - generated ≡ 0
          none_left l h = omega arith

  remaining-left :
      count_reached limit generated ≡ false
      → remaining limit generated (m ∷ ms) ≡ m ∷ remaining limit (generated + 1) ms
  remaining-left h = go limit h
    where
      go :
          (l : Option ℕ)
          → count_reached l generated ≡ false
          → remaining l generated (m ∷ ms) ≡ m ∷ remaining l (generated + 1) ms
      go none h = refl
      go (some l) h = rw (one_more l (leb→lt l generated h))
        where
          one_more : (l : ℕ) → generated < l → l - generated ≡ suc (l - (generated + 1))
          one_more l h = omega arith

remaining-nil : (limit : Option ℕ) (generated : ℕ) → remaining limit generated [] ≡ []
remaining-nil none n = refl
remaining-nil (some l) n = go (l - n)
  where
    go : (k : ℕ) → take {A = Instant} k [] ≡ []
    go zero = refl
    go (suc k) = refl

module _ (w : Window) where
  -- What the loop adds from the candidates that are still to come.
  unfoldable pub upcoming : ℕ → List Instant → List Occurrence
  upcoming generated ms =
      visible w (take_while (in_bounds w) (remaining w.count_limit generated ms))

  upcoming-nil : (n : ℕ) → upcoming n [] ≡ []
  unfolding upcoming visible
  upcoming-nil n = rw (remaining-nil w.count_limit n)

  module _ (m : Instant) (ms : List Instant) (n : ℕ) where
    upcoming-stops : stops w m n ≡ true → upcoming n (m ∷ ms) ≡ []
    unfolding upcoming visible
    upcoming-stops h = elim (Bool-cases (count_reached w.count_limit n)) [
      | inl e ↦ rw (remaining-reached w.count_limit n m ms e)
      | inr e ↦ rw (remaining-left w.count_limit n m ms e) (ground arith)
    ]

    upcoming-goes :
        stops w m n ≡ false
        → upcoming n (m ∷ ms)
          ≡ (if hides w m then upcoming (n + 1) ms else built w m ∷ upcoming (n + 1) ms)
    unfolding upcoming visible
    upcoming-goes h = rw (remaining-left w.count_limit n m ms (counts h)) (ground arith)
      where
        counts : stops w m n ≡ false → count_reached w.count_limit n ≡ false
        counts h = ground arith

-- The occurrences that stand when the loop ends with a flow.
abbrev pub collected : Flow → List Occurrence
collected (returned os) = os
collected (truncated os) = os
collected (proceed os n) = os

module _ (luxon : Luxon) (w : Window) where
  open luxon use {DateTime, to_millis}

  module _ (c : DateTime) (cs : List DateTime) (os os' : List Occurrence) (n : ℕ) where
    pub visit_all-returned :
        visit w (to_millis c) os n ≡ returned os' → visit_all luxon w (c ∷ cs) os n ≡ returned os'
    unfolding visit_all
    visit_all-returned e = rw (e, visit_all)

    pub visit_all-truncated :
        visit w (to_millis c) os n ≡ truncated os' → visit_all luxon w (c ∷ cs) os n ≡ truncated os'
    unfolding visit_all
    visit_all-truncated e = rw (e, visit_all)

    pub visit_all-proceed :
        (n' : ℕ)
        → visit w (to_millis c) os n ≡ proceed os' n'
        → visit_all luxon w (c ∷ cs) os n ≡ visit_all luxon w cs os' n'
    unfolding visit_all
    visit_all-proceed n' e = rw (e, visit_all)

  pub visit_all-nil : (os : List Occurrence) (n : ℕ) → visit_all luxon w [] os n ≡ proceed os n
  unfolding visit_all
  visit_all-nil os n = refl

  -- The loop over candidates fills what room is left with the upcoming occurrences.
  pub collected-visit_all :
      (cs : List DateTime) (os : List Occurrence) (n room : ℕ)
      → length os + suc room ≡ max_occurrences_per_window
      → collected (visit_all luxon w cs os n)
        ≡ os ++ take (suc room) (upcoming w n (map to_millis cs))
  collected-visit_all [] os n room h =
      rw (visit_all-nil os n, upcoming-nil w n) (sym (append-nil os))
  collected-visit_all (c ∷ cs) os n room h = elim (Bool-cases (stops w (to_millis c) n)) [
    | inl stop ↦
        rw
          (
            visit_all-returned c cs os os n (visit-stops w m os n stop),
            upcoming-stops w m (map to_millis cs) n stop,
          )
          (sym (append-nil os))
    | inr go ↦ elim (Bool-cases (hides w (to_millis c))) [
      | inl hid ↦
          rw
            (
              visit_all-proceed c cs os os n (n + 1) (visit-hides w m os n go hid),
              upcoming-goes w m (map to_millis cs) n go,
              hid,
            )
            (collected-visit_all cs os (n + 1) room h)
      | inr shown ↦
          rw (upcoming-goes w m (map to_millis cs) n go, shown)
            (show go shown room h
              (λ r k. collected-visit_all cs (os ++ built w m ∷ []) (n + 1) r k))
    ]
  ]
    where
      m : Instant
      m = to_millis c

      show :
          stops w m n ≡ false
          → hides w m ≡ false
          → (r : ℕ) → length os + suc r ≡ max_occurrences_per_window
          → ((r : ℕ)
              → length (os ++ built w m ∷ []) + suc r ≡ max_occurrences_per_window
              → collected (visit_all luxon w cs (os ++ built w m ∷ []) (n + 1))
                ≡ (os ++ built w m ∷ []) ++ take (suc r) (upcoming w (n + 1) (map to_millis cs)))
          → collected (visit_all luxon w (c ∷ cs) os n)
            ≡ os ++ built w m ∷ take r (upcoming w (n + 1) (map to_millis cs))
      show go shown zero h ih =
          rw (visit_all-truncated c cs os _ n (visit-fills w m os n go shown (omega arith)))
      show go shown (suc r) h ih =
          rw (visit_all-proceed c cs os _ n (n + 1) (visit-shows w m os n go shown (omega arith))) (
            ih r (omega (arith, length-append {0} os (built w m ∷ [])))
            ∙ append_assoc os (built w m ∷ []) _)
