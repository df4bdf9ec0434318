-- ===== src/Session/Ingress/Taps.antt =====
-- inbound-router.ts, classifyFlow: which updates are keyboard taps.
use package.text.Mathlib.Text.{◌==◌ as str_eq, starts_with}
use package.text.Mathlib.TextEquality.{eq_iff}
use mathlib.Core.Bool.{true≢false}
use cue_api.Common.{
  ◌≡◌, ◌↔◌, ◌⊎◌, inl, inr, refl, sym, ◌∙◌, subst, String, Bool, true, false, Option, none, some,
  List, [], ◌∷◌, get_or, Bool-cases, map, In, In-append, In-left,
}
use cue_api.Session.MessageBuffer.{InboundKind, text, voice, command, callback}
use cue_api.Session.Keyboard.{
  KeyboardSurface, main_surface, settings_surface, menu_surface, KeyboardAction, FoundAction,
  open_menu_label, keyboard_labels, surface_actions, object_members, member_of, look_up,
  resolve_keyboard_action,
}
use cue_api.Session.Ingress.{
  NormalizedInboundMessage, InboundFlow, command_flow, answer_flow, keyboard_flow, simple_flow,
  ask_callback_prefix, given_text, message_text, answer_or_simple, tap_of, tap_or, callback_flow,
  classify_flow,
}

-- A flow that the model never sees: a keyboard action.
abbrev pub IsTap : InboundFlow → Type 0
IsTap (command_flow name args) = ⊥
IsTap (answer_flow a) = ⊥
IsTap (keyboard_flow action) = Unit {0}
IsTap (simple_flow t kind) = ⊥

abbrev Found : Option FoundAction → Type 0
Found none = ⊥
Found (some a) = Unit {0}

-- The labels that a docked surface answers to: those of its buttons, "Open Menu", and the names of
-- the members that its table inherits.
abbrev pub Owns : KeyboardSurface → String → Type 0
Owns surface label =
    In label (keyboard_labels surface) ⊎ (label ≡ open_menu_label) ⊎ In label object_members

member_of-Found : (ms : List String) (label : String) → Found (member_of ms label) ↔ In label ms
unfolding member_of
member_of-Found [] label = (λ h. h, λ h. h)
member_of-Found (m ∷ ms) label = elim (Bool-cases (str_eq m label)) [
  | inl e ↦ rw e (λ h. inl (sym ((eq_iff m label).0 e)), λ h. tt)
  | inr e ↦ rw e (
    λ h. inr ((member_of-Found ms label).0 h),
    λ h. elim h [
      | inl same ↦ absurd (true≢false (sym ((eq_iff m label).1 (sym same)) ∙ e))
      | inr k ↦ (member_of-Found ms label).1 k
    ],
  )
]

look_up-Found :
    (table : List (String × KeyboardAction)) (label : String)
    → Found (look_up table label)
      ↔ (In label (map (λ entry. entry.0) table) ⊎ In label object_members)
unfolding look_up
look_up-Found [] label = (
  λ h. inr ((member_of-Found object_members label).0 h),
  λ h. elim h [ inl k ↦ absurd k | inr k ↦ (member_of-Found object_members label).1 k ],
)
look_up-Found ((l, action) ∷ table) label = elim (Bool-cases (str_eq l label)) [
  | inl e ↦ rw e (λ h. inl (inl (sym ((eq_iff l label).0 e))), λ h. tt)
  | inr e ↦ rw e (
    λ h. elim ((look_up-Found table label).0 h) [ inl k ↦ inl (inr k) | inr k ↦ inr k ],
    λ h. elim h [
      | inl (inl same) ↦ absurd (true≢false (sym ((eq_iff l label).1 (sym same)) ∙ e))
      | inl (inr k) ↦ (look_up-Found table label).1 (inl k)
      | inr k ↦ (look_up-Found table label).1 (inr k)
    ],
  )
]

-- The keys of the table of a surface: the labels of its buttons, and "Open Menu".
keys-labels :
    (surface : KeyboardSurface) (label : String)
    → In label (map (λ entry. entry.0) (surface_actions surface))
      ↔ (In label (keyboard_labels surface) ⊎ (label ≡ open_menu_label))
keys-labels main_surface label =
    (λ h. inl h, λ h. elim h [ inl k ↦ k | inr e ↦ inr (inr (inr (inl e))) ])
keys-labels settings_surface label = (
  λ h. elim (In-append label (keyboard_labels settings_surface) (open_menu_label ∷ []) h) [
    | inl k ↦ inl k
    | inr (inl e) ↦ inr e
    | inr (inr k) ↦ absurd k
  ],
  λ h. elim h [
    | inl k ↦ In-left label (keyboard_labels settings_surface) (open_menu_label ∷ []) k
    | inr e ↦ inr (inr (inl e))
  ],
)
keys-labels menu_surface label = (
  λ h. elim (In-append label (keyboard_labels menu_surface) (open_menu_label ∷ []) h) [
    | inl k ↦ inl k
    | inr (inl e) ↦ inr e
    | inr (inr k) ↦ absurd k
  ],
  λ h. elim h [
    | inl k ↦ In-left label (keyboard_labels menu_surface) (open_menu_label ∷ []) k
    | inr e ↦ inr (inr (inr (inl e)))
  ],
)

resolve-Owns :
    (surface : KeyboardSurface) (label : String)
    → Found (resolve_keyboard_action surface label) ↔ Owns surface label
unfolding resolve_keyboard_action
resolve-Owns surface label = (
  λ h. elim ((look_up-Found (surface_actions surface) label).0 h) [
    | inl k ↦ elim ((keys-labels surface label).0 k) [ inl m ↦ inl m | inr e ↦ inr (inl e) ]
    | inr k ↦ inr (inr k)
  ],
  λ h. (look_up-Found (surface_actions surface) label).1 (elim h [
    | inl k ↦ inl ((keys-labels surface label).1 (inl k))
    | inr (inl e) ↦ inl ((keys-labels surface label).1 (inr e))
    | inr (inr k) ↦ inr k
  ]),
)

-- No surface answers to the empty text.
empty-unowned : (surface : KeyboardSurface) → Found (resolve_keyboard_action surface "") → ⊥
unfolding resolve_keyboard_action look_up member_of
empty-unowned main_surface h = h
empty-unowned settings_surface h = h
empty-unowned menu_surface h = h

tap_of-Owns :
    (docked : Option KeyboardSurface) (t : String)
    → Found (tap_of docked t)
      ↔ ((surface : KeyboardSurface) × (docked ≡ some surface) × Owns surface t)
unfolding tap_of
tap_of-Owns none t = (λ h. absurd h, λ (s, e, o). absurd (none-some e))
  where
    none-some : {s : KeyboardSurface} → none ≡ some s → ⊥
    none-some e = cc
tap_of-Owns (some surface) t = elim (Bool-cases (str_eq t "")) [
  | inl e ↦ rw e (
    λ h. absurd h,
    λ (s, same, o). empty-unowned s (
        subst (λ x. Found (resolve_keyboard_action s x)) ((eq_iff t "").0 e)
          ((resolve-Owns s t).1 o)),
  )
  | inr e ↦ rw e (
    λ h. (surface, refl, (resolve-Owns surface t).0 h),
    λ (s, same, o). (resolve-Owns surface t).1 (subst (λ x. Owns x t) (sym (some-eq same)) o),
  )
]
  where
    some-eq : {a b : KeyboardSurface} → some a ≡ some b → a ≡ b
    some-eq e = cc

plain-IsTap :
    (pending : Bool) (kind : InboundKind) (t : String) → IsTap (answer_or_simple pending kind t) → ⊥
unfolding answer_or_simple
plain-IsTap true kind t h = h
plain-IsTap false kind t h = h

tap_or-IsTap :
    (found : Option FoundAction) (flow : InboundFlow)
    → (IsTap flow → ⊥)
    → IsTap (tap_or found flow) ↔ Found found
unfolding tap_or
tap_or-IsTap none flow n = (n, λ h. absurd h)
tap_or-IsTap (some a) flow n = (λ h. tt, λ h. tt)

command-IsTap :
    (name : Option String) (args : List String) (plain : InboundFlow)
    → (IsTap plain → ⊥)
    → IsTap (elim name [ none ↦ plain | some n ↦ command_flow n args ])
    → ⊥
command-IsTap none args plain untapped h = untapped h
command-IsTap (some n) args plain untapped h = h

callback-IsTap :
    (id given : Option String) (plain : InboundFlow)
    → (IsTap plain → ⊥)
    → IsTap (get_or (callback_flow id given) plain)
    → ⊥
unfolding callback_flow
callback-IsTap none given plain untapped = untapped
callback-IsTap (some id) given plain untapped =
    elim (Bool-cases (starts_with (get_or given "") ask_callback_prefix)) [
      | inl e ↦ rw e (λ h. h)
      | inr e ↦ rw e untapped
    ]

-- The condition under which an update is a keyboard tap: it is typed, and the docked surface owns
-- its text.
abbrev pub Tapped : NormalizedInboundMessage → Option KeyboardSurface → Option String → Type 0
Tapped m docked transcript =
    (m.kind ≡ text)
    × (surface : KeyboardSurface) × (docked ≡ some surface)
    × Owns surface (message_text m transcript)

abbrev message :
    InboundKind
    → Option String
    → Option String
    → Option (List String)
    → Option String
    → Option String
    → NormalizedInboundMessage
message k t c args given id = record {
  kind = k;
  text = t;
  command = c;
  command_args = args;
  callback_data = given;
  callback_id = id;
}

neither : {A B : Type 0} → (A → ⊥) → (B → ⊥) → A ↔ B
neither no_a no_b = (λ h. absurd (no_a h), λ h. absurd (no_b h))

by_kind :
    (k : InboundKind) (t c : Option String) (args : Option (List String)) (given id : Option String)
    (docked : Option KeyboardSurface) (pending : Bool) (transcript : Option String)
    → IsTap (classify_flow (message k t c args given id) docked pending transcript)
      ↔ Tapped (message k t c args given id) docked transcript
unfolding classify_flow
by_kind text t c args given id docked pending transcript =
    let content = message_text (message text t c args given id) transcript in
    let both =
      tap_or-IsTap (tap_of docked content) (answer_or_simple pending text content)
        (plain-IsTap pending text content) in
    let owns = tap_of-Owns docked content in
    (
      λ h. let (surface, e, o) = owns.0 (both.0 h) in (refl, surface, e, o),
      λ (typed, surface, e, o). both.1 (owns.1 (surface, e, o)),
    )
by_kind voice t c args given id docked pending transcript =
    let content = message_text (message voice t c args given id) transcript in
    neither (plain-IsTap pending voice content) (λ (typed, surface, e, o). cc)
by_kind command t c args given id docked pending transcript =
    let content = message_text (message command t c args given id) transcript in
    neither
      (command-IsTap (given_text c) (get_or args []) (answer_or_simple pending command content)
        (plain-IsTap pending command content))
      (λ (typed, surface, e, o). cc)
by_kind callback t c args given id docked pending transcript =
    let content = message_text (message callback t c args given id) transcript in
    neither
      (callback-IsTap (given_text id) given (answer_or_simple pending callback content)
        (plain-IsTap pending callback content))
      (λ (typed, surface, e, o). cc)

-- Whatever is pending, an update is taken for a keyboard tap exactly where it is typed, a keyboard is
-- docked, and the text is a label of its buttons, "Open Menu", or the name of a member that every
-- object inherits.
pub classify_flow-IsTap :
    (m : NormalizedInboundMessage) (docked : Option KeyboardSurface) (pending : Bool)
    (transcript : Option String)
    → IsTap (classify_flow m docked pending transcript) ↔ Tapped m docked transcript
classify_flow-IsTap m = by_kind m.kind m.text m.command m.command_args m.callback_data m.callback_id
