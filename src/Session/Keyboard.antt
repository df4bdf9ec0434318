-- ===== src/Session/Keyboard.antt =====
-- modules/assistant/reply/reply-keyboard.layout.ts: the reply keyboards and the actions of their
-- labels. A key that a table lacks is looked up in its prototype, as the language does.
use text.Mathlib.Text.{◌==◌ as str_eq}
use cue_api.Common.{String, Option, none, some, List, [], ◌∷◌, if◌then◌else◌}

pub data KeyboardSurface : Type 0 where
  main_surface settings_surface menu_surface : KeyboardSurface

pub data KeyboardAction : Type 0 where
  today_schedule next_week open_settings disconnect back open_menu menu_settings logout close_menu :
      KeyboardAction

-- What a lookup gives: an action of the table, or a member of `Object.prototype`.
pub data FoundAction : Type 0 where
  listed_action : KeyboardAction → FoundAction
  inherited_member : String → FoundAction

abbrev pub today_schedule_label : String
today_schedule_label = "Today's schedule"

abbrev pub next_week_label : String
next_week_label = "Next week"

abbrev pub settings_label : String
settings_label = "Settings"

abbrev pub disconnect_label : String
disconnect_label = "Disconnect"

abbrev pub back_label : String
back_label = "Back"

abbrev pub open_menu_label : String
open_menu_label = "Open Menu"

abbrev pub logout_label : String
logout_label = "Logout"

-- The labels of the buttons of MAIN_KEYBOARD, SETTINGS_KEYBOARD and MENU_KEYBOARD, row after row.
abbrev pub keyboard_labels : KeyboardSurface → List String
keyboard_labels main_surface =
    today_schedule_label ∷ next_week_label ∷ settings_label ∷ open_menu_label ∷ []
keyboard_labels settings_surface = disconnect_label ∷ back_label ∷ []
keyboard_labels menu_surface = settings_label ∷ logout_label ∷ back_label ∷ []

-- The own properties of a table of SURFACE_ACTIONS.
abbrev pub surface_actions : KeyboardSurface → List (String × KeyboardAction)
surface_actions main_surface =
    (today_schedule_label, today_schedule)
    ∷ (next_week_label, next_week)
    ∷ (settings_label, open_settings)
    ∷ (open_menu_label, open_menu)
    ∷ []
surface_actions settings_surface =
    (disconnect_label, disconnect) ∷ (back_label, back) ∷ (open_menu_label, open_menu) ∷ []
surface_actions menu_surface =
    (settings_label, menu_settings)
    ∷ (logout_label, logout)
    ∷ (back_label, close_menu)
    ∷ (open_menu_label, open_menu)
    ∷ []

-- The members of `Object.prototype`, which a table inherits.
abbrev pub object_members : List String
object_members =
    "constructor" ∷ "__defineGetter__" ∷ "__defineSetter__" ∷ "hasOwnProperty" ∷ "__lookupGetter__"
    ∷ "__lookupSetter__" ∷ "isPrototypeOf" ∷ "propertyIsEnumerable" ∷ "toString" ∷ "valueOf"
    ∷ "__proto__" ∷ "toLocaleString" ∷ []

unfoldable pub member_of : List String → String → Option FoundAction
member_of [] label = none
member_of (m ∷ ms) label = if str_eq m label then some (inherited_member m) else member_of ms label

unfoldable pub look_up : List (String × KeyboardAction) → String → Option FoundAction
look_up [] label = member_of object_members label
look_up ((l, action) ∷ rest) label =
    if str_eq l label then some (listed_action action) else look_up rest label

unfoldable pub resolve_keyboard_action : KeyboardSurface → String → Option FoundAction
resolve_keyboard_action surface label = look_up (surface_actions surface) label

-- The flag of the active surface, as it is stored.
pub to_keyboard_surface : Option String → Option KeyboardSurface
to_keyboard_surface none = none
to_keyboard_surface (some value) =
    if str_eq value "main"
    then some main_surface
    else if str_eq value "settings"
    then some settings_surface
    else if str_eq value "menu"
    then some menu_surface
    else none
