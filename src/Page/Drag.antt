-- ===== src/Page/Drag.antt =====
-- The drag-and-drop handlers of pages/index.tsx, and the filters of its list.
use sovereign_jedi.Prelude.{
  ℕ, ◌+◌, ◌-◌, Bool, true, false, List, [], ◌∷◌, Text, text, text_eq, not, any, ◌==◌, ◌||◌,
  if◌then◌else◌,
}
use sovereign_jedi.Json.{Json, str}
use sovereign_jedi.Page.Refresh.{FileItem, shared}
use sovereign_jedi.Page.Upload.{UiFlow, idle, drag_over, loading}

-- `dragCounter` and `uiFlow`
pub record Dragging : Type 0 where
  pub counter : ℕ
  pub flow : UiFlow

-- `prev === 'loading' ? prev : next`
unfoldable pub unless_loading : UiFlow → UiFlow → UiFlow
unless_loading loading f = loading
unless_loading _ f = f

unfoldable pub on_drag_enter : Dragging → Dragging
unfolding unless_loading
on_drag_enter d = record { counter = d.counter + 1; flow = unless_loading d.flow drag_over }

-- `Math.max(0, counter - 1)` is subtraction that stops at 0.
unfoldable pub on_drag_leave : Dragging → Dragging
unfolding unless_loading
on_drag_leave d =
    let counter = d.counter - 1 in
    record { counter = counter; flow = if counter == 0 then unless_loading d.flow idle else d.flow }

pub data FilterKey : Type 0 where
  everything with_me mine project_x invoices : FilterKey

unfoldable pub is_shared : FileItem → Bool
is_shared f = elim f.status [
  | shared ↦ true
  | _ ↦ not (elim f.shared_with [ [] ↦ true | x ∷ xs ↦ false ])
]

-- `to_lower` is `toLowerCase`, `includes` the substring test; a name is a string here.
module _ (to_lower : Text → Text) (includes : Text → Text → Bool) where
  abbrev name_has : Json → Text → Bool
  name_has (str t) s = includes (to_lower t) s
  name_has _ s = false

  unfoldable pub passes : FilterKey → FileItem → Bool
  unfolding is_shared
  passes everything f = true
  passes with_me f = is_shared f
  passes mine f = not (is_shared f)
  passes project_x f = any (text_eq (text "projectX")) f.tags
  passes invoices f = any (text_eq (text "invoices")) f.tags || name_has f.name (text "invoice")

  unfoldable pub filtered : FilterKey → List FileItem → List FileItem
  unfolding passes
  filtered k [] = []
  filtered k (f ∷ fs) = let rest = filtered k fs in if passes k f then f ∷ rest else rest
