-- ===== src/AppState/Console.antt =====
-- The console form: what the GUI edits and what the transport owns.
use watchlist.Prelude.{List, [], ◌∷◌, ◌≡◌, refl}
use watchlist.AppState.{AppState, ConsoleState, update_console_form}

-- The form that was written last, or the one before them all.
abbrev pub last_form : ConsoleState → List ConsoleState → ConsoleState
last_form form [] = form
last_form form (next ∷ forms) = last_form next forms

module _ {H : Type 0} where
  -- The GUI writes its form once a frame.
  unfoldable pub update_forms : List ConsoleState → AppState H → AppState H
  update_forms [] s = s
  update_forms (form ∷ forms) s = update_forms forms (update_console_form form s)

  -- After any number of form updates the connection status is the one that the transport left, every
  -- editable field is that of the last form, and the rest of the state is unchanged.
  pub update_forms-console :
      (form : ConsoleState) (forms : List ConsoleState) (s : AppState H)
      → update_forms (form ∷ forms) s ≡ record s {
        console = record (last_form form forms) { connection_status = s.console.connection_status };
      }
  unfolding update_forms update_console_form
  update_forms-console form [] s = refl
  update_forms-console form (next ∷ forms) s =
      update_forms-console next forms (update_console_form form s)
