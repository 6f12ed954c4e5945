-- ===== src/Ui.antt =====
-- The windows of src/ui/chat_window.cpp and src/ui/login_window.cpp with the bridge of
-- src/include/application/messaging/message_bridge.hpp, connected as start_gui_client of
-- src/application/runtime/runtime.cpp does. Layout, styles and timestamps are left out.
pub mod Answers
pub mod Typing
pub mod Login
use my_messenger.Prelude.{
  ℕ, zero, suc, Bool, true, false, List, [], ◌∷◌, ◌++◌, length, drop, map, Option, none, some,
}
use my_messenger.Prelude.Bytes.{Bytes, codes}
use my_messenger.Prelude.Result.{Result, ok, err}
use my_messenger.Prelude.Exec.{Exec, ◌>>◌}
use my_messenger.Failure.{Failure, out_of_fuel}
use my_messenger.Crypto.{OpenSsl}
use my_messenger.Client.{ClientContext}
use my_messenger.Client.Dispatch.{get_data}

-- The strings of Qt and the calls on them.
pub record QtStrings : Type 1 where
  pub QString : Type 0
  -- toStdString and fromStdString
  pub to_std : QString → Bytes
  pub from_std : Bytes → QString
  pub trimmed : QString → QString
  pub is_empty : QString → Bool
  -- toHtmlEscaped
  pub escaped : QString → QString
  -- the + of a literal in front, and one behind
  pub prefixed : Bytes → QString → QString
  pub suffixed : QString → Bytes → QString

-- A bubble of the history, and whether it is one of the user's own.
pub record Bubble (qt : QtStrings) : Type 0 where
  pub content : qt.QString
  pub outgoing : Bool

-- A call that waits in the queue of the GUI thread, of a slot of sendToClient or responseReceived.
pub data Waiting (qt : QtStrings) : Type 0 where
  to_client : qt.QString → Waiting qt
  to_window : qt.QString → Waiting qt

-- `chat` is the history of the chat window, if there is one, `login_open` whether the login window
-- is, and `status` what that says.
pub record Gui (qt : QtStrings) (o : OpenSsl) : Type 0 where
  pub login_open : Bool
  pub status : Bytes
  pub chat : Option (List (Bubble qt))
  pub input_field : qt.QString
  pub queue : List (Waiting qt)
  pub app : ClientContext o

module _ (qt : QtStrings) (o : OpenSsl) where
  abbrev pub emit : Waiting qt → Gui qt o → Gui qt o
  emit call g = record g { queue = g.queue ++ call ∷ [] }

  -- MessageBridge::postResponse, which is also what ui_callback does.
  unfoldable pub post_response : Bytes → Gui qt o → Gui qt o
  post_response answer g = emit (to_window (qt.from_std answer)) g

  -- appendBubble of the chat window that is there; the label shows the escaped text.
  unfoldable pub append_bubble : qt.QString → Bool → Gui qt o → Gui qt o
  append_bubble content outgoing g = elim g.chat [
    | none ↦ g
    | some history ↦ record g {
      chat = some (history ++ record { content = qt.escaped content; outgoing = outgoing } ∷ []);
    }
  ]

  -- ChatWindow::updateResponse
  unfoldable pub update_response : qt.QString → Gui qt o → Gui qt o
  update_response answer g = append_bubble answer false g

  -- ChatWindow::handleSend with the slot of sendMessage.
  unfoldable pub handle_send : Gui qt o → Gui qt o
  handle_send g =
      let content = qt.trimmed g.input_field in
      elim (qt.is_empty content) [
        | true ↦ g
        | false ↦
            record (emit (to_client (qt.from_std (qt.to_std content)))
              (append_bubble content true g)) { input_field = qt.from_std [] }
      ]

  -- The slot of loginSuccess: a new chat window, and the command.
  unfoldable pub login_success : qt.QString → Gui qt o → Gui qt o
  login_success nickname g = emit (to_client (qt.prefixed (codes "/login ") nickname)) (
      append_bubble (qt.suffixed (qt.prefixed (codes "Welcome, ") nickname) (codes "!")) false
        (record g { chat = some []; input_field = qt.from_std [] }))

  -- LoginWindow::handleLogin for what is typed there.
  unfoldable pub handle_login : qt.QString → Gui qt o → Gui qt o
  handle_login typed g =
      let nickname = qt.trimmed typed in
      elim (qt.is_empty nickname) [
        | true ↦ record g { status = codes "Nickname cannot be empty" }
        | false ↦ record (login_success nickname g) { login_open = false }
      ]

  -- What the application gave to ui_callback, posted in its order.
  abbrev pub post_all : List Bytes → Gui qt o → Gui qt o
  post_all [] g = g
  post_all (answer ∷ answers) g = post_all answers (post_response answer g)

  -- A call of get_data; an exception leaves the slot.
  unfoldable pub client_slot : qt.QString → Exec (Gui qt o) Failure (Unit {0})
  client_slot typed g =
      let (r, app) = get_data o (qt.to_std typed) g.app in
      (r, post_all (drop (length g.app.shown) app.shown) (record g { app = app }))

  unfoldable pub run_slot : Waiting qt → Exec (Gui qt o) Failure (Unit {0})
  run_slot (to_client typed) g = client_slot typed g
  run_slot (to_window answer) g = (ok tt, update_response answer g)

  -- The event loop of Qt, until its queue is empty.
  unfoldable pub process_events : ℕ → Exec (Gui qt o) Failure (Unit {0})
  process_events zero g = (err out_of_fuel, g)
  process_events (suc fuel) g = elim g.queue [
    | [] ↦ (ok tt, g)
    | call ∷ rest ↦ (run_slot call >> process_events fuel) (record g { queue = rest })
  ]
