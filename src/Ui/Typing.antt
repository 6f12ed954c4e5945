-- ===== src/Ui/Typing.antt =====
-- src/ui/chat_window.cpp with src/application/runtime/runtime.cpp: what is typed comes to the client.
use my_messenger.Prelude.{
  ℕ, suc, ◌+◌, true, false, List, [], ◌∷◌, ◌++◌, append-nil, append_assoc, length, map, some, ◌≡◌,
  refl, sym, ap, ◌∙◌, arith, All,
}
use my_messenger.Prelude.Bytes.{Bytes}
use my_messenger.Prelude.Result.{ok}
use my_messenger.Crypto.{OpenSsl}
use my_messenger.Client.{ClientContext}
use my_messenger.Ui.{QtStrings, Bubble, to_client, Gui, append_bubble, handle_send, process_events}
use my_messenger.Ui.Answers.{
  Obeys, bubble, lines_waiting, IsKept, rounds, process_lines, process_answers,
}

-- What the manual of Qt says of toStdString and fromStdString: they keep what is Unicode text.
pub record IsUnicode (qt : QtStrings) : Type 0 where
  pub kept : (s : qt.QString) → qt.to_std (qt.from_std (qt.to_std s)) ≡ qt.to_std s

module _ (qt : QtStrings) (o : OpenSsl) where
  -- Typing texts into the window and sending each.
  unfoldable pub type_all : List (qt.QString) → Gui qt o → Gui qt o
  type_all [] g = g
  type_all (typed ∷ rest) g = type_all rest (handle_send qt o (record g { input_field = typed }))

  -- What the client is given of a text.
  abbrev pub line_of : qt.QString → Bytes
  line_of typed = qt.to_std (qt.trimmed typed)

  abbrev pub IsText : qt.QString → Type 0
  IsText typed = qt.is_empty (qt.trimmed typed) ≡ false

  abbrev pub own_bubbles : List (qt.QString) → List (Bubble qt)
  own_bubbles texts = map (λ t. bubble qt o true (qt.trimmed t)) texts

  abbrev pub answer_bubbles : List Bytes → List (Bubble qt)
  answer_bubbles answers = map (λ a. bubble qt o false (qt.from_std a)) answers

  abbrev pub left_in_field : List (qt.QString) → qt.QString → qt.QString
  left_in_field [] field = field
  left_in_field (typed ∷ rest) field = qt.from_std []

  still_empty : (texts : List (qt.QString)) → left_in_field texts (qt.from_std []) ≡ qt.from_std []
  still_empty [] = refl
  still_empty (typed ∷ texts) = refl

  handle_send-typed :
      (typed : qt.QString) (h : List (Bubble qt)) (g : Gui qt o)
      → IsText typed
      → g.chat ≡ some h
      → handle_send qt o (record g { input_field = typed }) ≡ record g {
        chat = some (h ++ bubble qt o true (qt.trimmed typed) ∷ []);
        input_field = qt.from_std [];
        queue = g.queue ++ to_client (qt.from_std (line_of typed)) ∷ [];
      }
  unfolding handle_send append_bubble
  handle_send-typed typed h g written there = ground (arith, written, there)

  type_all-queue :
      (texts : List (qt.QString)) (h : List (Bubble qt)) (g : Gui qt o)
      → All IsText texts
      → type_all texts (record g { chat = some h }) ≡ record g {
        chat = some (h ++ own_bubbles texts);
        input_field = left_in_field texts g.input_field;
        queue = g.queue ++ lines_waiting qt o (map line_of texts);
      }
  unfolding type_all
  type_all-queue [] h g written = rw (append-nil h, append-nil g.queue) refl
  type_all-queue (typed ∷ texts) h g (w, written) =
      let b = bubble qt o true (qt.trimmed typed) in
      let call = to_client (qt.from_std (line_of typed)) in
      let g' = record g { chat = some h } in
      let sent = record g { input_field = qt.from_std []; queue = g.queue ++ call ∷ [] } in
      ap (type_all texts) (handle_send-typed typed h g' w refl)
      ∙ type_all-queue texts (h ++ b ∷ []) sent written
      ∙ rw
          (
            append_assoc h (b ∷ []) (own_bubbles texts),
            append_assoc g.queue (call ∷ []) (lines_waiting qt o (map line_of texts)),
            still_empty texts,
          )
          refl

  All-IsKept : IsUnicode qt → (texts : List (qt.QString)) → All (IsKept qt o) (map line_of texts)
  All-IsKept unicode [] = tt
  All-IsKept unicode (typed ∷ texts) = (unicode.kept (qt.trimmed typed), All-IsKept unicode texts)

  rounds_texts :
      (texts : List (qt.QString)) (fuel : ℕ)
      → rounds qt o (map line_of texts) fuel ≡ length texts + fuel
  rounds_texts [] fuel = omega arith
  rounds_texts (typed ∷ texts) fuel = omega (arith, rounds_texts texts fuel)

  -- The chat window is there and nothing waits; texts are typed and sent, each with more than blanks
  -- in it, and each a line that the parser takes when its turn comes. Then the event loop of the window
  -- comes to rest: it has given get_data each line, in their order, the window has a bubble for each
  -- text and after those one for each answer of the client, in the order of the answers, and nothing
  -- waits.
  pub process_events-type_all :
      (texts : List (qt.QString)) (h : List (Bubble qt)) (g : Gui qt o) (c' : ClientContext o)
      (answers : List Bytes)
      → IsUnicode qt
      → All IsText texts
      → g.queue ≡ []
      → Obeys qt o (map line_of texts) g.app c' answers
      → process_events qt o
          (length texts + suc (length answers))
          (type_all texts (record g { chat = some h }))
        ≡ (
          ok tt,
          record g {
            chat = some ((h ++ own_bubbles texts) ++ answer_bubbles answers);
            input_field = left_in_field texts g.input_field;
            queue = [];
            app = c';
          },
        )
  process_events-type_all texts h g c' answers unicode written idle obeys =
      let lines = map line_of texts in
      let typed = record g {
        chat = some (h ++ own_bubbles texts);
        input_field = left_in_field texts g.input_field;
      } in
      rw
        (
          type_all-queue texts h g written,
          idle,
          sym (append-nil (lines_waiting qt o lines)),
          sym (rounds_texts texts (suc (length answers))),
        )
        (process_lines qt o [] (suc (length answers)) typed obeys (All-IsKept unicode texts)
          ∙ process_answers qt o answers (h ++ own_bubbles texts) (record typed { app = c' }))
