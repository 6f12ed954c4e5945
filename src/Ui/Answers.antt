-- ===== src/Ui/Answers.antt =====
-- src/application/runtime/runtime.cpp: what the event loop of the window does with lines and answers
-- that wait.
use my_messenger.Prelude.{
  ℕ, suc, Bool, false, List, [], ◌∷◌, ◌++◌, append-nil, append_assoc, length, drop, map, some, ◌≡◌,
  refl, sym, ap, ◌∙◌, All,
}
use my_messenger.Prelude.Bytes.{Bytes}
use my_messenger.Prelude.Result.{ok}
use my_messenger.Message.{Message}
use my_messenger.Commands.Parser.{parse}
use my_messenger.Crypto.{OpenSsl}
use my_messenger.Client.{ClientContext}
use my_messenger.Client.Dispatch.{get_data, client_dispatch}
use my_messenger.Ui.{
  QtStrings, Bubble, Waiting, to_client, to_window, Gui, post_response, append_bubble,
  update_response, post_all, client_slot, run_slot, process_events,
}

module _ (qt : QtStrings) (o : OpenSsl) where
  -- Each line is well formed, and get_data leads from the one state to the other, with these answers
  -- for the window.
  pub data Obeys : List Bytes → ClientContext o → ClientContext o → List Bytes → Type 0 where
    all_obeyed : {c : ClientContext o} → Obeys [] c c []
    obeyed :
        {line : Bytes} {msg : Message} {lines answers : List Bytes} {c c' : ClientContext o}
        → parse c.now line ≡ ok msg
        → Obeys lines (client_dispatch o msg c).1 c' answers
        → Obeys
            (line ∷ lines)
            c
            c'
            (drop (length c.shown) (client_dispatch o msg c).1.shown ++ answers)

  abbrev pub bubble : Bool → qt.QString → Bubble qt
  bubble outgoing content = record { content = qt.escaped content; outgoing = outgoing }

  abbrev pub waiting_answers : List Bytes → List (Waiting qt)
  waiting_answers answers = map (λ a. to_window (qt.from_std a)) answers

  post_all-queue :
      (answers : List Bytes) (g : Gui qt o)
      → post_all qt o answers g ≡ record g { queue = g.queue ++ waiting_answers answers }
  unfolding post_response
  post_all-queue [] g = ap (λ q. record g { queue = q }) (sym (append-nil g.queue))
  post_all-queue (a ∷ answers) g =
      post_all-queue answers (post_response qt o a g)
      ∙ ap (λ q. record g { queue = q })
          (append_assoc g.queue (to_window (qt.from_std a) ∷ []) (waiting_answers answers))

  -- What one line makes of the client.
  abbrev pub after_line : Message → Gui qt o → Gui qt o
  after_line msg g = record g { app = (client_dispatch o msg g.app).1 }

  abbrev pub new_answers : Message → ClientContext o → List Bytes
  new_answers msg c = drop (length c.shown) (client_dispatch o msg c).1.shown

  pub client_slot-line :
      (typed : qt.QString) (line : Bytes) (msg : Message) (g : Gui qt o)
      → qt.to_std typed ≡ line
      → parse g.app.now line ≡ ok msg
      → client_slot qt o typed g ≡ (
        ok tt,
        record (after_line msg g) { queue = g.queue ++ waiting_answers (new_answers msg g.app) },
      )
  unfolding client_slot get_data
  client_slot-line typed line msg g same read = rw (same) (
      rw (read, get_data)
        (ap (λ x. (ok tt, x)) (post_all-queue (new_answers msg g.app) (after_line msg g))))

  abbrev pub lines_waiting : List Bytes → List (Waiting qt)
  lines_waiting lines = map (λ l. to_client (qt.from_std l)) lines

  map-append :
      (xs ys : List Bytes) → waiting_answers (xs ++ ys) ≡ waiting_answers xs ++ waiting_answers ys
  map-append [] ys = refl
  map-append (x ∷ xs) ys = ap (λ l. to_window (qt.from_std x) ∷ l) (map-append xs ys)

  abbrev pub IsKept : Bytes → Type 0
  IsKept line = qt.to_std (qt.from_std line) ≡ line

  -- One round for each line, then those that are left.
  abbrev pub rounds : List Bytes → ℕ → ℕ
  rounds [] fuel = fuel
  rounds (line ∷ lines) fuel = suc (rounds lines fuel)

  pub process_lines :
      {lines answers : List Bytes} {c c' : ClientContext o} (pending : List Bytes) (fuel : ℕ)
      (g : Gui qt o)
      → Obeys lines c c' answers
      → All IsKept lines
      → process_events qt o
          (rounds lines fuel)
          (record g { app = c; queue = lines_waiting lines ++ waiting_answers pending })
        ≡ process_events qt o fuel
            (record g { app = c'; queue = waiting_answers (pending ++ answers) })
  unfolding process_events run_slot
  process_lines {c = c} pending fuel g all_obeyed kept =
      ap (λ l. process_events qt o fuel (record g { app = c; queue = waiting_answers l }))
        (sym (append-nil pending))
  process_lines pending fuel g (obeyed {line} {msg} {lines} {answers} {c} {c'} read later)
        (k, kept) =
      let g' = record g { app = c; queue = lines_waiting lines ++ waiting_answers pending } in
      let new = new_answers msg c in
      rw (client_slot-line (qt.from_std line) line msg g' k read) (
        ap (λ q. process_events qt o (rounds lines fuel) (record (after_line msg g') { queue = q }))
          (append_assoc (lines_waiting lines) (waiting_answers pending) (waiting_answers new)
            ∙ ap (λ q. lines_waiting lines ++ q) (sym (map-append pending new)))
        ∙ process_lines (pending ++ new) fuel g later kept
        ∙ ap (λ l. process_events qt o fuel (record g { app = c'; queue = waiting_answers l }))
            (append_assoc pending new answers))

  pub process_answers :
      (answers : List Bytes) (h : List (Bubble qt)) (g : Gui qt o)
      → process_events qt o
          (suc (length answers))
          (record g { chat = some h; queue = waiting_answers answers })
        ≡ (
          ok tt,
          record g {
            chat = some (h ++ map (λ a. bubble false (qt.from_std a)) answers);
            queue = [];
          },
        )
  unfolding process_events run_slot update_response append_bubble
  process_answers [] h g =
      ap (λ l. (ok tt, record g { chat = some l; queue = [] })) (sym (append-nil h))
  process_answers (a ∷ answers) h g =
      let b = bubble false (qt.from_std a) in
      process_answers answers (h ++ b ∷ []) g
      ∙ ap (λ l. (ok tt, record g { chat = some l; queue = [] }))
          (append_assoc h (b ∷ []) (map (λ a. bubble false (qt.from_std a)) answers))
