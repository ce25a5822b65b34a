-- ===== src/Board/Marks.antt =====
-- The attribute that marks the board as busy, under every interleaving.
use oort.Prelude.{◌≡◌, refl, ◌⊎◌, inl, inr, true, false, none, []}
use oort.Text.{Text}
use oort.Prog.{finally, try_catch, update, Result-cases}
use oort.Prog.Frames.{Frames, Frames-Steady}
use oort.Prog.Machine.{Reach}
use oort.Prog.Quiet.{Rests, Leaves-Rests, Leaves-finally}
use oort.Prog.Marks.{Steady, Reach-rests}
use oort.Board.{Board, Handler, load_tickets, fetch_board, board_failed, load_board, filter_changed}
use oort.Board.Laws.{Starts, loads, chooses, Page, at_rest}

abbrev IsIdle : Board → Type 0
IsIdle b = b.busy ≡ false

load_board-Rests : (missing : Text) (b : Board) → Rests IsIdle (load_board missing) b (IsIdle b)
unfolding load_board
load_board-Rests missing b =
    let body = try_catch (fetch_board missing b) board_failed in
    let reset = update (λ c. record c { busy = false }) in
    let started : Board = record b { problem = none; busy = true } in
    Leaves-Rests IsIdle (finally body reset) started (IsIdle b)
      (Leaves-finally IsIdle body reset started (λ t. refl))

filter_changed-Frames : (value : Text) → Frames IsIdle (filter_changed value)
unfolding filter_changed load_tickets
filter_changed-Frames value = (
  (λ s q. q),
  λ s r. elim (Result-cases r) [
    | inl (t, e) ↦ rw e ((λ s' q. q), tt)
    | inr (f, e) ↦ rw e ((λ s' q. q), tt)
  ],
)

starts_well :
    (missing : Text) (b : Board) (p : Handler)
    → Starts missing b p
    → Rests IsIdle p b (IsIdle b) ⊎ Steady IsIdle p b (IsIdle b)
starts_well missing b _ loads = inl (load_board-Rests missing b)
starts_well missing b _ (chooses value k) = inr (
    Frames-Steady IsIdle (filter_changed value) b (IsIdle b) (λ q. q) (filter_changed-Frames value))

-- If the board starts not busy with no handler waiting, then however its loads and the choices of
-- its filter overlap, and in whatever order the calls are answered: once no handler is waiting, the
-- board is not marked as busy.
pub aria_busy_ends :
    (missing : Text) (b : Board) (m : Page)
    → b.busy ≡ false
    → Reach (Starts missing) (at_rest b) m
    → m.waiting ≡ []
    → m.state.busy ≡ false
aria_busy_ends missing b m q r e =
    Reach-rests IsIdle (Starts missing) (starts_well missing) b m q r e
