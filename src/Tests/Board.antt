-- ===== src/Tests/Board.antt =====
-- The board of the example app.
use oort.Prelude.{◌≡◌, refl, true, false, none, [], ◌∷◌, any}
use oort.Text.{Text, lit, text_eq}
use oort.Json.{string}
use oort.Prog.{ok}
use oort.Prog.Machine.{Reach, here, next, begin, reply}
use oort.Board.{Board, Table, records, load_tickets, filter_changed}
use oort.Prog.Trace.{Trace}
use oort.Board.Laws.{
  crossed_choices, Starts, chooses, Page, at_rest, queue_filter_listed, stale_tickets,
}

abbrev board : Board
board = record {
  window = lit "30";
  queue_filter = lit "all";
  options = lit "all" ∷ lit "billing" ∷ lit "access" ∷ [];
  summary = none;
  queues = [];
  volume = [];
  issues = [];
  problem = none;
  busy = false;
}

abbrev ticket : Text → Table
ticket queue = record {
  columns = lit "number" ∷ lit "queue" ∷ [];
  rows = (string (lit "7") ∷ string queue ∷ []) ∷ [];
}

abbrev missing : Text
missing = lit "undefined has no properties"

billing_listed : any (text_eq (lit "billing")) board.options ≡ true
unfolding lit text_eq
billing_listed = refl

access_listed : any (text_eq (lit "access")) board.options ≡ true
unfolding lit text_eq
access_listed = refl

all_listed : any (text_eq (lit "all")) board.options ≡ true
unfolding lit text_eq
all_listed = refl

abbrev filtered : Board
filtered = record board { queue_filter = lit "billing"; issues = records (ticket (lit "billing")) }

filtering : Reach (Starts missing) (at_rest board) (at_rest filtered)
unfolding filter_changed load_tickets
filtering =
    next (next here (begin _ (chooses (lit "billing") billing_listed)))
      (reply [] [] _ _ (ok (ticket (lit "billing"))) refl)

queue_filter_listed_example : any (text_eq filtered.queue_filter) filtered.options ≡ true
queue_filter_listed_example =
    queue_filter_listed missing board (at_rest filtered) all_listed filtering

stale_tickets_example :
    (m : Page) × Trace
      (Starts missing)
      (at_rest board)
      (crossed_choices board
        (lit "billing")
        (lit "access")
        (ticket (lit "billing"))
        (ticket (lit "access")))
      m
    × (m.state.queue_filter ≡ lit "access")
    × (m.state.issues ≡ records (ticket (lit "billing")))
    × (m.waiting ≡ [])
stale_tickets_example =
    stale_tickets missing board (lit "billing") (lit "access") (ticket (lit "billing"))
      (ticket (lit "access")) billing_listed access_listed
