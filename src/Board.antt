-- ===== src/Board.antt =====
-- examples/support-operations/dist/main.js: the example app, a board of support tickets. The state
-- holds the records that each part of the page was last rendered from; the child View has what is
-- rendered from them. A query's columns are taken to hold what the board formats.
pub mod Laws
pub mod Marks
pub mod View
use oort.Prelude.{
  ℕ, zero, suc, ◌+◌, ◌-◌, ◌*◌, ◌/◌, ◌%◌, ◌^◌, ◌≤◌, ◌<◌, ◌≡◌, refl, sym, ap, ◌∙◌, ◌≢◌, ◌↔◌, ◌⊎◌, inl,
  inr, Bool, true, false, not, ◌&&◌, ◌||◌, Option, none, some, List, [], ◌∷◌, ◌++◌, map,
  append_assoc, append-nil, arith, ltb, leb, ◌==◌, if◌then◌else◌, ==_iff, ltb→lt, Bool-cases,
  Option-cases, length, take, head?, find, filter, any, all, length-append, length-take, All,
  All-append,
}
use oort.Text.{Text, lit, text_eq}
use oort.Json.{Json, number, string, object, fields_of, number_json, to_number, to_string}
use oort.Prog.{Prog, read, ◌>>=◌, ◌>>◌, update, call, try_catch, finally, throw}

-- the result of a query: the names of its columns, and its rows
pub record Table : Type 0 where
  pub columns : List Text
  pub rows : List (List Json)

-- An object by its entries, of which the last of a name counts; a value may be `undefined`.
abbrev pub Entries : Type 0
Entries = List (Text × Option Json)

abbrev pub entries_of : List Text → List Json → Entries
entries_of [] row = []
entries_of (c ∷ cs) [] = (c, none) ∷ entries_of cs []
entries_of (c ∷ cs) (v ∷ row) = (c, some v) ∷ entries_of cs row

unfoldable pub records : Table → List Entries
records t = map (λ row. entries_of t.columns row) t.rows

unfoldable pub value_at : Text → Entries → Option Json
value_at k [] = none
value_at k ((j, v) ∷ r) =
    let later = value_at k r in
    if any (λ e. text_eq e.0 k) r then later else if text_eq j k then v else none

pub data Call : Type 0 where
  query : Text → Json → Call
  -- `Promise.all`
  three : Call → Call → Call → Call

abbrev pub Answer : Call → Type 0
Answer (query _ _) = Table
Answer (three a b c) = Answer a × Answer b × Answer c

pub record Board : Type 0 where
  -- the values of the two select elements, and the options of the second
  pub window : Text
  pub queue_filter : Text
  pub options : List Text
  pub summary : Option Entries
  pub queues : List Entries
  pub volume : List Entries
  pub issues : List Entries
  -- the message that is shown, and the attribute `aria-busy`
  pub problem : Option Text
  pub busy : Bool

-- A handler; an error is its message.
abbrev pub Handler : Type 0
Handler = Prog Call Answer Text Board (Unit {0})

abbrev text_of : Option Json → Text
text_of none = lit "undefined"
text_of (some v) = to_string v

unfoldable pub queue_name : Entries → Text
unfolding value_at
queue_name q = text_of (value_at (lit "queue") q)

abbrev pub options_of : List Entries → List Text
options_of queues = lit "all" ∷ map queue_name queues

unfoldable pub retained : Text → List Text → Text
retained selected options = if any (text_eq selected) options then selected else lit "all"

-- `renderQueues`: the table, and the options of the filter, which keeps its value if it can.
unfoldable pub render_queues : List Entries → Board → Board
unfolding retained
render_queues queues b = record b {
  queues = queues;
  options = options_of queues;
  queue_filter = retained b.queue_filter (options_of queues);
}

abbrev pub days_of : Board → Json
days_of b = number_json (to_number b.window)

abbrev pub tickets_query : Board → Call
tickets_query b = query (lit "priority-backlog") (
    object (
      fields_of (
        (lit "days", some (days_of b))
        ∷ (lit "queue", some (string b.queue_filter))
        ∷ (lit "limit", some (number (lit "50")))
        ∷ [])))

-- `loadTickets`
unfoldable pub load_tickets : Handler
load_tickets =
    read λ b. do result ← call (tickets_query b); update (λ c. record c { issues = records result })

abbrev board_query : Text → Board → Call
board_query name b = query name (object (fields_of ((lit "days", some (days_of b)) ∷ [])))

abbrev pub board_queries : Board → Call
board_queries b =
    three (board_query (lit "ops-summary") b) (board_query (lit "team-health") b)
      (board_query (lit "ticket-volume") b)

abbrev failed : Text → Text → Text → Handler
failed before message after =
    update (λ b. record b { problem = some (before ++ (message ++ after)) })

-- `renderSummary(records(result)[0])`; without a row the browser throws `missing`.
abbrev pub render_summary : Text → List Entries → Handler
render_summary missing [] = throw missing
render_summary missing (row ∷ rows) = update (λ b. record b { summary = some row })

-- the `try` block of `loadBoard`, for the board as it was when the load started
unfoldable pub fetch_board : Text → Board → Handler
unfolding load_tickets
fetch_board missing start = do
  (summary, teams, volume) ← call (board_queries start)
  render_summary missing (records summary)
  update (render_queues (records teams))
  update (λ b. record b { volume = records volume })
  load_tickets

abbrev pub board_failed : Text → Handler
board_failed e =
    failed (lit "The operations board could not load. ") e
      (lit " Check that both datasets have a published snapshot.")

-- `loadBoard`
unfoldable pub load_board : Text → Handler
unfolding fetch_board
load_board missing = read λ start.
    update (λ b. record b { problem = none; busy = true })
    >> finally (try_catch (fetch_board missing start) board_failed)
        (update (λ b. record b { busy = false }))

-- The filter is changed to `value`.
unfoldable pub filter_changed : Text → Handler
unfolding load_tickets
filter_changed value =
    update (λ b. record b { queue_filter = value })
    >> try_catch load_tickets (λ e. failed (lit "The backlog could not load. ") e [])
