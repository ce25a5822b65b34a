-- ===== src/Board/View.antt =====
-- examples/support-operations/dist/main.js: what the board renders from its records: cells, bars, pills
-- and the options of the filter. Its numbers are those of a parameter, double-precision in a browser.
use oort.Prelude.{Bool, true, false, Option, none, some, List, [], ◌∷◌, ◌++◌, if◌then◌else◌}
use oort.Text.{Text, lit}
use oort.Text.Walk.{starts_with, replace_all}
use oort.Json.{Json, null, to_string, is_truthy}
use oort.View.{Html, el, attr, words, nothing, ◌<>◌, each}
use oort.Board.{Entries, value_at, text_of}

-- `Number`, `Math` and the formats of the locale
pub record Numerics : Type 1 where
  pub Double : Type 0
  pub of : Option Json → Double
  pub one : Double
  pub hundred : Double
  pub least : Double → Double → Double
  pub greatest : Double → Double → Double
  pub times : Double → Double → Double
  pub over : Double → Double → Double
  pub round : Double → Double
  -- `String` and `toLocaleString` of a number
  pub text : Double → Text
  pub local : Double → Text
  -- `toUpperCase`
  pub upper : Text → Text

-- `== null`
abbrev is_missing : Option Json → Bool
is_missing none = true
is_missing (some null) = true
is_missing (some _) = false

-- `textContent = value`
abbrev content : Option Json → Text
content none = []
content (some null) = []
content (some v) = to_string v

abbrev truthy : Option Json → Bool
truthy none = false
truthy (some v) = is_truthy v

abbrev dash : Text
dash = 0x2014 ∷ []

module _ {E : Type 0} where
  -- `cell`: every caller gives a text
  unfoldable pub cell : Text → Text → Html E
  cell text [] = el "td" [] (words text)
  cell text (c ∷ s) = el "td" (attr "class" (c ∷ s) ∷ []) (words text)

  -- `labelledCell`; the link opens in a window of its own
  unfoldable pub labelled_cell : Text → Option Json → Option Json → Html E
  unfolding starts_with
  labelled_cell primary secondary href =
      let ticket = starts_with primary (lit "#") in
      let small = if ticket then lit "ticket-title" else lit "team-lead" in
      el "td" [] (
        el "span" (attr "class" (if ticket then lit "ticket-id" else lit "team-name") ∷ [])
          (words primary)
        <> (if truthy href
            then el "a"
                (attr "class" small
                  ∷ attr "href" (text_of href)
                  ∷ attr "target" (lit "_blank")
                  ∷ attr "rel" (lit "noopener")
                  ∷ [])
                (words (content secondary))
            else el "span" (attr "class" small ∷ []) (words (content secondary))))

  -- `pill`
  unfoldable pub pill : Text → Html E
  unfolding replace_all
  pill value =
      el "span" (attr "class" (lit "pill " ++ replace_all 95 (lit "-") value) ∷ [])
        (words (replace_all 95 (lit " ") value))

-- the texts that `renderSummary` sets
pub record Summary : Type 0 where
  pub snapshot : Text
  pub backlog : Text
  pub overdue : Text
  pub age : Text
  pub comments : Text

module _ (n : Numerics) where
  -- `value.toLocaleString()`
  abbrev local_text : Option Json → Text
  local_text v = n.local (n.of v)

  unfoldable pub summary_texts : Entries → Summary
  unfolding value_at
  summary_texts s =
      let age = value_at (lit "median_open_age") s in
      let comments = value_at (lit "open_comments") s in
      record {
        snapshot =
            lit "Dataset snapshot " ++ (183 ∷ 32 ∷ text_of (value_at (lit "snapshot_label") s));
        backlog = local_text (value_at (lit "active_backlog") s);
        overdue = local_text (value_at (lit "overdue") s);
        age = if is_missing age then dash else n.local (n.round (n.of age));
        comments = if is_missing comments then lit "0" else local_text comments;
      }

  -- the label of a queue
  abbrev capitalised : Text → Text
  capitalised [] = []
  capitalised (c ∷ s) = n.upper (c ∷ []) ++ s

  -- `Math.max(1, ...volume.map(day => Number(day.opened)))`
  unfoldable pub maximum : List Entries → n.Double
  unfolding value_at
  maximum [] = n.one
  maximum (day ∷ days) = n.greatest (n.of (value_at (lit "opened") day)) (maximum days)

module _ (n : Numerics) {E : Type 0} where
  -- a row of the table in `renderQueues`
  unfoldable pub queue_row : Entries → Html E
  unfolding value_at cell labelled_cell
  queue_row q =
      let age = value_at (lit "average_age_hours") q in
      let overdue = value_at (lit "overdue") q in
      let load = value_at (lit "capacity_load") q in
      el "tr" [] (
        labelled_cell (text_of (value_at (lit "queue") q)) (value_at (lit "owner") q) none
        <> cell (local_text n (value_at (lit "backlog") q)) []
        <> cell (local_text n overdue) (if truthy overdue then lit "bad-number" else [])
        <> cell (if is_missing age then dash else text_of age ++ lit "h") []
        <> el "td" [] (
            el "span" (attr "class" (lit "load-track") ∷ []) (
              el "i" (attr "width" (n.text (n.least (n.of load) n.hundred) ++ lit "%") ∷ [])
                nothing)
            <> words (text_of load ++ lit "%")))

  unfoldable pub queue_rows : List Entries → Html E
  queue_rows queues = each queue_row queues

  -- the options of the filter, as `new Option(label, value)`
  unfoldable pub filter_options : List Text → Html E
  filter_options names =
      el "option" (attr "value" (lit "all") ∷ []) (words (lit "All queues"))
      <> each (λ name. el "option" (attr "value" name ∷ []) (words (capitalised n name))) names

  abbrev bar : Text → Option Json → n.Double → Html E
  bar class_name count most =
      el "i"
        (attr "class" class_name
          ∷ attr "width" (n.text (n.over (n.times n.hundred (n.of count)) most) ++ lit "%")
          ∷ [])
        nothing

  -- a row of `renderVolume`
  unfoldable pub volume_row : n.Double → Entries → Html E
  unfolding value_at
  volume_row most d =
      let day = text_of (value_at (lit "day") d) in
      let opened = value_at (lit "opened") d in
      let closed = value_at (lit "closed") d in
      el "div"
        (attr "class" (lit "volume-row")
          ∷ attr "aria-label" (
              day
              ++ (lit ": "
                  ++ (text_of opened ++ (lit " opened, " ++ (text_of closed ++ lit " closed")))))
          ∷ [])
        (words day
          <> el "span" (attr "class" (lit "bars") ∷ [])
              (bar (lit "bar created") opened most <> bar (lit "bar resolved") closed most)
          <> words (text_of opened))

  unfoldable pub volume_rows : List Entries → Html E
  volume_rows volume = each (volume_row (maximum n volume)) volume

  -- a row of `renderIssues`
  unfoldable pub issue_row : Entries → Html E
  unfolding value_at labelled_cell cell pill
  issue_row i =
      let at : Text → Option Json = λ k. value_at k i in
      el "tr" [] (
        labelled_cell (35 ∷ text_of (at (lit "number"))) (at (lit "title")) (at (lit "html_url"))
        <> labelled_cell (text_of (at (lit "queue"))) (at (lit "assignee")) none
        <> el "td" [] (pill (text_of (at (lit "activity"))))
        <> cell (local_text n (at (lit "comments"))) []
        <> cell (text_of (at (lit "age_hours")) ++ lit "h") []
        <> el "td" [] (pill (text_of (at (lit "sla_state")))))

  -- `renderIssues`, with the element that is shown when there are no rows
  unfoldable pub issue_rows : List Entries → Html E
  issue_rows issues = each issue_row issues

abbrev pub hides_empty : List Entries → Bool
hides_empty [] = false
hides_empty (_ ∷ _) = true
