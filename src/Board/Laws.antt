-- ===== src/Board/Laws.antt =====
-- The board under every interleaving of its loads and of changes of its filter.
use oort.Prelude.{
  ◌≡◌, refl, ◌⊎◌, inl, inr, Bool, true, false, List, [], ◌∷◌, map, if◌then◌else◌, any,
}
use oort.Text.{Text, lit, text_eq, text_eq_iff}
use oort.Prog.{ok, Result-cases}
use oort.Prog.Machine.{Machine, Reach, Keeps, Reach-IsKept}
use oort.Prog.Trace.{Event, started, answered, Trace, done, starts, answers}
use oort.Board.{
  queue_name, Board, Table, Call, Answer, Handler, records, retained, render_queues, load_tickets,
  load_board, fetch_board, filter_changed, tickets_query,
}

-- What may start: a submission of the form, or a choice among the options of the filter.
pub data Starts (missing : Text) (b : Board) : Handler → Type 0 where
  loads : Starts missing b (load_board missing)
  chooses :
      (value : Text)
      → any (text_eq value) b.options ≡ true
      → Starts missing b (filter_changed value)

-- The filter has the value of one of its options.
abbrev pub IsOption : Board → Type 0
IsOption b = any (text_eq b.queue_filter) b.options ≡ true

kept_or_all :
    (selected : Text) (rest : List Text) (b : Bool)
    → any (text_eq selected) (lit "all" ∷ rest) ≡ b
    → any (text_eq (if b then selected else lit "all")) (lit "all" ∷ rest) ≡ true
kept_or_all selected rest true e = e
kept_or_all selected rest false e =
    let same : text_eq (lit "all") (lit "all") ≡ true =
      (text_eq_iff (lit "all") (lit "all")).1 refl in
    rw same refl

retained-any :
    (selected : Text) (rest : List Text)
    → any (text_eq (retained selected (lit "all" ∷ rest))) (lit "all" ∷ rest) ≡ true
unfolding retained
retained-any selected rest = kept_or_all selected rest _ refl

List-cases : {A : Type 0} (xs : List A) → (xs ≡ []) ⊎ ((y : A) × (ys : List A) × (xs ≡ y ∷ ys))
List-cases [] = inl refl
List-cases (y ∷ ys) = inr (y, ys, refl)

load_board-Keeps : (missing : Text) (b : Board) → IsOption b → Keeps IsOption (load_board missing) b
unfolding load_board fetch_board load_tickets render_queues
load_board-Keeps missing b h = (
  h,
  λ r c q. elim (Result-cases r) [
    | inr (f, e) ↦ rw e q
    | inl ((summary, teams, volume), e) ↦ rw e (elim (List-cases (records summary)) [
      | inl n ↦ rw n q
      | inr (row, rows, n) ↦ rw n (
        retained-any c.queue_filter (map queue_name (records teams)),
        λ r' c' q'. elim (Result-cases r') [ inl (t, e') ↦ rw e' q' | inr (f, e') ↦ rw e' q' ],
      )
    ])
  ],
)

filter_changed-Keeps :
    (value : Text) (b : Board)
    → any (text_eq value) b.options ≡ true
    → Keeps IsOption (filter_changed value) b
unfolding filter_changed load_tickets
filter_changed-Keeps value b h =
    (h, λ r c q. elim (Result-cases r) [ inl (t, e) ↦ rw e q | inr (f, e) ↦ rw e q ])

Starts-Keeps :
    (missing : Text) (b : Board) (p : Handler)
    → IsOption b
    → Starts missing b p
    → Keeps IsOption p b
Starts-Keeps missing b _ h loads = load_board-Keeps missing b h
Starts-Keeps missing b _ h (chooses value k) = filter_changed-Keeps value b k

abbrev pub Page : Type 0
Page = Machine Call Answer Text Board (Unit {0})

abbrev pub at_rest : Board → Page
at_rest b = record { state = b; waiting = [] }

-- If the filter has the value of one of its options at the start, then however loads of the board
-- and choices among the options overlap, and in whatever order the answers come, the filter has the
-- value of one of its options, also after the options were replaced.
pub queue_filter_listed :
    (missing : Text) (b : Board) (m : Page)
    → any (text_eq b.queue_filter) b.options ≡ true
    → Reach (Starts missing) (at_rest b) m
    → any (text_eq m.state.queue_filter) m.state.options ≡ true
queue_filter_listed missing b m h r =
    let v =
      Reach-IsKept IsOption (Starts missing) (Starts-Keeps missing)
        (record { holds = h; ready = tt }) r in
    v.holds

-- The filter is set to `x` and then to `y`, and the calls are answered in the opposite order.
abbrev pub crossed_choices :
    Board → Text → Text → Table → Table → List (Event Call Answer Text Board (Unit {0}))
crossed_choices b x y of_x of_y =
    started (filter_changed x)
    ∷ started (filter_changed y)
    ∷ answered (tickets_query (record b { queue_filter = y })) (ok of_y)
    ∷ answered (tickets_query (record b { queue_filter = x })) (ok of_x)
    ∷ []

-- For any two options of the filter: it is set to the first, then to the second, the query for the
-- tickets of the second is answered, and after it that for the tickets of the first. These events,
-- in this order, lead to a state with no handler waiting in which the filter has the second option
-- and the tickets of the first are shown.
pub stale_tickets :
    (missing : Text) (b : Board) (x y : Text) (of_x of_y : Table)
    → any (text_eq x) b.options ≡ true
    → any (text_eq y) b.options ≡ true
    → (m : Page) × Trace (Starts missing) (at_rest b) (crossed_choices b x y of_x of_y) m
      × (m.state.queue_filter ≡ y)
      × (m.state.issues ≡ records of_x)
      × (m.waiting ≡ [])
unfolding filter_changed load_tickets
stale_tickets missing b x y of_x of_y hx hy = (
  _,
  starts _ (chooses x hx) (
      starts _ (chooses y hy)
        (answers (_ ∷ []) [] _ _ (ok of_y) refl (answers [] [] _ _ (ok of_x) refl done))),
  refl,
  refl,
  refl,
)
