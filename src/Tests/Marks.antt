-- ===== src/Tests/Marks.antt =====
-- Pages at rest after a handler has ended.
use oort.Prelude.{◌≡◌, refl, Bool, true, false, none, some, [], ◌∷◌, ◌++◌}
use oort.Text.{Text, lit}
use oort.Api.{Failure, other_error}
use oort.Prog.{ok, err}
use oort.Prog.Machine.{Reach, here, next, begin, reply}
use oort.Toast.{fine, error, push}
use oort.World.{World, confirmed}
use oort.Board.{Board, load_board, fetch_board}
use oort.Board.Laws.{Starts as BoardStarts, loads, at_rest}
use oort.Board.Marks.{aria_busy_ends}
use oort.Connectors.{ConnectorsPage, sync, while_busy, load}
use oort.Connectors.Marks.{Starts as ConnectorsStarts, syncs, busy_ends}
use oort.Apps.{AppsPage, closed, roll_back, while_rolling_back}
use oort.Apps.Marks.{Starts as AppsStarts, rolls_back, marks_end}
use oort.Datasets.{DatasetsPage, remove, while_deleting}
use oort.Datasets.Marks.{Starts as DatasetsStarts, removes, deleting_ends}
use oort.Tests.Data.{job, dashboard, connector, world}

abbrev yes : Text → Bool
yes question = true

abbrev refusal : Failure
refusal = other_error (lit "refused")

abbrev connectors : World ConnectorsPage
connectors = world (record { connectors = []; busy = []; editing = none })

abbrev synced : World ConnectorsPage
synced = record connectors {
  page = record connectors.page { connectors = connector ∷ [] };
  toasts =
      push (lit "Sync queued") (connector.slug ++ lit " will publish atomically when it succeeds.")
        fine connectors.toasts;
}

syncing :
    Reach
      (ConnectorsStarts (lit "acme") yes)
      (record { state = connectors; waiting = [] })
      (record { state = synced; waiting = [] })
unfolding sync while_busy load
syncing =
    next (next (next here (begin _ (syncs connector))) (reply [] [] _ _ (ok (job (lit "j1"))) refl))
      (reply [] [] _ _ (ok (connector ∷ [])) refl)

busy_ends_example : synced.page.busy ≡ []
busy_ends_example =
    busy_ends (lit "acme") yes connectors (record { state = synced; waiting = [] }) refl syncing
      refl

abbrev apps : World AppsPage
apps = world (record { rolling_back = []; deleting = []; popup = closed; location = none })

abbrev not_restored : World AppsPage
not_restored = record apps {
  toasts = push (lit "Rollback failed") (lit "refused") error apps.toasts;
}

restoring :
    Reach
      (AppsStarts yes)
      (record { state = apps; waiting = [] })
      (record { state = not_restored; waiting = [] })
unfolding roll_back confirmed while_rolling_back
restoring =
    next (next here (begin _ (rolls_back dashboard (lit "d1") (lit "board") 2 refl)))
      (reply [] [] _ _ (err refusal) refl)

marks_end_example : (not_restored.page.rolling_back ≡ []) × (not_restored.page.deleting ≡ [])
marks_end_example =
    marks_end yes apps (record { state = not_restored; waiting = [] }) refl refl restoring refl

abbrev datasets : World DatasetsPage
datasets = world (record {
  replacing = [];
  deleting = [];
  form = record { instance_id = 0; slug = []; busy = false };
})

abbrev not_deleted : World DatasetsPage
not_deleted = record datasets {
  toasts = push (lit "Dataset could not be deleted") (lit "refused") error datasets.toasts;
}

deletion :
    Reach
      (DatasetsStarts yes)
      (record { state = datasets; waiting = [] })
      (record { state = not_deleted; waiting = [] })
unfolding remove confirmed while_deleting
deletion =
    next (next here (begin _ (removes dashboard (lit "orders") refl)))
      (reply [] [] _ _ (err refusal) refl)

deleting_ends_example : not_deleted.page.deleting ≡ []
deleting_ends_example =
    deleting_ends yes datasets (record { state = not_deleted; waiting = [] }) refl deletion refl

abbrev board : Board
board = record {
  window = lit "30";
  queue_filter = lit "all";
  options = lit "all" ∷ [];
  summary = none;
  queues = [];
  volume = [];
  issues = [];
  problem = none;
  busy = false;
}

abbrev not_loaded : Board
not_loaded = record board {
  problem = some (
      lit "The operations board could not load. "
      ++ (lit "refused" ++ lit " Check that both datasets have a published snapshot."));
}

loading : Reach (BoardStarts (lit "missing")) (at_rest board) (at_rest not_loaded)
unfolding load_board fetch_board
loading = next (next here (begin _ loads)) (reply [] [] _ _ (err (lit "refused")) refl)

aria_busy_ends_example : not_loaded.busy ≡ false
aria_busy_ends_example = aria_busy_ends (lit "missing") board (at_rest not_loaded) refl loading refl
