-- ===== src/Lib.antt =====
-- The browser side of Oort, a control plane for datasets, saved queries and the apps that read them.
-- It talks to the server over HTTP. Each page keeps a state of its own and has asynchronous handlers;
-- all share the session, the workspace and a store of notices.
--
-- The program's parts, and the files that model them:
--   Prelude, Text, Json   what the language offers: arrays, strings as sequences of 16-bit code
--       units (trim, split, encodeURIComponent, ...), JSON values, JSON.stringify and JSON.parse;
--       Json.Parse.Layout has the texts of JSON, whatever their blanks and escapes
--   Prog   asynchronous handlers as values: reads and setters of the state, awaited calls, errors,
--       try, catch and finally. Prog.Machine interleaves any number of them: an event starts a
--       handler, which runs up to its next await, and the replies come in any order. Prog.Quiet
--       and Prog.Marks hold the rules for what is true when none waits, Prog.Frames those for handlers
--       that leave a part of the state alone, Prog.Settles those for handlers that never reject,
--       Prog.Exclusive those for handlers that exclude each other by a mark. Prog.Trace has runs by
--       the order of what was started and answered
--   Api, Api.Call   internal/server/web/src/api.ts: the resources, and one constructor of Call for
--       each request of the object `api`, with what it resolves to
--   Api.Request, Api.Request.Routes   `request`, `tenantPath` and the methods of `api`; in
--       Api.Request.Answers what becomes of an answer
--   Toast   internal/server/web/src/toast.ts
--   View   what components render, as trees of elements with their handlers, and the handler that an
--       event of the user starts; View.Parts is internal/server/web/src/ui.tsx, View.Allows has the
--       rule for what holds of every handler that a tree offers
--   SqlEditor   internal/server/web/src/sql-editor.tsx: the editor, kept in step with the draft
--   World   the state that the handlers share: that of `App`, of the page, and of the notices
--   App, App.Routing, Connect   internal/server/web/src/App.tsx and pages/Connect.tsx: `loadWorkspace`,
--       the effects, the log out, the choice of the screen, `pageFromHash`, both forms in front
--   Queries, Datasets, Apps, Jobs, Connectors, Access   the page of that name in
--       internal/server/web/src/pages, one definition for each handler, named after it; the child
--       module View has what the page renders, Controls what its controls start
--   Overview   pages/Overview.tsx and Activity.tsx, and the tones of a status in ui.tsx
--   Format   internal/server/web/src/format.ts
--   Sdk   sdk/js/index.js
--   Board   examples/support-operations/dist/main.js, the example app; Board.View has what it renders
--   Tests   concrete runs
--
-- A handler belongs to the render in which it was created: it takes that render's values as
-- arguments, while its setters act on the state when they run. A page is rendered anew after each
-- change, so that an event starts a handler of the current state (the types Starts and Selects).
-- Where a page is mounted anew, its state starts again, and the handlers of its earlier mounting set
-- nothing of it, which is no step of the model; only the form of the page of datasets lives
-- beside handlers of an earlier mounting, and it carries the number of its mounting.
--
-- The server is an environment that answers each call with a value of the type that api.ts declares
-- or with an error; nothing else is assumed of it. The value of `window.confirm` is an argument, and
-- so are the formatters of `Intl`, the time that has passed since a date, and the double-precision
-- numbers of `formatBytes` and of the board. A call to the clipboard is answered like a request.
--
-- Fuel: JSON.parse runs on fuel, one more than twice the length of its text: each step takes a
-- character or opens a value. The loop of `formatBytes` has a round of fuel for each unit, one more
-- than its guard lets it take.
--
-- Bounds: `number` is a natural number where the API sends counts, sizes, versions and identifiers;
-- JSON numbers keep the text that they were written with, and one counts as zero if all its digits
-- before the exponent are; a number field of a form is read as digits, anything else as NaN.
--
-- An element keeps its tag, its text, its handlers, and the attributes that say what it is or does:
-- disabled, readOnly, the type submit, addresses, names, titles. Class names are kept where they carry
-- a state, keys and icons by name are not. Required fields and patterns, which the browser checks
-- before it sends a form, restrict no event in the model.
--
-- Not modelled: the reset of form elements; the inner workings of the editor CodeMirror, of which only
-- the document, and what it makes of an inserted text, are looked at; the properties that every object inherits,
-- at look-ups in tables; capitals beyond ASCII in `toLowerCase`, but for the two that become or begin
-- with an ASCII letter; duplicate or numeric names in JSON objects, which the browser moves; the
-- server and the command line, which are written in Go.
pub mod Prelude
pub mod Text
pub mod Prog
pub mod Json
pub mod Api
pub mod Toast
pub mod View
pub mod World
pub mod App
pub mod SqlEditor
pub mod Queries
pub mod Format
pub mod Datasets
pub mod Apps
pub mod Jobs
pub mod Connectors
pub mod Access
pub mod Overview
pub mod Connect
pub mod Sdk
pub mod Board
pub mod Tests
