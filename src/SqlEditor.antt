-- ===== src/SqlEditor.antt =====
-- internal/server/web/src/sql-editor.tsx: the component `SqlEditor`, which keeps a CodeMirror editor
-- in step with the draft of its parent. How CodeMirror edits, completes and highlights is not
-- modelled.
pub mod Laws
use oort.Prelude.{
  ℕ, zero, suc, ◌+◌, ◌-◌, ◌*◌, ◌/◌, ◌%◌, ◌^◌, ◌≤◌, ◌<◌, ◌≡◌, refl, sym, ap, ◌∙◌, ◌≢◌, ◌↔◌, ◌⊎◌, inl,
  inr, Bool, true, false, not, ◌&&◌, ◌||◌, Option, none, some, List, [], ◌∷◌, ◌++◌, map,
  append_assoc, append-nil, arith, ltb, leb, ◌==◌, if◌then◌else◌, ==_iff, ltb→lt, Bool-cases,
  Option-cases, length, take, head?, find, filter, any, all, length-append, length-take, All,
  All-append,
}
use oort.Text.{Text, text_eq}

-- `SqlSchema`
abbrev pub SqlSchema : Type 0
SqlSchema = List (Text × List Text)

-- what the parent passes; `H` is what a callback does
pub record Callbacks (H : Type 0) : Type 0 where
  pub on_change : Text → H
  pub on_run : H

-- The editor with the reference `callbacks`.
pub record Editor (H : Type 0) : Type 0 where
  pub doc : Text
  pub schema : SqlSchema
  pub callbacks : Callbacks H

-- `kept` is what CodeMirror makes of a text that is inserted: it reads every kind of line end as one.
module _ {H : Type 0} (kept : Text → Text) where
  -- the effect that creates the editor
  unfoldable pub create : Callbacks H → Editor H
  create cb = record { doc = []; schema = []; callbacks = cb }

  -- a render of the component
  unfoldable pub render : Callbacks H → Editor H → Editor H
  render cb e = record e { callbacks = cb }

  -- A transaction that makes the document `s`: the update listener reports the new document.
  unfoldable pub dispatch : Text → Editor H → Editor H × H
  dispatch s e = (record e { doc = kept s }, e.callbacks.on_change (kept s))

  -- the key Mod-Enter
  unfoldable pub run_key : Editor H → H
  run_key e = e.callbacks.on_run

  -- the effect behind a change of `value`, with what the listener started
  unfoldable pub sync_value : Text → Editor H → Editor H × Option H
  unfolding dispatch
  sync_value value e =
      let (changed, h) = dispatch value e in
      if text_eq value e.doc then (e, none) else (changed, some h)

  -- the effect behind a change of `schema`
  unfoldable pub reconfigure : SqlSchema → Editor H → Editor H
  reconfigure schema e = record e { schema = schema }
