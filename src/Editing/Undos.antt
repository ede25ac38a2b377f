-- ===== src/Editing/Undos.antt =====
-- `_undo` and `_modified_after_undo` (session.py).
use drei.Base.{
  ◌+◌, Str, str_eq, Bool, true, false, not, List, [], ◌∷◌, Option, none, some, length, Result, ok,
  ◌>>=◌,
}
use drei.Buffer.{BufferValue, checked}
use drei.Commands.{text_undone, text_redone, message, no_further_undo}
use drei.Editing.State.{UndoGroup, BufferState}
use drei.Editing.Text.{Edit, splice, unchanged}

-- `_modified_after_undo`: a buffer whose saved text is unknown stays modified.
unfoldable pub modified_after_undo : Option Str → Str → Bool
modified_after_undo none text = true
modified_after_undo (some saved) text = not (str_eq text saved)

module _ (current : BufferValue) (st : BufferState) (ring : List Str) where
  unfoldable pub undo_group : UndoGroup → List UndoGroup → Result Edit
  unfolding splice modified_after_undo
  undo_group g older = do
    let undone_text = splice current.text g.start (g.start + length g.inserted_text) g.removed_text
    v ← checked (record current {
      text = undone_text;
      point = g.point_before;
      mark = g.mark_before;
      modified = modified_after_undo st.saved_text undone_text;
    })
    ok (record {
      value = v;
      state = record st { undo_history = older; undo_redo = g ∷ st.undo_redo };
      ring = ring;
      events =
          text_undone (record {
            start = g.start;
            removed_text = g.inserted_text;
            inserted_text = g.removed_text;
            point_before = g.point_after;
            point_after = g.point_before;
            mark_before = g.mark_after;
            mark_after = g.mark_before;
          })
          ∷ [];
    })

  unfoldable pub redo_group : UndoGroup → List UndoGroup → Result Edit
  unfolding splice modified_after_undo
  redo_group g older = do
    let redone_text = splice current.text g.start (g.start + length g.removed_text) g.inserted_text
    v ← checked (record current {
      text = redone_text;
      point = g.point_after;
      mark = g.mark_after;
      modified = modified_after_undo st.saved_text redone_text;
    })
    ok (record {
      value = v;
      state = record st { undo_history = g ∷ st.undo_history; undo_redo = older };
      ring = ring;
      events =
          text_redone (record {
            start = g.start;
            removed_text = g.removed_text;
            inserted_text = g.inserted_text;
            point_before = g.point_before;
            point_after = g.point_after;
            mark_before = g.mark_before;
            mark_after = g.mark_after;
          })
          ∷ [];
    })

  unfoldable pub undo_newest : List UndoGroup → Result Edit
  unfolding undo_group
  undo_newest [] = ok (unchanged current st ring (message no_further_undo ∷ []))
  undo_newest (g ∷ older) = undo_group g older

  -- `_undo`: down the history while descending or with nothing to redo, else back up.
  unfoldable pub undo_step : Bool → List UndoGroup → Result Edit
  unfolding undo_newest redo_group
  undo_step true redo = undo_newest st.undo_history
  undo_step false [] = undo_newest st.undo_history
  undo_step false (g ∷ older) = redo_group g older

  unfoldable pub undo_arm : Result Edit
  unfolding undo_step
  undo_arm = undo_step st.undo_descending st.undo_redo
