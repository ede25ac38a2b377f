-- ===== src/Editing/Yanks.antt =====
-- `_yank` and `_yank_pop` (session.py).
use drei.Base.{
  ◌+◌, ◌%◌, Str, true, not, List, [], ◌∷◌, length, get_elem?, ltb, if◌then◌else◌, Result, ok,
  required, ◌>>=◌,
}
use drei.Buffer.{BufferValue, checked, adjust_mark_insert, adjust_mark_delete}
use drei.Commands.{text_yanked, text_yank_popped, message, previous_command_not_a_yank}
use drei.Editing.State.{BufferState}
use drei.Editing.Text.{Edit, splice, slice, unchanged}

module _ (current : BufferValue) (st : BufferState) (ring : List Str) where
  unfoldable pub yank_entry : List Str → Result Edit
  unfolding splice
  yank_entry [] = ok (unchanged current st ring [])
  yank_entry (text ∷ older) = do
    let before = current.point
    let after = before + length text
    v ← checked (record current {
      text = splice current.text before before text;
      point = after;
      modified = true;
      mark = adjust_mark_insert current.mark before (length text);
    })
    ok (record {
      value = v;
      state = record st { yank_cursor = 0; yank_start = before; yank_end = after };
      ring = ring;
      events = text_yanked text before after ∷ [];
    })

  unfoldable pub yank_arm : Result Edit
  unfolding yank_entry
  yank_arm = yank_entry ring

  unfoldable pub yank_pop_replace : Result Edit
  unfolding splice slice
  yank_pop_replace = do
    let start = st.yank_start
    let stop = st.yank_end
    let old = slice current.text start stop
    let cursor = (st.yank_cursor + 1) % length ring
    new ← required (get_elem? ring cursor)
    let after = start + length new
    v ← checked (record current {
      text = splice current.text start stop new;
      point = after;
      modified = true;
      mark = adjust_mark_insert (adjust_mark_delete current.mark start stop) start (length new);
    })
    ok (record {
      value = v;
      state = record st { yank_cursor = cursor; yank_start = start; yank_end = after };
      ring = ring;
      events = text_yank_popped old new start after ∷ [];
    })

  unfoldable pub yank_pop_arm : Result Edit
  unfolding yank_pop_replace
  yank_pop_arm =
      if not st.yank_active
      then ok (unchanged current st ring (message previous_command_not_a_yank ∷ []))
      else if ltb (length ring) 2
      then ok (unchanged current st ring [])
      else yank_pop_replace
