-- ===== src/Editing/Kills.antt =====
-- `_kill_line`, `_kill_region` and `_copy_region` (session.py).
use drei.Base.{
  ℕ, ◌+◌, Str, true, List, [], ◌∷◌, Option, none, some, drop, ltb, ◌==◌, min, max, if◌then◌else◌,
  Result, ok, ◌>>=◌,
}
use drei.Files.LineEndings.{newline}
use drei.Buffer.{BufferValue, checked, adjust_mark_delete}
use drei.Commands.{
  text_killed, region_killed, region_copied, message, forward, backward, end_of_buffer,
  mark_not_set,
}
use drei.Editing.State.{BufferState}
use drei.Editing.Text.{Edit, splice, slice, unchanged, push_kill, kill_entry, find_newline}

module _ (current : BufferValue) (st : BufferState) (ring : List Str) where
  unfoldable pub kill_to : ℕ → Result Edit
  unfolding splice slice kill_entry
  kill_to stop = do
    let point = current.point
    let killed = slice current.text point stop
    v ← checked (record current {
      text = splice current.text point stop [];
      modified = true;
      mark = adjust_mark_delete current.mark point stop;
    })
    ok (record {
      value = v;
      state = st;
      ring = kill_entry st.last_was_kill killed ring;
      events = text_killed killed point stop forward ∷ [];
    })

  -- `_kill_line`: at a newline the newline goes, else the rest of the line.
  unfoldable pub kill_line_arm : Result Edit
  unfolding kill_to find_newline
  kill_line_arm = elim (drop current.point current.text) [
    | [] ↦ ok (unchanged current st ring (message end_of_buffer ∷ []))
    | c ∷ rest ↦ kill_to (current.point + (if c == newline then 1 else find_newline (c ∷ rest)))
  ]

  unfoldable pub kill_region_from : ℕ → Result Edit
  unfolding splice slice push_kill
  kill_region_from mark = do
    let lo = min current.point mark
    let hi = max current.point mark
    let killed = slice current.text lo hi
    v ← checked (record current {
      text = splice current.text lo hi [];
      point = lo;
      modified = true;
      mark = none;
    })
    ok (record {
      value = v;
      state = st;
      ring = push_kill killed ring;
      events =
          region_killed killed lo hi (if ltb mark current.point then forward else backward) ∷ [];
    })

  unfoldable pub copy_region_from : ℕ → Result Edit
  unfolding slice push_kill
  copy_region_from mark = do
    let lo = min current.point mark
    let hi = max current.point mark
    let copied = slice current.text lo hi
    v ← checked (record current { mark = none })
    ok (record {
      value = v;
      state = st;
      ring = push_kill copied ring;
      events = region_copied copied ∷ [];
    })

  -- The two guards of `_kill_region` and `_copy_region`: no mark, and an empty region.
  unfoldable pub with_region : (ℕ → Result Edit) → Option ℕ → Result Edit
  with_region act none = ok (unchanged current st ring (message mark_not_set ∷ []))
  with_region act (some mark) =
      if mark == current.point then ok (unchanged current st ring []) else act mark

  unfoldable pub kill_region_arm : Result Edit
  unfolding with_region kill_region_from
  kill_region_arm = with_region kill_region_from current.mark

  unfoldable pub copy_region_arm : Result Edit
  unfolding with_region copy_region_from
  copy_region_arm = with_region copy_region_from current.mark
