-- ===== src/Editing/Keeps/Kinds.antt =====
-- The kind of a buffer under the editing commands (session.py).
use drei.Base.{◌≡◌, Str, List, [], ◌∷◌, Result, ok, arith}
use drei.Buffer.{BufferValue, checked}
use drei.Editing.Text.{Edit}
use drei.Editing.Moves.{
  insert_text_arm, forward_char_arm, backward_char_arm, set_mark_arm, exchange_with, exchange_arm,
  keyboard_quit_arm,
}
use drei.Editing.Kills.{
  kill_to, kill_line_arm, kill_region_from, kill_region_arm, copy_region_from, copy_region_arm,
  with_region,
}
use drei.Editing.Yanks.{yank_entry, yank_arm, yank_pop_replace, yank_pop_arm}
use drei.Editing.Undos.{undo_group, redo_group, undo_newest, undo_step, undo_arm}
use drei.Editing.State.{BufferState}

abbrev pub KindStays : BufferState → Result Edit → Type 0
KindStays st r = (e : Edit) → r ≡ ok e → e.state.kind ≡ st.kind

module _ (v : BufferValue) (st : BufferState) (ring : List Str) where
  pub insert_text-KindStays : (text : Str) → KindStays st (insert_text_arm v st ring text)
  unfolding insert_text_arm checked
  insert_text-KindStays [] e h = ground arith
  insert_text-KindStays (c ∷ cs) e h = ground arith

  pub forward_char-KindStays : KindStays st (forward_char_arm v st ring)
  unfolding forward_char_arm checked
  forward_char-KindStays e h = ground arith

  pub backward_char-KindStays : KindStays st (backward_char_arm v st ring)
  unfolding backward_char_arm checked
  backward_char-KindStays e h = ground arith

  pub kill_line-KindStays : KindStays st (kill_line_arm v st ring)
  unfolding kill_line_arm kill_to checked
  kill_line-KindStays e h = ground arith

  pub yank-KindStays : KindStays st (yank_arm v st ring)
  unfolding yank_arm yank_entry checked
  yank-KindStays e h = ground arith

  pub yank_pop-KindStays : KindStays st (yank_pop_arm v st ring)
  unfolding yank_pop_arm yank_pop_replace checked
  yank_pop-KindStays e h = ground arith

  pub set_mark-KindStays : KindStays st (set_mark_arm v st ring)
  unfolding set_mark_arm checked
  set_mark-KindStays e h = ground arith

  pub kill_region-KindStays : KindStays st (kill_region_arm v st ring)
  unfolding kill_region_arm with_region kill_region_from checked
  kill_region-KindStays e h = ground arith

  pub copy_region-KindStays : KindStays st (copy_region_arm v st ring)
  unfolding copy_region_arm with_region copy_region_from checked
  copy_region-KindStays e h = ground arith

  pub exchange-KindStays : KindStays st (exchange_arm v st ring)
  unfolding exchange_arm exchange_with checked
  exchange-KindStays e h = ground arith

  pub undo-KindStays : KindStays st (undo_arm v st ring)
  unfolding undo_arm undo_step undo_newest undo_group redo_group checked
  undo-KindStays e h = ground arith

  pub keyboard_quit-KindStays : KindStays st (keyboard_quit_arm v st ring)
  unfolding keyboard_quit_arm checked
  keyboard_quit-KindStays e h = ground arith
