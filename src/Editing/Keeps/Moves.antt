-- ===== src/Editing/Keeps/Moves.antt =====
-- Inserting text, and moving point and mark.
use drei.Base.{ℕ, ◌≤◌, ◌≡◌, refl, Str, List, [], ◌∷◌, Option, none, some, length, arith, ok}
use drei.Buffer.{BufferValue, InBounds, MarkIn}
use drei.Commands.{
  Command, insert_text, forward_char, backward_char, set_mark, exchange_point_and_mark,
  keyboard_quit, Event, user_issued, is_message,
}
use drei.Editing.Text.{kill_ring_capacity}
use drei.Editing.Moves.{
  insert_text_arm, forward_char_arm, backward_char_arm, set_mark_arm, exchange_with, exchange_arm,
  keyboard_quit_arm,
}
use drei.Editing.State.{BufferState}
use drei.Editing.Bookkeeping.{
  bookkeeping, undo_books, push_group, make_group, group_of, is_text_yanked, is_text_yank_popped,
  yank_flag,
}
use drei.Editing.Insertion.{inserted, insertion, inserted-InBounds, insertion-Patches}
use drei.Editing.Invariant.{IsValid}
use drei.Editing.Valid.{
  IsQuiet, IsQuiet-none, IsQuiet-one, bookkeeping-quiet, IsValid-still, IsValid-patch,
}
use drei.Editing.Outcome.{IsKept, Keeps, checked-Returns, one_group, no_patch}

module _ {current : BufferValue} {st : BufferState} (ring : List Str) (h : IsValid current st)
    (room : length ring ≤ kill_ring_capacity) where
  -- The common case: another place, the same text.
  pub IsKept-still :
      (cmd : Command) (v : BufferValue) (events : List Event)
      → InBounds v
      → v.text ≡ current.text
      → v.modified ≡ current.modified
      → IsQuiet current events
      → IsKept cmd current (record { value = v; state = st; ring = ring; events = events })
  IsKept-still cmd v events b t m q = record {
    valid = IsValid-still current v st _ h (bookkeeping-quiet cmd current events st q) b t m;
    ring_bound = room;
    patched = λ g e. no_patch current events q.no_group e;
  }

  pub forward_char-Keeps : Keeps forward_char current (forward_char_arm current st ring)
  unfolding forward_char_arm group_of is_text_yanked is_text_yank_popped
  forward_char-Keeps =
      let b : InBounds _ = record { point_in = omega arith; mark_in = h.in_bounds.mark_in } in
      checked-Returns _ _ b
        (IsKept-still forward_char _ _ b refl refl (IsQuiet-one _ _ refl refl refl))

  pub backward_char-Keeps : Keeps backward_char current (backward_char_arm current st ring)
  unfolding backward_char_arm group_of is_text_yanked is_text_yank_popped
  backward_char-Keeps =
      let b : InBounds _ = record {
        point_in = omega (arith, h.in_bounds.point_in);
        mark_in = h.in_bounds.mark_in;
      } in
      checked-Returns _ _ b
        (IsKept-still backward_char _ _ b refl refl (IsQuiet-one _ _ refl refl refl))

  pub set_mark-Keeps : Keeps set_mark current (set_mark_arm current st ring)
  unfolding set_mark_arm group_of is_text_yanked is_text_yank_popped
  set_mark-Keeps =
      let b : InBounds _ = record {
        point_in = h.in_bounds.point_in;
        mark_in = h.in_bounds.point_in;
      } in
      checked-Returns _ _ b (IsKept-still set_mark _ _ b refl refl (IsQuiet-one _ _ refl refl refl))

  pub keyboard_quit-Keeps : Keeps keyboard_quit current (keyboard_quit_arm current st ring)
  unfolding keyboard_quit_arm group_of is_text_yanked is_text_yank_popped
  keyboard_quit-Keeps =
      let b : InBounds _ = record { point_in = h.in_bounds.point_in; mark_in = tt } in
      checked-Returns _ _ b
        (IsKept-still keyboard_quit _ _ b refl refl (IsQuiet-one _ _ refl refl refl))

  -- Nothing done, and a quiet word about it at most.
  pub unchanged-Keeps :
      (cmd : Command) (events : List Event)
      → IsQuiet current events
      → Keeps cmd current
          (ok (record { value = current; state = st; ring = ring; events = events }))
  unchanged-Keeps cmd events q = (_, refl, IsKept-still cmd current events h.in_bounds refl refl q)

  exchange_with-Keeps :
      (m : Option ℕ)
      → MarkIn m (length current.text)
      → Keeps exchange_point_and_mark current (exchange_with current st ring m)
  unfolding exchange_with group_of is_text_yanked is_text_yank_popped
  exchange_with-Keeps none i = unchanged-Keeps exchange_point_and_mark [] (IsQuiet-none current)
  exchange_with-Keeps (some m) i =
      let b : InBounds _ = record { point_in = i; mark_in = h.in_bounds.point_in } in
      checked-Returns _ _ b
        (IsKept-still exchange_point_and_mark _ _ b refl refl (IsQuiet-one _ _ refl refl refl))

  pub exchange-Keeps : Keeps exchange_point_and_mark current (exchange_arm current st ring)
  unfolding exchange_arm
  exchange-Keeps = exchange_with-Keeps current.mark h.in_bounds.mark_in

  pub insert_text-Keeps :
      (text : Str) → Keeps (insert_text text) current (insert_text_arm current st ring text)
  unfolding insert_text_arm
  insert_text-Keeps [] = unchanged-Keeps (insert_text []) [] (IsQuiet-none current)
  insert_text-Keeps (c ∷ cs) =
      let b : InBounds (inserted current (c ∷ cs)) =
        inserted-InBounds current (c ∷ cs) h.in_bounds in
      checked-Returns _ _ b (record {
        valid =
            unfold bookkeeping undo_books make_group group_of push_group yank_flag user_issued
              is_message in
            IsValid-patch current _ st _ (insertion current (c ∷ cs)) h
              (insertion-Patches current (c ∷ cs) h.in_bounds) b refl refl refl (λ a. cc);
        ring_bound = room;
        patched = λ g e.
            unfold make_group group_of in
            one_group e (insertion-Patches current (c ∷ cs) h.in_bounds);
      })
