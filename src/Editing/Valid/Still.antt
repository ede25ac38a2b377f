-- ===== src/Editing/Valid/Still.antt =====
-- Commands that leave the text of a buffer alone.
use drei.Base.{◌≡◌, refl, Bool, true, false, List, [], ◌∷◌, none, ◌++◌, arith, Str, length-append}
use drei.Buffer.{BufferValue, InBounds}
use drei.Commands.{Command, undo, yank, yank_pop, Event}
use drei.Editing.State.{BufferState, generated}
use drei.Editing.Bookkeeping.{
  make_group, group_of, any_event, is_text_yanked, is_text_yank_popped, yank_flag, push_group,
  undo_books, bookkeeping,
}
use drei.Editing.Groups.{CanUndo-append, CanRedo-append}
use drei.Editing.Invariant.{IsValid}

-- Events that push no group and start no yank.
pub record IsQuiet (current : BufferValue) (events : List Event) : Type 0 where
  pub no_group : make_group current events ≡ none
  pub no_yank : any_event is_text_yanked events ≡ false
  pub no_pop : any_event is_text_yank_popped events ≡ false

-- A state that differs in the chain flags only, and starts no yank.
pub record SameHistory (a b : BufferState) : Type 0 where
  pub history : b.undo_history ≡ a.undo_history
  pub redo : b.undo_redo ≡ a.undo_redo
  pub yank : b.yank_active ≡ true → a.yank_active ≡ true
  pub start : b.yank_start ≡ a.yank_start
  pub stop : b.yank_end ≡ a.yank_end
  pub saved : b.saved_text ≡ a.saved_text
  pub kind : b.kind ≡ a.kind

yank_flag-quiet :
    (cmd : Command) (events : List Event) (was : Bool)
    → any_event is_text_yanked events ≡ false
    → any_event is_text_yank_popped events ≡ false
    → yank_flag cmd events was ≡ true
    → was ≡ true
unfolding yank_flag
yank_flag-quiet yank events was p q h = cc
yank_flag-quiet yank_pop events was p q h = cc
yank_flag-quiet cmd events was p q h = ground arith

-- Without a group the undo books turn the direction at most.
undo_books-quiet :
    (cmd : Command) (current : BufferValue) (events : List Event) (st : BufferState)
    → make_group current events ≡ none
    → undo_books cmd current events st
      ≡ record st { undo_descending = (undo_books cmd current events st).undo_descending }
unfolding undo_books push_group
undo_books-quiet undo current events st h = ground arith
undo_books-quiet cmd current events st h = rw h (ground arith)

pub bookkeeping-quiet :
    (cmd : Command) (current : BufferValue) (events : List Event) (st : BufferState)
    → IsQuiet current events
    → SameHistory st (bookkeeping cmd current events st)
unfolding bookkeeping
bookkeeping-quiet cmd current events st q =
    rw (undo_books-quiet cmd current events _ q.no_group) (record {
      history = refl;
      redo = refl;
      yank = yank_flag-quiet cmd events st.yank_active q.no_yank q.no_pop;
      start = refl;
      stop = refl;
      saved = refl;
      kind = refl;
    })

-- The invariant of a buffer whose text and flag stay, under a state that differs in its flags.
pub IsValid-still :
    (v v' : BufferValue) (st st' : BufferState)
    → IsValid v st
    → SameHistory st st'
    → InBounds v'
    → v'.text ≡ v.text
    → v'.modified ≡ v.modified
    → IsValid v' st'
IsValid-still v v' st st' h same b t m = record {
  in_bounds = b;
  can_undo = rw (same.history, t) h.can_undo;
  can_redo = rw (same.redo, t) h.can_redo;
  capacity = rw (same.history, same.redo) h.capacity;
  yank_in = λ a. rw (same.start, same.stop, t) (h.yank_in (same.yank a));
  clean = λ k c. rw (same.saved, t) (h.clean (rw same.kind at k) (rw m at c));
}

-- The invariant after text was appended to a generated buffer: the flag stays as it is.
pub IsValid-append :
    (v v' : BufferValue) (st st' : BufferState) (suffix : Str)
    → IsValid v st
    → SameHistory st st'
    → InBounds v'
    → v'.text ≡ v.text ++ suffix
    → st.kind ≡ generated
    → IsValid v' st'
IsValid-append v v' st st' suffix h same b t g = record {
  in_bounds = b;
  can_undo = rw (same.history, t) (CanUndo-append st.undo_history v.text suffix h.can_undo);
  can_redo = rw (same.redo, t) (CanRedo-append st.undo_redo v.text suffix h.can_redo);
  capacity = rw (same.history, same.redo) h.capacity;
  yank_in = λ a.
      rw (same.start, same.stop, t)
        (ground (arith, h.yank_in (same.yank a), length-append v.text suffix));
  clean = λ k c. cc (same.kind);
}

pub IsQuiet-none : (current : BufferValue) → IsQuiet current []
unfolding make_group any_event
IsQuiet-none current = record { no_group = refl; no_yank = refl; no_pop = refl }

pub IsQuiet-one :
    (current : BufferValue) (e : Event)
    → group_of current e ≡ none
    → is_text_yanked e ≡ false
    → is_text_yank_popped e ≡ false
    → IsQuiet current (e ∷ [])
unfolding make_group any_event
IsQuiet-one current e g y p = record {
  no_group = ground arith;
  no_yank = ground arith;
  no_pop = ground arith;
}
