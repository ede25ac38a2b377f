-- ===== src/Session/Examples/Saves.antt =====
-- Saving a buffer of a file with carriage returns.
use drei.Base.{
  ReturnsUnless, arith, ℕ, ◌≡◌, refl, Str, codes, Bool, true, false, not, List, [], ◌∷◌, Option,
  none, some, Result, ok, raise, lookup, Returns, Returns-ok, ◌>>=◌, contains, ◌≢◌, Assoc, pos,
}
use drei.Files.{write_returns}
use drei.Files.LineEndings.{crlf}
use drei.Commands.{save_buffer}
use drei.Editing.State.{new_state, ordinary}
use drei.Session.State.{Entry, Session}
use drei.Session.Dispatch.{dispatch}
use drei.Session.Invariant.{IsValid}
use drei.Session.Saves.{Saved, Raised, save_buffer-Saved}
use drei.Session.Examples.{environment, begun}

-- A buffer, visiting a file with carriage returns, and edited since.
abbrev visiting_entry : Entry
visiting_entry = record {
  value = record {
    text = 97 ∷ 10 ∷ [];
    point = 0;
    file_path = some (codes "/a");
    modified = true;
    mark = none;
  };
  state = new_state (some []) crlf ordinary;
}

abbrev visiting_session : Session
visiting_session = record begun {
  buffers = (codes "a", visiting_entry) ∷ [];
  current_id = codes "a";
  mru = codes "a" ∷ [];
  windows = (record { buffer_id = codes "a"; point = 0; mark = none }) ∷ [];
}

here_it_is : contains (codes "a") visiting_session.buffers ≡ true
unfolding contains drei.Base.str_eq
here_it_is = refl

visiting-found : lookup (codes "a") visiting_session.buffers ≡ some visiting_entry
unfolding lookup drei.Base.str_eq
visiting-found = refl

visiting-IsValid : IsValid visiting_session
unfolding new_state
visiting-IsValid = record {
  stored = record {
    entries = (
      record {
        in_bounds = record { point_in = omega arith; mark_in = tt };
        can_undo = tt;
        can_redo = tt;
        capacity = omega arith;
        yank_in = λ a. cc;
        clean = λ k m. cc;
      },
      tt,
    );
    current_in = here_it_is;
    windows_in = (here_it_is, tt);
    focus_shows = (_, refl, refl);
    ring_bound = omega arith;
    agents_in = tt;
    generated_in = tt;
  };
  prompted = (refl, refl);
  pending_in = tt;
}

save_buffer-Saved_example :
    ReturnsUnless
      (Raised environment (codes "/a") visiting_entry)
      (dispatch environment save_buffer visiting_session)
      (Saved write_returns (codes "/a") visiting_entry (codes "a") [])
save_buffer-Saved_example =
    save_buffer-Saved environment visiting_session visiting_entry (codes "/a") visiting-IsValid refl
      visiting-found refl
