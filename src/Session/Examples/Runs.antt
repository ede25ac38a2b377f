-- ===== src/Session/Examples/Runs.antt =====
-- A command that is dispatched to a scratch session.
use drei.Base.{
  ReturnsUnless, arith, ℕ, ◌≡◌, refl, Str, codes, Bool, true, false, not, List, [], ◌∷◌, Option,
  none, some, Result, ok, raise, lookup, Returns, Returns-ok, ◌>>=◌, contains, ◌≢◌, Assoc, pos,
}
use drei.Buffer.{BufferValue}
use drei.Commands.{insert_text, save_buffer}
use drei.Genesis.{unknown_frame}
use drei.Files.{read_raises, write_raises}
use drei.Session.Keeps.Run.{PortRaises}
use drei.Session.State.{Session, Environment}
use drei.Session.Dispatch.{dispatch}
use drei.Session.Invariant.{IsValid}
use drei.Session.Keeps.Dispatch.{dispatch-Keeps}
use drei.Session.Runs.{here, by_command, reached-Returns}
use drei.Session.Examples.{
  environment, initial, begun, begun-IsValid, initial_accepted, start-begun, or_begun,
}

abbrev typed : Session
typed = or_begun (dispatch environment (insert_text (codes "hi")) begun)

dispatch-typed : dispatch environment (insert_text (codes "hi")) begun ≡ ok typed
unfolding dispatch lookup drei.Base.str_eq drei.Editing.Moves.insert_text_arm drei.Buffer.checked
    drei.Buffer.adjust_mark_insert drei.Base.insert
dispatch-typed = refl

-- A port whose operations raise what the session does not catch.
abbrev broken : Environment
broken = record {
  files = record { read = λ path. read_raises; write = λ path text. write_raises };
  show_json = λ v. codes "?";
}

dispatch-Keeps_example :
    ReturnsUnless
      (PortRaises (insert_text (codes "hi")) environment.files)
      (dispatch environment (insert_text (codes "hi")) begun)
      IsValid
dispatch-Keeps_example =
    dispatch-Keeps environment (insert_text (codes "hi")) begun begun-IsValid tt

-- A text is typed, and then the buffer is saved through a port that raises.
reached-Returns_example :
    IsValid typed
    × ReturnsUnless
        (PortRaises save_buffer broken.files)
        (dispatch broken save_buffer typed)
        IsValid
reached-Returns_example =
    reached-Returns broken initial unknown_frame begun typed save_buffer initial_accepted
      start-begun (by_command environment (insert_text (codes "hi")) here tt dispatch-typed) tt
