-- ===== src/Session/Examples/Agents.antt =====
-- A session to which the agent delivers text.
use drei.Base.{
  ReturnsUnless-ok, ◌≡◌, refl, Str, codes, List, [], ◌∷◌, Option, none, some, Result, ok, raise,
  lookup, Returns, Returns-ok, false,
}
use drei.Files.{undecodable}
use drei.Files.LineEndings.{lf}
use drei.Commands.{create_generated_buffer, insert_agent_text}
use drei.Genesis.{InitialBuffer, scratch, unknown_frame, validated, genesis_of}
use drei.Editing.State.{new_state, generated}
use drei.Session.State.{Entry, Session}
use drei.Session.Dispatch.{dispatch}
use drei.Session.Invariant.{IsValid}
use drei.Session.Keeps.Dispatch.{dispatch-Keeps}
use drei.Session.Appends.{Appended, insert_agent_text-Appended}
use drei.Session.Examples.{environment, begun, begun-IsValid, or_begun}

abbrev agent_session : Session
agent_session = or_begun (dispatch environment (create_generated_buffer (codes "agent")) begun)

dispatch-agent :
    dispatch environment (create_generated_buffer (codes "agent")) begun ≡ ok agent_session
unfolding dispatch lookup drei.Session.Names.unique_name drei.Base.contains drei.Base.str_eq
    drei.Genesis.prepare_provided_buffer drei.Files.to_buffer_text drei.Files.detect_line_ending
    drei.Buffer.mark_fits drei.Buffer.checked drei.Base.insert
dispatch-agent = refl

agent_session-IsValid : IsValid agent_session
agent_session-IsValid =
    ReturnsUnless-ok
      (dispatch-Keeps environment (create_generated_buffer (codes "agent")) begun begun-IsValid
        (λ e. cc))
      dispatch-agent

abbrev agent_entry : Entry
agent_entry = record {
  value = record { text = []; point = 0; file_path = none; modified = false; mark = none };
  state = new_state (some []) lf generated;
}

agent-found : lookup (codes "agent") agent_session.buffers ≡ some agent_entry
unfolding lookup dispatch drei.Session.Names.unique_name drei.Base.contains drei.Base.str_eq
    drei.Genesis.prepare_provided_buffer drei.Files.to_buffer_text drei.Files.detect_line_ending
    drei.Buffer.mark_fits drei.Buffer.checked drei.Base.insert new_state
    drei.Editing.Bookkeeping.bookkeeping
agent-found = refl

generated_kind : agent_entry.state.kind ≡ generated
unfolding new_state
generated_kind = refl

insert_agent_text-Appended_example :
    Returns
      (dispatch environment (insert_agent_text (codes "hello") (codes "agent")) agent_session)
      (Appended (codes "agent") (codes "scratch") (codes "hello") agent_entry agent_session)
insert_agent_text-Appended_example =
    insert_agent_text-Appended environment (codes "hello") (codes "agent") (codes "scratch")
      agent_session agent_entry agent_session-IsValid agent-found generated_kind (λ e. cc)
