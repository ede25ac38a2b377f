-- ===== src/Acp/Examples/Client.antt =====
-- Messages to the client.
use drei.Base.{
  ◌≡◌, refl, Str, codes, pos, List, [], ◌∷◌, Option, none, some, true, Result, ok, arith,
}
use drei.Acp.Json.{JsonValue, null, str, obj, end, field}
use drei.Acp.Effects.{number, selected, cancelled, prompt_completed, permission_resolved}
use drei.Acp.Ids.{id_lookup, id_contains}
use drei.Acp.Messages.{Message, response}
use drei.Acp.Machine.{Turn, start, new_session, prompt, phase_eq, session_active}
use drei.Acp.Machine.Answers.{outcome_json, resolve_permission, cancel, goodbye, keys}
use drei.Acp.Machine.Inbound.{handle, ask_human}
use drei.Acp.Machine.Invariant.{IsValid}
use drei.Acp.Machine.Reached.{Reached, fresh, started, opened, prompted, handled, Reached-IsValid}
use drei.Acp.Machine.Consent.{Consented, handle-Consented}
use drei.Acp.Machine.Once.{Once, resolve_permission-Once}
use drei.Acp.Machine.Sweeps.{cancelled_responses, cancelled_effects, cancel-answers}
use drei.Acp.Machine.Errors.{Settles, handle-Settles}
use drei.Acp.Machine.Moves.{PhaseStep, handle-PhaseStep}
use drei.Acp.Examples.{agent_id, offered, asking, talking, asked}

abbrev repr : JsonValue → Str
repr _ = codes "?"

abbrev canonical : JsonValue → Option Str
canonical _ = some (codes "{}")

-- The handshake, a session, and a prompt.
talking-Reached : Reached repr canonical talking
unfolding start handle new_session drei.Acp.Ids.id_eq drei.Base.str_eq prompt drei.Acp.Json.get
talking-Reached =
    prompted (codes "hi")
      (handled (response (number (pos 1)) (obj (field (codes "sessionId") (str (codes "x")) end)))
        (opened (codes ".") (handled (response (number (pos 0)) null) (started fresh refl) refl)
          refl)
        refl)
      refl

-- A request for a permission after it.
asked-Reached : Reached repr canonical asked
unfolding handle drei.Base.str_eq
asked-Reached = handled asking talking-Reached refl

Reached-IsValid_example : IsValid asked
Reached-IsValid_example = Reached-IsValid repr canonical asked-Reached

cancel-answers_example :
    cancel canonical asked
    ≡ ok (
      record asked { in_flight_incoming = []; request_params = [] },
      goodbye asked ∷ cancelled_responses (keys asked.in_flight_incoming),
      cancelled_effects (keys asked.in_flight_incoming),
    )
unfolding phase_eq
cancel-answers_example =
    cancel-answers canonical asked (Reached-IsValid repr canonical asked-Reached) refl

-- The client after the request, which is passed on to the human.
abbrev asked_turn : Turn
asked_turn = ask_human talking agent_id offered

handle-Consented_example : Consented canonical talking asking asked_turn
unfolding handle drei.Base.str_eq
handle-Consented_example = handle-Consented canonical talking repr asking asked_turn refl

handle-Settles_example : Settles (handle repr canonical talking asking)
handle-Settles_example = handle-Settles canonical talking repr asking

-- The turn of the prompt ends.
abbrev ended : Message
ended = response (number (pos 2)) (obj (field (codes "stopReason") (str (codes "end_turn")) end))

abbrev ended_turn : Turn
ended_turn = (
  record talking { phase = session_active; in_flight_outgoing = [] },
  [],
  prompt_completed (codes "end_turn") ∷ [],
)

handle-PhaseStep_example : PhaseStep talking ended ended_turn
unfolding handle drei.Acp.Ids.id_eq drei.Base.str_eq drei.Acp.Json.get
handle-PhaseStep_example =
    handle-PhaseStep talking canonical repr ended ended_turn
      (Reached-IsValid repr canonical talking-Reached) refl

-- The human allows it for the session.
abbrev allowed_turn : Turn
allowed_turn = (
  record talking { auto_approvals = codes "|params:{}" ∷ [] },
  response agent_id (outcome_json (selected (codes "s"))) ∷ [],
  permission_resolved agent_id (selected (codes "s")) true ∷ [],
)

resolve_permission-Once_example :
    Once canonical asked agent_id (selected (codes "s")) cancelled allowed_turn
unfolding resolve_permission drei.Acp.Ids.id_eq drei.Acp.Json.get drei.Base.str_eq
resolve_permission-Once_example =
    resolve_permission-Once canonical asked agent_id (selected (codes "s")) cancelled allowed_turn
      refl
