-- ===== src/Session/Runs.antt =====
-- The sessions that runs of commands reach (`dispatch` of session.py).
use drei.Base.{◌≡◌, ok, Returns-ok, ReturnsUnless, ReturnsUnless-ok}
use drei.Genesis.{FrameGenesis, InitialBuffer, validated, genesis_of}
use drei.Commands.{Command}
use drei.Session.State.{Environment, Session}
use drei.Session.Start.{start}
use drei.Session.Dispatch.{dispatch}
use drei.Session.Invariant.{IsValid}
use drei.Session.Begins.{start-IsValid}
use drei.Session.Keeps.Run.{Acceptable, PortRaises}
use drei.Session.Keeps.Dispatch.{dispatch-Keeps}

-- `t` is reached from `s` by acceptable commands, each dispatched to the session that the ones
-- before it left. Every command has an environment of its own: a port that failed may answer the
-- next time, and a read may find another text.
pub data Reaches (s : Session) : Session → Type 0 where
  here : Reaches s s
  by_command :
      {t u : Session} (env : Environment) (cmd : Command)
      → Reaches s t
      → Acceptable cmd t
      → dispatch env cmd t ≡ ok u
      → Reaches s u

Reaches-IsValid : {s t : Session} → IsValid s → Reaches s t → IsValid t
Reaches-IsValid v here = v
Reaches-IsValid v (by_command {t} env cmd run fine e) =
    ReturnsUnless-ok (dispatch-Keeps env cmd t (Reaches-IsValid v run) fine) e

-- A session that a run of acceptable commands reaches from an accepted genesis satisfies the
-- invariant. The next acceptable command returns and leaves such a session, unless the port raises
-- under it what the session does not catch; only a save, a key at the minibuffer and an accepted
-- prompt can meet that.
pub reached-Returns :
    (env : Environment) (b : InitialBuffer) (frame : FrameGenesis) (s t : Session) (cmd : Command)
    → validated b ≡ ok b
    → start (genesis_of b frame) ≡ ok s
    → Reaches s t
    → Acceptable cmd t
    → IsValid t × ReturnsUnless (PortRaises cmd env.files) (dispatch env cmd t) IsValid
reached-Returns env b frame s t cmd accepted begun run fine =
    let valid : IsValid t =
      Reaches-IsValid (Returns-ok (start-IsValid b frame accepted) begun) run in
    (valid, dispatch-Keeps env cmd t valid fine)
