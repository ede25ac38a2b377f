-- ===== src/Acp/Machine/Unchanged.antt =====
-- The envelopes that leave the machine as it is: notifications and refused requests.
use drei.Base.{
  arith, Str, codes, str_eq, ◌≡◌, refl, Bool, ◌||◌, if-holds, [], Option, none, some, ok, bind-ok,
  ok-injective, subst,
}
use drei.Acp.Json.{JsonValue, obj, Fields, get, as_dict}
use drei.Acp.Effects.{RequestId}
use drei.Acp.Machine.{AcpMachine, Turn}
use drei.Acp.Machine.Options.{kind_among}
use drei.Acp.Machine.Responses.{observed, complain}
use drei.Acp.Machine.Inbound.{
  turn_update_kinds, turn_update, gated_update, fold_update, session_update, handle_notification,
  refuse_request, refuse, starts_with,
}

-- The machine is the same, and nothing is sent.
unfoldable pub Silent : AcpMachine → Turn → Type 0
Silent m (after, out, effects) = (after ≡ m) × (out ≡ [])

turn_update-Silent :
    (m : AcpMachine) (update : Fields) (kind : JsonValue) → Silent m (turn_update m update kind)
unfolding Silent turn_update observed
turn_update-Silent m update kind = ground arith

pub refuse_request-same :
    (m : AcpMachine) (i : RequestId) (method : Str) → (refuse_request m i method).0 ≡ m
unfolding refuse_request refuse
refuse_request-same m i method =
    if-holds (λ (t : Turn). t.0 ≡ m)
      (str_eq method (codes "fs/read_text_file")
        || str_eq method (codes "fs/write_text_file")
        || starts_with (codes "terminal/") method)
      _ _ (λ _. refl) (λ _. refl)

module _ (repr : JsonValue → Str) (m : AcpMachine) where
  gated_update-Silent :
      (update : Fields) (kind : JsonValue) (b : Bool) → Silent m (gated_update repr m update kind b)
  unfolding Silent gated_update complain observed
  gated_update-Silent update kind b = ground (arith, turn_update-Silent m update kind)

  fold_update-Silent : (v : JsonValue) (t : Turn) → fold_update repr m v ≡ ok t → Silent m t
  unfolding fold_update complain observed Silent
  fold_update-Silent (obj update) t h =
      let kind = get update (codes "sessionUpdate") in
      let (b, _, e) =
        bind-ok (kind_among kind turn_update_kinds) (λ b. ok (gated_update repr m update kind b))
          h in
      subst (Silent m) (ok-injective e) (gated_update-Silent update kind b)
  fold_update-Silent v t h = ground arith

  session_update-Silent :
      (session_id : Option Str) (params : Fields) (t : Turn)
      → session_update repr m session_id params ≡ ok t
      → Silent m t
  unfolding Silent session_update complain observed
  session_update-Silent none params t h = ground arith
  session_update-Silent (some session_id) params t h =
      ground (arith, fold_update-Silent (get params (codes "update")) t)

  pub handle_notification-Silent :
      (method : Str) (params : JsonValue) (t : Turn)
      → handle_notification repr m method params ≡ ok t
      → Silent m t
  unfolding handle_notification Silent
  handle_notification-Silent method params t h =
      ground (arith, session_update-Silent m.session_id (as_dict params) t)
