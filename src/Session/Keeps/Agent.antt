-- ===== src/Session/Keeps/Agent.antt =====
-- Deliveries from the agent: the target that a command names or mints, and the text appended to it.
use drei.Base.{
  ℕ, zero, suc, ◌+◌, ◌≡◌, refl, Str, All, lookup, Bool, true, false, List, [], ◌∷◌, ◌++◌, some,
  length, length-append, get_elem?, ◌==◌, if◌then◌else◌, Returns, Returns-bind, arith,
}
use drei.Acp.Json.{JsonValue, str, null, bool, int, float, arr, obj}
use drei.Acp.Effects.{SessionEffect, agent_text_chunk, thought_chunk}
use drei.Acp.Transcript.{TranscriptFold, advance, advance_all, text_of}
use drei.Buffer.{BufferValue, InBounds, checked-ok, adjust_mark_insert, adjust_mark_insert-MarkIn}
use drei.Commands.{Command, agent_text_inserted, agent_transcript_updated}
use drei.Editing.State.{generated}
use drei.Editing.Bookkeeping.{bookkeeping}
use drei.Editing.Valid.{bookkeeping-quiet, IsValid-append}
use drei.Session.State.{Entry, WindowValue, Session, emit}
use drei.Session.Agent.{
  follow_from, tail_follow_windows, append_agent_text, fold_of, render_effects,
}
use drei.Session.Dispatch.{or_current, deliver_effects}
use drei.Session.Stored.{IsStored-insert, IsStored-layout}
use drei.Session.Working.{IsWorking, emit-IsWorking, AllQuiet-IsQuiet, Replaces-self}
use drei.Session.Keeps.Buffers.{KeepsKind-same, entry_valid}
use drei.Session.Keeps.Commit.{Ready, Lands-Ready}

-- The texts of the chunks are texts.
abbrev pub IsText : JsonValue → Type 0
IsText (str s) = Unit
IsText _ = ⊥

abbrev pub IsTextual : SessionEffect → Type 0
IsTextual (agent_text_chunk v) = IsText v
IsTextual (thought_chunk v) = IsText v
IsTextual _ = Unit

text_of-Returns : (v : JsonValue) → IsText v → Returns (text_of v) (λ s. Unit {0})
unfolding text_of
text_of-Returns (str s) h = (s, refl, tt)
text_of-Returns null h = absurd h
text_of-Returns (bool b) h = absurd h
text_of-Returns (int n) h = absurd h
text_of-Returns (float b s) h = absurd h
text_of-Returns (arr vs) h = absurd h
text_of-Returns (obj fs) h = absurd h

advance-Returns :
    (fold : TranscriptFold) (effect : SessionEffect)
    → IsTextual effect
    → Returns (advance fold effect) (λ r. Unit {0})
unfolding advance
advance-Returns fold (agent_text_chunk v) h =
    Returns-bind (text_of v) _ (text_of-Returns v h) (λ s u. (_, refl, tt))
advance-Returns fold (thought_chunk v) h =
    Returns-bind (text_of v) _ (text_of-Returns v h) (λ s u. (_, refl, tt))
advance-Returns fold effect h = (_, refl, tt)

advance_all-Returns :
    (effects : List SessionEffect) (fold : TranscriptFold)
    → All IsTextual effects
    → Returns (advance_all fold effects) (λ r. Unit {0})
unfolding advance_all
advance_all-Returns [] fold h = (_, refl, tt)
advance_all-Returns (effect ∷ rest) fold h =
    Returns-bind (advance fold effect) _ (advance-Returns fold effect h.0) (λ r u.
      Returns-bind (advance_all r.0 rest) _ (advance_all-Returns rest r.0 h.1)
        (λ t v. (_, refl, tt)))

-- The windows show what they showed, the focused one at its place.
follow_from-All :
    (P : Str → Type 0) (i focused : ℕ) (k : Str) (before after : ℕ) (ws : List WindowValue)
    → All (λ (w : WindowValue). P w.buffer_id) ws
    → All (λ (w : WindowValue). P w.buffer_id) (follow_from i focused k before after ws)
unfolding follow_from
follow_from-All P i focused k before after [] h = tt
follow_from-All P i focused k before after (w ∷ ws) h =
    (moved _ h.0, follow_from-All P (i + 1) focused k before after ws h.1)
  where
    moved : (b : Bool) → P w.buffer_id → P (if b then record w { point = after } else w).buffer_id
    moved true p = p
    moved false p = p

follow_from-shows :
    (i focused : ℕ) (k : Str) (before after : ℕ) (ws : List WindowValue) (j : ℕ) (w : WindowValue)
    → i + j ≡ focused
    → get_elem? ws j ≡ some w
    → get_elem? (follow_from i focused k before after ws) j ≡ some w
unfolding follow_from
follow_from-shows i focused k before after [] j w e h = cc
follow_from-shows i focused k before after (v ∷ ws) zero w e h = ground arith
follow_from-shows i focused k before after (v ∷ ws) (suc j) w e h =
    follow_from-shows (i + 1) focused k before after ws j w (omega arith) h

-- What is appended to a generated buffer is ready to be committed to it.
module _ (cmd : Command) (target : Str) (s : Session) (e : Entry) (h : IsWorking s)
    (found : lookup target s.buffers ≡ some e) (kind : e.state.kind ≡ generated) where
  abbrev appended : Str → BufferValue
  appended text = record (e.value) {
    text = e.value.text ++ text;
    point =
        if e.value.point == length e.value.text
        then length e.value.text + length text
        else e.value.point;
    mark = adjust_mark_insert e.value.mark (length e.value.text) (length text);
  }

  followed : Str → Session
  followed text =
      emit
        (agent_text_inserted text (length e.value.text) (length e.value.text + length text) target)
        (tail_follow_windows target (length e.value.text) (length e.value.text + length text) s)

  appended-InBounds : (text : Str) → InBounds (appended text)
  appended-InBounds text =
      let b = (entry_valid s target e h.base found).in_bounds in
      let n = length-append e.value.text text in
      record {
        point_in = ground (arith, n, b.point_in);
        mark_in = rw n (
            adjust_mark_insert-MarkIn e.value.mark (length e.value.text) (length text)
              (length e.value.text) b.mark_in);
      }

  followed-IsWorking : (text : Str) → IsWorking (followed text)
  unfolding followed tail_follow_windows
  followed-IsWorking text =
      let (w, at, shows) = h.base.stored.focus_shows in
      let after = length e.value.text + length text in
      emit-IsWorking (agent_text_inserted text (length e.value.text) after target) refl (record {
        base = record {
          stored =
              IsStored-layout h.base.stored h.base.stored.current_in
                (follow_from-All _ 0 s.focused target (length e.value.text) after s.windows
                  h.base.stored.windows_in)
                (
                  w,
                  follow_from-shows 0 s.focused target (length e.value.text) after s.windows
                      s.focused w (omega arith) at,
                  shows,
                );
          pending_in = h.base.pending_in;
          quiet = h.base.quiet;
        };
        prompted = h.prompted;
      })

  appended-Ready : (text : Str) → Ready cmd e.value (some target) (followed text, appended text)
  unfolding or_current
  appended-Ready text =
      let f = followed-IsWorking text in
      let st = bookkeeping cmd e.value (followed text).events e.state in
      let same =
        bookkeeping-quiet cmd e.value (followed text).events e.state
          (AllQuiet-IsQuiet e.value (followed text).events f.base.quiet) in
      let v =
        IsValid-append e.value (appended text) e.state st text (entry_valid s target e h.base found)
          same (appended-InBounds text) refl kind in
      let here : lookup target (followed text).buffers ≡ some e =
        unfold followed emit tail_follow_windows in found in
      record {
        entry = e;
        found = here;
        stored =
            IsStored-insert target (record { value = appended text; state = st }) f.base.stored v
              (KeepsKind-same target (record { value = appended text; state = st }) e
                (followed text).buffers here same.kind);
        prompted = f.prompted;
        pending_in = f.base.pending_in;
      }

  pub append-Ready :
      (text : Str)
      → Returns (append_agent_text e.value text target s) (Ready cmd e.value (some target))
  unfolding append_agent_text followed
  append-Ready [] = (
    (s, e.value),
    refl,
    Lands-Ready cmd e.value (some target) (s, e.value)
        (record {
          working = h;
          entry = e;
          found = unfold or_current in found;
          fits = Replaces-self e (entry_valid s target e h.base found);
        }),
  )
  append-Ready (c ∷ cs) = (
    (followed (c ∷ cs), appended (c ∷ cs)),
    rw (checked-ok (appended (c ∷ cs)) (appended-InBounds (c ∷ cs))) refl,
    appended-Ready (c ∷ cs),
  )

render_effects-Keeps :
    (effects : List SessionEffect) (target : Str) (s : Session)
    → All IsTextual effects
    → IsWorking s
    → Returns (render_effects effects target s) (λ r. IsWorking r.0 × (r.0.buffers ≡ s.buffers))
unfolding render_effects
render_effects-Keeps effects target s texts h =
    Returns-bind (advance_all (fold_of (lookup target s.agent_folds)) effects) _
      (advance_all-Returns effects (fold_of (lookup target s.agent_folds)) texts)
      (λ r u. (
        _,
        refl,
        (
          record {
            base = record {
              stored = h.base.stored;
              pending_in = h.base.pending_in;
              quiet = h.base.quiet;
            };
            prompted = h.prompted;
          },
          refl,
        ),
      ))

pub deliver_effects-Ready :
    (cmd : Command) (effects : List SessionEffect) (target : Str) (s : Session) (e : Entry)
    → All IsTextual effects
    → IsWorking s
    → lookup target s.buffers ≡ some e
    → e.state.kind ≡ generated
    → Returns (deliver_effects effects target e.value s) (Ready cmd e.value (some target))
unfolding deliver_effects
deliver_effects-Ready cmd effects target s e texts h found kind =
    Returns-bind (render_effects effects target s) _ (render_effects-Keeps effects target s texts h)
      (λ r w.
        append-Ready cmd target (emit (agent_transcript_updated effects r.1 target) r.0) e
          (emit-IsWorking (agent_transcript_updated effects r.1 target) refl w.0)
          (unfold emit in rw w.1 found) kind r.1)
