-- ===== src/Harness/Sends.antt =====
-- Keys, resizes and commands that reach the session through the adapter.
use drei.Base.{
  arith, ℕ, Str, codes, str_eq, ◌≡◌, refl, Bool, true, false, List, [], ◌∷◌, Option, none, some, ok,
  ReturnsUnless, ReturnsUnless-bind, Assoc, lookup, AllValues, AllValues-lookup, if-holds,
  Option-cases, inl, inr,
}
use drei.Files.{FilePort}
use drei.Commands.{Command, Event}
use drei.Keys.{
  Resolution, resolved, unresolved_key, pending_key, resolve, control_keys, meta_keys, x_keys,
  c_keys, is_prefix, bound, plain_key, prefix_command, after_prefix,
}
use drei.Session.State.{Environment, Session}
use drei.Session.Minibuffer.{mode}
use drei.Session.Dispatch.{dispatch}
use drei.Session.Invariant.{IsValid}
use drei.Session.Keeps.Run.{Acceptable, PortRaises}
use drei.Session.Keeps.Dispatch.{dispatch-Keeps}
use drei.Session.Keeps.Answers.{Answerable}
use drei.Harness.{
  Harness, spoken, logged, perform, perform_some, react, route, send_key, one_character,
  minibuffer_command,
}

-- A command that asks nothing of the session.
unfoldable pub is_free : Command → Bool
is_free (Command.deliver_session_effects effects target) = false
is_free (Command.insert_agent_text text target) = false
is_free (Command.create_generated_buffer name) = false
is_free (Command.display_buffer target) = false
is_free (Command.minibuffer_input char) = false
is_free _ = true

is_free-Acceptable : (cmd : Command) (s : Session) → is_free cmd ≡ true → Acceptable cmd s
unfolding is_free
is_free-Acceptable (Command.deliver_session_effects effects target) s h = ground arith
is_free-Acceptable (Command.insert_agent_text text target) s h = ground arith
is_free-Acceptable (Command.create_generated_buffer name) s h = ground arith
is_free-Acceptable (Command.display_buffer target) s h = ground arith
is_free-Acceptable (Command.minibuffer_input char) s h = ground arith
is_free-Acceptable cmd s h = tt

-- What a key resolves to asks nothing of the session.
abbrev IsFree : Resolution → Type 0
IsFree (resolved cmd) = is_free cmd ≡ true
IsFree _ = true ≡ true

free_lookup :
    (key : Str) (table : Assoc Command) (cmd : Command)
    → AllValues (λ c. is_free c ≡ true) table
    → lookup key table ≡ some cmd
    → is_free cmd ≡ true
free_lookup key table cmd all h = AllValues-lookup (λ c. is_free c ≡ true) key table cmd all h

plain_key-IsFree : (is_printable : ℕ → Bool) (key : Str) → IsFree (plain_key is_printable key)
unfolding plain_key is_free
plain_key-IsFree is_printable [] = refl
plain_key-IsFree is_printable (c ∷ []) =
    if-holds IsFree (is_printable c) _ _ (λ _. refl) (λ _. refl)
plain_key-IsFree is_printable (c ∷ d ∷ key) = refl

tables-free :
    AllValues (λ c. is_free c ≡ true) control_keys
    × AllValues (λ c. is_free c ≡ true) meta_keys
    × AllValues (λ c. is_free c ≡ true) x_keys
    × AllValues (λ c. is_free c ≡ true) c_keys
unfolding is_free
tables-free = (
  (refl, (refl, (refl, (refl, (refl, (refl, (refl, (refl, tt)))))))),
  (refl, (refl, tt)),
  (refl, (refl, (refl, (refl, (refl, (refl, (refl, (refl, (refl, tt))))))))),
  (refl, tt),
)

-- A command from a table, or none.
IsFreeOption : Option Command → Type 0
IsFreeOption none = true ≡ true
IsFreeOption (some cmd) = is_free cmd ≡ true

lookup-IsFree :
    (key : Str) (table : Assoc Command)
    → AllValues (λ c. is_free c ≡ true) table
    → IsFreeOption (lookup key table)
unfolding IsFreeOption
lookup-IsFree key table all = elim (Option-cases (lookup key table)) [
  | inl e ↦ rw e refl
  | inr (cmd, e) ↦ rw e (free_lookup key table cmd all e)
]

bound-IsFree :
    (control meta : Option Command) (other : Resolution)
    → IsFreeOption control
    → IsFreeOption meta
    → IsFree other
    → IsFree (bound control meta other)
unfolding IsFreeOption bound
bound-IsFree (some cmd) meta other f g h = f
bound-IsFree none (some cmd) other f g h = g
bound-IsFree none none other f g h = h

prefix_command-IsFree : (pending key : Str) → IsFreeOption (prefix_command pending key)
unfolding prefix_command IsFreeOption
prefix_command-IsFree pending key =
    if-holds IsFreeOption (str_eq pending (codes "C-x")) _ _
      (λ _. lookup-IsFree key x_keys tables-free.2)
      (λ _.
        if-holds IsFreeOption (str_eq pending (codes "C-c")) _ _
          (λ _. lookup-IsFree key c_keys tables-free.3) (λ _. refl))

after_prefix-IsFree :
    (pending key : Str) (found : Option Command)
    → IsFreeOption found
    → IsFree (after_prefix pending key found)
unfolding after_prefix IsFreeOption is_free
after_prefix-IsFree pending key (some cmd) f = f
after_prefix-IsFree pending key none f =
    if-holds IsFree (str_eq key (codes "C-g")) _ _ (λ _. refl) (λ _. refl)

resolve-IsFree :
    (is_printable : ℕ → Bool) (pending : Option Str) (key : Str)
    → IsFree (resolve is_printable pending key)
unfolding resolve
resolve-IsFree is_printable (some pending) key =
    after_prefix-IsFree pending key (prefix_command pending key) (prefix_command-IsFree pending key)
resolve-IsFree is_printable none key =
    if-holds IsFree (is_prefix key) _ _ (λ _. refl)
      (λ _.
        bound-IsFree (lookup key control_keys) (lookup key meta_keys) (plain_key is_printable key)
          (lookup-IsFree key control_keys tables-free.0) (lookup-IsFree key meta_keys tables-free.1)
          (plain_key-IsFree is_printable key))

module _ (s : Session) (a : Answerable (mode s)) where
  -- A command that is acceptable, or none.
  Fits : Option Command → Type 0
  Fits none = true ≡ true
  Fits (some cmd) = Acceptable cmd s

  one_character-Fits : (is_printable : ℕ → Bool) (key : Str) → Fits (one_character is_printable key)
  unfolding one_character Fits
  one_character-Fits is_printable [] = refl
  one_character-Fits is_printable (c ∷ []) = if-holds Fits (is_printable c) _ _ (λ _. a) (λ _. refl)
  one_character-Fits is_printable (c ∷ d ∷ key) = refl

  minibuffer_command-Fits :
      (is_printable : ℕ → Bool) (key : Str) → Fits (minibuffer_command is_printable key)
  unfolding minibuffer_command Fits
  minibuffer_command-Fits is_printable key =
      if-holds Fits (str_eq key (codes "RET")) _ _ (λ _. tt)
        (λ _.
          if-holds Fits (str_eq key (codes "DEL")) _ _ (λ _. tt)
            (λ _.
              if-holds Fits (str_eq key (codes "C-g")) _ _ (λ _. tt)
                (λ _. one_character-Fits is_printable key)))

-- The command that a resolution comes to.
abbrev pub commanded : Resolution → Option Command
commanded (resolved cmd) = some cmd
commanded _ = none

-- The command that a key stands for: with the minibuffer open it is the minibuffer's.
abbrev pub key_command : (ℕ → Bool) → Option Str → Option Str → Str → Option Command
key_command is_printable pending none key = commanded (resolve is_printable pending key)
key_command is_printable pending (some input) key = minibuffer_command is_printable key

-- What the port must have raised for a key to raise.
abbrev pub KeyRaises : Option Command → FilePort → Type 0
KeyRaises none port = ⊥
KeyRaises (some cmd) port = PortRaises cmd port

module _ (env : Environment) (h : Harness) (v : IsValid h.session) where
  Landed : Harness × Option (List Event) → Type 0
  Landed r = IsValid r.0.session

  perform-Landed :
      (cmd : Command)
      → Acceptable cmd h.session
      → ReturnsUnless (PortRaises cmd env.files) (perform env cmd h) Landed
  unfolding perform Landed spoken logged
  perform-Landed cmd a =
      ReturnsUnless-bind (dispatch env cmd h.session) (λ s. ok (spoken s h, some s.events))
        (dispatch-Keeps env cmd h.session v a) (λ s w. inl (_, refl, w))

  perform_some-Landed :
      (a : Answerable (mode h.session)) (found : Option Command)
      → Fits h.session a found
      → ReturnsUnless (KeyRaises found env.files) (perform_some env found h) Landed
  unfolding perform_some Landed Fits
  perform_some-Landed a none f = inl (_, refl, v)
  perform_some-Landed a (some cmd) f = perform-Landed cmd f

  react-Landed :
      (r : Resolution)
      → IsFree r
      → ReturnsUnless (KeyRaises (commanded r) env.files) (react env r h) Landed
  unfolding react Landed
  react-Landed (pending_key prefix) f = inl (_, refl, v)
  react-Landed (unresolved_key key) f = inl (_, refl, v)
  react-Landed (resolved cmd) f = perform-Landed cmd (is_free-Acceptable cmd h.session f)

  route-Landed :
      (is_printable : ℕ → Bool) (input : Option Str) (key : Str)
      → Answerable (mode h.session)
      → ReturnsUnless
          (KeyRaises (key_command is_printable h.pending input key) env.files)
          (route env is_printable input key h)
          Landed
  unfolding route
  route-Landed is_printable none key a =
      react-Landed (resolve is_printable h.pending key) (resolve-IsFree is_printable h.pending key)
  route-Landed is_printable (some input) key a =
      perform_some-Landed a (minibuffer_command is_printable key)
        (minibuffer_command-Fits h.session a is_printable key)

-- Over a valid session, in which a permission prompt that is open can be answered by a key, every key
-- that is sent, bound or not, with a prefix pending or not, returns and leaves a valid session,
-- unless it stands for a command that reaches the port and the port raises what nobody catches; then
-- that is raised.
pub send_key-Returns :
    (env : Environment) (is_printable : ℕ → Bool) (h : Harness) (key : Str)
    → IsValid h.session
    → Answerable (mode h.session)
    → ReturnsUnless
        (KeyRaises (key_command is_printable h.pending h.session.minibuffer key) env.files)
        (send_key env is_printable key h)
        (λ r. IsValid r.0.session)
unfolding Landed send_key
send_key-Returns env is_printable h key v a =
    route-Landed env h v is_printable h.session.minibuffer key a
