-- ===== src/Lib.antt =====
-- Drei, an editor in the manner of Emacs that hosts an agent (src/drei).
--
-- The program. `EditorSession` (src/drei/session.py) is the core: `dispatch` takes one command
-- at a time, changes the session and answers with events. A command comes from the keyboard, from
-- a process, or from the agent's client (src/drei/acp), whose deliveries are appended to buffers
-- that were generated for it. A session begins from a genesis (src/drei/genesis.py), which is
-- checked evidence about its first buffer, and reads and writes files through a port
-- (src/drei/files.py). Nothing else changes a session.
--
-- The files.
--   Base       what the rest shares: tests on numbers, lists, texts as code points, dictionaries
--              in insertion order, Python exceptions as results (`Returns r P`: `r` returns, with
--              a value that satisfies `P`; `ReturnsUnless R r P`: or the file port raised, as
--              `R` says, and `r` passes that on).
--   Buffer     `BufferValue` of src/drei/model.py and the marker rules of session.py.
--   Commands   the commands and events of src/drei/commands.py.
--   Files      src/drei/files.py: line endings, error tokens, the resolver of a visit.
--   Process    the values of src/drei/process.py.
--   Genesis    src/drei/genesis.py: the checks of the first buffer and the three builders.
--   Acp        src/drei/acp: JSON values and the client's effects (Json, Effects), the envelopes
--              of messages.py (Messages), the framing of codec.py (Codec), the dicts that request
--              ids key (Ids), `AcpMachine` of machine.py (Machine), and transcript.py, which turns
--              effects into text (Transcript, Format). In Machine, Options has the options of a
--              permission request, Answers `resolve_permission` and `cancel`, Responses and Inbound
--              the branches of `handle`; Invariant, Resolved, Unchanged and Keeps have the lemmas
--              behind Reached, Consent, Once, Sweeps, Errors and Moves, Arrivals where an answer leads.
--   Editing    the twelve editing commands of `dispatch` as functions of a buffer's value, its
--              editing state and the kill ring (Text, Moves, Kills, Yanks, Undos), and the
--              bookkeeping after them (Bookkeeping). Groups has the undo stacks, Invariant the
--              invariant, Keeps what each command keeps, Restores what undo brings back, Places
--              where an undo group leads, Again what redo does and Reinsert what a yank does.
--   Session    `EditorSession` as a record that its operations pass on: State, Names, Buffers,
--              Windows, Saving, Choice, Exit, Agent, Minibuffer, Start, and Dispatch, which puts
--              them together. Invariant has the invariant of a session; Stored and Working are its
--              lemmas between the steps of a dispatch; Keeps has one module for each group of
--              operations. Begins, Runs, Edits, Redos, Saves, Appends and Exits are about whole
--              sessions. Observation is the view of a session that is drawn.
--   Keys       the resolver of src/drei/keys.py, and Chords, its lemmas.
--   Input      the event queue of src/drei/input.py, and Lanes, runs of its operations.
--   Harness    `EditorHarness` of src/drei/harness.py: `send`, here `send_key`, `resize` and `apply`
--              over a session, with the echo and the note; Begin has `from_genesis`, Frames the
--              frame that it draws, and Sends the lemmas on keys.
--   Render     src/drei/render.py, from an observation to a frame: rows and the frame of one buffer
--              in Render, the stack of panes of a session in Stack. Rows, Heights and Panes have
--              the lemmas on them, Lone those on a session with one window.
--
-- How it corresponds. A method that changes the session is a function from sessions to sessions,
-- or to results of sessions where it can raise; names are those of the source, without the leading
-- underscore. `_buffers` and `_states` are written together, so one dictionary of entries stands
-- for both. An exception is a `raise`; the session that it leaves behind is not modelled. The file
-- port is a parameter (`Environment.files`): an operation of it returns, raises an OSError (or, for
-- a read, a UnicodeDecodeError), or raises something that `resolve_visit` and `_save` do not catch,
-- such as the ValueError for a path with a null character and the UnicodeEncodeError for a text with
-- a lone surrogate. That last raise is `port_error`, and leaves a dispatch. A dispatch calls the port
-- at most once, and each command of a run has a port of its own. Also a parameter is Python's text of a JSON value that is no text
-- (`Environment.show_json`). `Session.written` is the trace of the texts that the port accepted.
--
-- `AcpStateError` is the result `state_error`, and each raise of an `AcpProtocolError` is a
-- constructor. `json.loads`, `json.dumps`, the encoding of a text and Python's `repr` are parameters.
-- `decode_line` turns every line that `json.loads` refuses into a failure; the raises of `json.loads`
-- other than JSONDecodeError and UnicodeDecodeError, which leave the decoder (the limit on the digits
-- of an integer, RecursionError), lie outside the parameter.
--
-- Bounds. The undo history holds at most 100 groups and the kill ring 60 entries, as in the source.
-- The search for a buffer name has as much fuel as there are buffers and one more; the names that
-- it tries differ. The decoder's loop has as many turns as the buffer has bytes; each turn takes at
-- least a newline off.
--
-- Not modelled. The pump and the streaming, which move messages between the agent's process and the
-- session; the terminal and the command line, which are input and output. Of the harness the
-- constructor for tests and the accessors; a frame is drawn from the state when it is asked for, and
-- not stored. Of the queue the lock and the threads, so that each of its operations is one step. The
-- shell `Buffer` is a mutable cell with an identity of its own, which no operation of a session
-- looks at.
pub mod Base
pub mod Acp
pub mod Files
pub mod Process
pub mod Buffer
pub mod Genesis
pub mod Commands
pub mod Editing
pub mod Session
pub mod Keys
pub mod Harness
pub mod Render
pub mod Input
