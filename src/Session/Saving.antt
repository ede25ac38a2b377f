-- ===== src/Session/Saving.antt =====
-- Writing a buffer through the file port: `_save` and `_save_buffer`.
use drei.Base.{Str, false, [], ◌∷◌, ◌++◌, Option, none, some, Result, ok, raise, port_error, ◌>>=◌}
use drei.Files.{
  FilePort, WriteResult, write_returns, write_error, write_raises, no_file, normalize_os_error,
}
use drei.Files.LineEndings.{to_file_text}
use drei.Buffer.{BufferValue, checked}
use drei.Commands.{buffer_saved, save_failed}
use drei.Session.State.{Entry, Session, emit, entry_of, put_entry, replace_value}

-- What the port did: an OSError is reported, another raise is passed on, a success clears the flag
-- and moves the clean text.
unfoldable pub after_write :
    Str → Str → Str → Entry → BufferValue → Session → WriteResult → Result (Session × BufferValue)
unfolding emit put_entry
after_write buffer_id path text e current s (write_error error) =
    ok (emit (save_failed path (normalize_os_error error)) s, current)
after_write buffer_id path text e current s write_raises = raise port_error
after_write buffer_id path text e current s write_returns = ok (
  record (emit (buffer_saved path) (
      put_entry buffer_id (record e { state = record (e.state) { saved_text = some current.text } })
        s)) { written = s.written ++ (path, text) ∷ [] },
  record current { modified = false },
)

unfoldable pub save_to :
    FilePort → Str → BufferValue → Session → Option Str → Result (Session × BufferValue)
unfolding after_write emit entry_of
save_to port buffer_id current s none = do
  e ← entry_of s buffer_id
  ok (emit (save_failed buffer_id no_file) s, current)
save_to port buffer_id current s (some path) = do
  e ← entry_of s buffer_id
  cleared ← checked (record current { modified = false })
  let text = to_file_text current.text e.state.eol
  after_write buffer_id path text e current s (port.write path text)

-- `_save`: the session and the new value.
unfoldable pub save : FilePort → BufferValue → Str → Session → Result (Session × BufferValue)
unfolding save_to
save port current buffer_id s = save_to port buffer_id current s current.file_path

-- `_save_buffer`
unfoldable pub save_buffer : FilePort → Str → Session → Result Session
unfolding save entry_of replace_value
save_buffer port buffer_id s = do
  e ← entry_of s buffer_id
  (s', value) ← save port e.value buffer_id s
  replace_value s' buffer_id value
