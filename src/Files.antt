-- ===== src/Files.antt =====
-- The file effect port and the visit resolver, drei/files.py. The port is a `Protocol`: what it
-- answers is a parameter of every command.
pub mod LineEndings
use drei.Base.{
  ℕ, Str, codes, is_empty, Bool, true, false, ◌||◌, List, [], ◌∷◌, Option, none, some, ◌==◌,
  if◌then◌else◌, Result, ok, raise, port_error,
}
pub use LineEndings.{LineEnding, lf, crlf}
unfoldable pub use LineEndings.{detect_line_ending, to_buffer_text, to_file_text}

-- The classes of OSError that `normalize_os_error` tells apart.
pub data OsError : Type 0 where
  file_not_found permission_error other_os_error : OsError

-- The tokens of Drei's events: of files, of a buffer with no file, and of processes.
pub data ErrorToken : Type 0 where
  not_found permission_denied io_error empty_basename no_file timeout : ErrorToken

unfoldable pub normalize_os_error : OsError → ErrorToken
normalize_os_error file_not_found = not_found
normalize_os_error permission_error = permission_denied
normalize_os_error other_os_error = io_error

-- What `read` does: returns the text, or raises. `read_raises` is a raise that the visit resolver does
-- not catch, such as the ValueError for a path with a null character.
pub data ReadResult : Type 0 where
  contents : Str → ReadResult
  undecodable : ReadResult
  read_error : OsError → ReadResult
  read_raises : ReadResult

-- What `write` does: returns None, raises an OSError, or raises what `_save` does not catch, such as
-- the UnicodeEncodeError for a text with a lone surrogate.
pub data WriteResult : Type 0 where
  write_returns : WriteResult
  write_error : OsError → WriteResult
  write_raises : WriteResult

-- What one call of each operation does. A later call may do something else: each command that is
-- dispatched has a port of its own.
pub record FilePort : Type 0 where
  pub read : Str → ReadResult
  pub write : Str → Str → WriteResult

pub data Origin : Type 0 where
  existing_file missing_file : Origin

pub record VisitOpened : Type 0 where
  pub origin : Origin
  pub path : Str
  pub buffer_id : Str
  pub text : Str
  pub saved_text : Str
  pub line_ending : LineEnding

pub data VisitResolution : Type 0 where
  opened : VisitOpened → VisitResolution
  rejected : ErrorToken → VisitResolution

unfoldable pub is_separator : ℕ → Bool
is_separator c = c == b'/' || c == 92

unfoldable pub has_separator : Str → Bool
unfolding is_separator
has_separator [] = false
has_separator (c ∷ s) = is_separator c || has_separator s

-- path.replace("\\", "/").rsplit("/", 1)[-1]: what follows the last separator of either kind.
unfoldable pub basename : Str → Str
unfolding has_separator
basename [] = []
basename (c ∷ s) =
    let rest = basename s in if has_separator s then rest else if is_separator c then s else c ∷ s

unfoldable pub resolve_read : Str → Str → ReadResult → Result VisitResolution
resolve_read path name (contents file_text) =
    let line_ending = detect_line_ending file_text in
    let text = to_buffer_text file_text line_ending in
    ok (
      opened (record {
        origin = existing_file;
        path = path;
        buffer_id = name;
        text = text;
        saved_text = text;
        line_ending = line_ending;
      }))
resolve_read path name undecodable = ok (rejected io_error)
resolve_read path name (read_error file_not_found) = ok (
    opened (record {
      origin = missing_file;
      path = path;
      buffer_id = name;
      text = [];
      saved_text = [];
      line_ending = lf;
    }))
resolve_read path name (read_error e) = ok (rejected (normalize_os_error e))
resolve_read path name read_raises = raise port_error

unfoldable pub resolve_visit : FilePort → Str → Result VisitResolution
unfolding resolve_read basename
resolve_visit port path =
    let name = basename path in
    if is_empty name then ok (rejected empty_basename) else resolve_read path name (port.read path)
