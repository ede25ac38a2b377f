-- ===== src/Harness/Begin.antt =====
-- `EditorHarness.from_genesis`. A dimension is an int or None; what is no int is left out.
use drei.Base.{
  ℕ, ℤ, pos, negsuc, Bool, true, false, ◌||◌, not, Option, none, some, if◌then◌else◌, ◌==◌, Result,
  ok, raise, value_error, ◌>>=◌,
}
use drei.Genesis.{FrameGenesis, known_frame, unknown_frame, SessionGenesis}
use drei.Session.Start.{start}
use drei.Harness.{Harness, initialize_adapter}

unfoldable pub is_negative : Option ℤ → Bool
is_negative (some (negsuc n)) = true
is_negative _ = false

-- value is not None and value != known
unfoldable pub differs : Option ℤ → ℕ → Bool
differs none known = false
differs (some (pos n)) known = not (n == known)
differs (some (negsuc n)) known = true

unfoldable pub conflicts : FrameGenesis → Option ℤ → Option ℤ → Bool
unfolding differs
conflicts (known_frame w h) width height = differs width w || differs height h
conflicts unknown_frame width height = false

-- The value, or the default; negative ones were refused before.
unfoldable pub dimension : Option ℤ → ℕ → ℕ
dimension (some (pos n)) default = n
dimension _ default = default

unfoldable pub frame_width : FrameGenesis → ℕ
frame_width (known_frame w h) = w
frame_width unknown_frame = 80

unfoldable pub frame_height : FrameGenesis → ℕ
frame_height (known_frame w h) = h
frame_height unknown_frame = 24

unfoldable pub begin_session : SessionGenesis → Option ℤ → Option ℤ → Result Harness
unfolding start dimension frame_width frame_height initialize_adapter
begin_session genesis width height = do
  s ← start genesis
  ok (
      initialize_adapter (dimension width (frame_width genesis.frame))
        (dimension height (frame_height genesis.frame)) s)

unfoldable pub from_genesis : SessionGenesis → Option ℤ → Option ℤ → Result Harness
unfolding is_negative conflicts begin_session
from_genesis genesis width height =
    if is_negative width || is_negative height
    then raise value_error
    else if conflicts genesis.frame width height
    then raise value_error
    else begin_session genesis width height
