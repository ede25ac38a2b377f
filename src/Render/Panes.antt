-- ===== src/Render/Panes.antt =====
-- The frame of a whole session: its size, its rows and its cursor.
use drei.Base.{
  arith, ℕ, zero, suc, ◌+◌, ◌-◌, ◌≤◌, ◌<◌, Str, is_empty, ◌≡◌, refl, sym, ◌∙◌, List, [], ◌∷◌, ◌++◌,
  Option, none, some, if◌then◌else◌, ◌==◌, length, length-append, get_elem?_lt, All, All-append,
  if-holds, ok, Returns, Returns-bind, Returns-if, subst, ==_iff,
}
use drei.Render.{
  BufferObservation, SessionObservation, Frame, clip, render_body, modeline, cursor_position,
  prompt_row, prompt_column, render_single_row, echo_row, first_cursor,
}
use drei.Render.Stack.{
  window_heights, visible_start, visible_count, on_minibuffer, pane_rows, draw_panes, draw_stack,
  draw_single, render_session,
}
use drei.Render.Rows.{
  IsRow, clip-IsRow, render_body-IsRow, length-render_body, IsWithin, cursor_position-IsWithin,
}
use drei.Render.Heights.{total_height, window_heights-fill}

-- What a frame of this size is: `height` rows, each a row, and the cursor within it.
pub record IsDrawn (width height : ℕ) (rows : List Str) (cursor : ℕ × ℕ) : Type 0 where
  pub tall : length rows ≡ height
  pub drawn : All (IsRow width) rows
  pub within : IsWithin width height cursor

-- The rows of some panes, and the cursor so far.
unfoldable pub IsPanes : ℕ → ℕ → ℕ → List Str → ℕ × ℕ → Type 0
IsPanes width height n rows cursor =
    (length rows ≡ n) × All (IsRow width) rows × IsWithin width height cursor

pane_rows-IsRow :
    (o : BufferObservation) (width h : ℕ)
    → 1 ≤ h
    → (length (pane_rows o width h) ≡ h) × All (IsRow width) (pane_rows o width h)
unfolding pane_rows
pane_rows-IsRow o width h p =
    let body = render_body o.text width (h - 1) in
    let bar = clip (modeline o) width ∷ [] in
    (
      ground (arith, length-append body bar, length-render_body o.text width (h - 1)),
      All-append (IsRow width) body bar (render_body-IsRow o.text width (h - 1))
          (clip-IsRow (modeline o) width, tt),
    )

draw_panes-IsDrawn :
    (o : SessionObservation) (width height index : ℕ) (heights : List ℕ) (offset : ℕ)
    (cursor : ℕ × ℕ)
    → index + length heights ≤ length o.windows
    → All (λ h. 1 ≤ h) heights
    → offset + total_height heights ≤ height - 1
    → IsWithin width height cursor
    → Returns
        (draw_panes o width index heights offset cursor)
        (λ r. IsPanes width height (total_height heights) r.0 r.1)
unfolding draw_panes total_height IsPanes
draw_panes-IsDrawn o width height index [] offset cursor i p t c = (_, refl, (refl, tt, c))
draw_panes-IsDrawn o width height index (h ∷ hs) offset cursor i (p, ps) t c =
    let (window, e) = get_elem?_lt o.windows index (omega arith) in
    let at = cursor_position window.buffer.text window.point width (h - 1) in
    let moved : ℕ × ℕ =
      if index == o.focused
      then (if on_minibuffer o.minibuffer then cursor else (at.0 + offset, at.1))
      else cursor in
    let near : IsWithin width (h - 1) at =
      cursor_position-IsWithin window.buffer.text window.point width (h - 1) in
    let inside : IsWithin width height moved =
      if-holds (IsWithin width height) (index == o.focused) _ _
        (λ _.
          if-holds (IsWithin width height) (on_minibuffer o.minibuffer) _ _ (λ _. c)
            (λ _. (omega (arith, near.0), near.1)))
        (λ _. c) in
    let (full, rows) = pane_rows-IsRow window.buffer width h p in
    rw e (
      Returns-bind (draw_panes o width (index + 1) hs (offset + h) moved)
        (λ r. ok (pane_rows window.buffer width h ++ r.0, r.1))
        (draw_panes-IsDrawn o width height (index + 1) hs (offset + h) moved (omega arith) ps
          (omega arith) inside)
        (λ r q. (
          _,
          refl,
          (
            length-append (pane_rows window.buffer width h) r.0 ∙ ground (arith, q.0),
            All-append (IsRow width) (pane_rows window.buffer width h) r.0 rows q.1,
            q.2,
          ),
        )))

single_row-IsDrawn :
    (o : BufferObservation) (width : ℕ) (echo note : Str) (input prompt : Option Str)
    → IsDrawn width 1
        (render_single_row o width echo note input prompt).rows
        (render_single_row o width echo note input prompt).cursor
unfolding render_single_row prompt_column
single_row-IsDrawn o width echo note none prompt = record {
  tall = refl;
  drawn = (clip-IsRow (if is_empty echo then modeline o else echo) width, tt);
  within = (omega arith, omega arith);
}
single_row-IsDrawn o width echo note (some input) prompt = record {
  tall = refl;
  drawn = (clip-IsRow (prompt_row prompt note input) width, tt);
  within = (omega arith, omega arith);
}

echo_row-IsRow :
    (input prompt : Option Str) (echo note : Str) (width : ℕ)
    → IsRow width (echo_row input prompt echo note width)
unfolding echo_row
echo_row-IsRow none prompt echo note width = clip-IsRow echo width
echo_row-IsRow (some input) prompt echo note width = clip-IsRow (prompt_row prompt note input) width

first_cursor-IsWithin :
    (input prompt : Option Str) (note : Str) (width height : ℕ)
    → IsWithin width height (first_cursor input prompt note width height)
unfolding first_cursor prompt_column
first_cursor-IsWithin none prompt note width height = (omega arith, omega arith)
first_cursor-IsWithin (some input) prompt note width height = (omega arith, omega arith)

IsFrame : ℕ → ℕ → Frame → Type 0
IsFrame width height f = IsDrawn width height f.rows f.cursor

stack-IsPanes :
    (o : SessionObservation) (width height visible : ℕ) (note : Str)
    → 1 ≤ visible
    → visible ≤ height - 1
    → visible ≤ length o.windows
    → Returns
        (draw_panes o width
          (visible_start (length o.windows) o.focused visible)
          (window_heights (height - 1) visible)
          0
          (first_cursor o.minibuffer o.minibuffer_prompt note width height))
        (λ r. IsPanes width height (height - 1) r.0 r.1)
unfolding visible_start
stack-IsPanes o width height zero note a b c = ground arith
stack-IsPanes o width height (suc n) note a b c =
    let heights = window_heights (height - 1) (suc n) in
    let (t, l, p) = window_heights-fill (height - 1) n b in
    let start = visible_start (length o.windows) o.focused (suc n) in
    subst
      (λ m.
        Returns
          (draw_panes o width start heights 0
            (first_cursor o.minibuffer o.minibuffer_prompt note width height))
          (λ r. IsPanes width height m r.0 r.1))
      t
      (draw_panes-IsDrawn o width height start heights 0
        (first_cursor o.minibuffer o.minibuffer_prompt note width height) (ground (arith, l)) p
        (ground (arith, t))
        (first_cursor-IsWithin o.minibuffer o.minibuffer_prompt note width height))

draw_stack-IsDrawn :
    (o : SessionObservation) (width height : ℕ) (echo note : Str)
    → 2 ≤ height
    → 1 ≤ length o.windows
    → Returns (draw_stack o width height echo note) (IsFrame width height)
unfolding draw_stack visible_count IsFrame IsPanes
draw_stack-IsDrawn o width height echo note h w =
    let visible = visible_count (length o.windows) (height - 1) in
    let last = echo_row o.minibuffer o.minibuffer_prompt echo note width in
    Returns-bind
      (draw_panes o width (visible_start (length o.windows) o.focused visible)
        (window_heights (height - 1) visible) 0
        (first_cursor o.minibuffer o.minibuffer_prompt note width height))
      (λ r. ok (record { rows = r.0 ++ last ∷ []; cursor = r.1; width = width; height = height }))
      (stack-IsPanes o width height visible note (omega arith) (omega arith) (omega arith))
      (λ r q. (
        _,
        refl,
        record {
          tall = length-append r.0 (last ∷ []) ∙ ground (arith, q.0);
          drawn =
              All-append (IsRow width) r.0 (last ∷ []) q.1
                (echo_row-IsRow o.minibuffer o.minibuffer_prompt echo note width, tt);
          within = q.2;
        },
      ))

draw_single-IsDrawn :
    (o : SessionObservation) (width : ℕ) (echo note : Str)
    → o.focused < length o.windows
    → Returns (draw_single o width echo note) (IsFrame width 1)
unfolding draw_single IsFrame
draw_single-IsDrawn o width echo note h =
    let (window, e) = get_elem?_lt o.windows o.focused h in
    rw e
      (_, refl, single_row-IsDrawn window.buffer width echo note o.minibuffer o.minibuffer_prompt)

-- The frame of a session whose focused window is one of its windows, at every size, zero included:
-- drawing it returns; the frame has exactly `height` rows of exactly `width` cells, with no control
-- character in any of them whatever the buffers hold; and the cursor stands within the frame, or at
-- the origin where there is no cell.
pub render_session-IsDrawn :
    (o : SessionObservation) (width height : ℕ) (echo note : Str)
    → o.focused < length o.windows
    → Returns (render_session o width height echo note) (λ f. IsDrawn width height f.rows f.cursor)
unfolding render_session IsFrame
render_session-IsDrawn o width height echo note h =
    Returns-if (height == 0) _ _
      (λ e.
        (_, refl, record { tall = ground arith; drawn = tt; within = (omega arith, omega arith) }))
      (λ e.
        Returns-if (length o.windows == 0) _ _ (λ g. ground arith)
          (λ g.
            Returns-if (height == 1) _ _
              (λ k.
                subst (λ n. Returns (draw_single o width echo note) (IsFrame width n))
                  (sym ((==_iff height 1).0 k)) (draw_single-IsDrawn o width echo note h))
              (λ k. draw_stack-IsDrawn o width height echo note (ground arith) (omega arith))))
