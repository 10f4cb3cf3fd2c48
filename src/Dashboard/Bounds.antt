-- ===== src/Dashboard/Bounds.antt =====
-- dashboard.py, `_run`: all that an iteration writes is inside the screen.
use thelio_fans.Prelude.{
  ℕ, ◌+◌, ◌-◌, ℤ, ◌≡◌, Option, none, some, Bool, false, List, [], ◌∷◌, ◌++◌, length, All,
  All-append, ◌>>=◌, if_elim,
}
use mathlib.Core.Path.{subst}
use thelio_fans.Float.{Float}
use thelio_fans.Snapshot.{Snapshot}
use thelio_fans.Dashboard.Histories.{Histories}
use thelio_fans.Dashboard.Colors.{yellow}
use thelio_fans.Dashboard.FanRows.{Line}
use thelio_fans.Dashboard.View.{View, drawn, page_of}
use thelio_fans.Dashboard.Screen.{color_pair, Written, IsInside, put-IsInside}
use thelio_fans.Dashboard.Layout.{charts}
use thelio_fans.Dashboard.Fit.{Drawn, charts_below}
use thelio_fans.Dashboard.Frame.{
  Terminal, is_small, put_lines, put_title, put_status, put_table, put_footer, frame, with_charts,
  lines_now,
}

module _ {F : Type 0} ⦃f : Float F⦄ (t : Terminal F) (interval : F) where
  abbrev pub Inside : List Written → Type 0
  Inside = All (IsInside t.is_printable t.height t.width)

  joined-Inside : (v w : List Written) → Inside v → Inside w → Inside (v ++ w)
  joined-Inside = All-append (IsInside t.is_printable t.height t.width)

  put_lines-Inside : (row : ℕ) (lines : List Line) → Inside (put_lines t interval row lines)
  unfolding put_lines
  put_lines-Inside row [] = tt
  put_lines-Inside row ((text, color) ∷ lines) =
      joined-Inside _ _ (put-IsInside t.is_printable t.height t.width row text _ _)
        (put_lines-Inside (row + 1) lines)

  put_table-Inside : (top : ℕ) (lines : List Line) → Inside (put_table t interval top lines)
  unfolding put_table
  put_table-Inside top lines =
      if_elim Inside (is_small t.height t.width) _ _
        (λ _.
          put-IsInside t.is_printable t.height t.width 3 "  Enlarge terminal to at least 38 x 8."
            (color_pair yellow) false)
        (λ _. put_lines-Inside top lines)

  put_title-Inside :
      (snapshot : Snapshot F) (paused : Bool) → Inside (put_title t interval snapshot paused)
  unfolding put_title
  put_title-Inside snapshot paused = put-IsInside t.is_printable t.height t.width 0 _ _ _

  put_status-Inside :
      (snapshot : Snapshot F) (histories : Histories)
      → Inside (put_status t interval snapshot histories)
  unfolding put_status
  put_status-Inside snapshot histories = put-IsInside t.is_printable t.height t.width 1 _ _ _

  put_footer-Inside :
      (offset : ℤ) (page total : ℕ) → Inside (put_footer t interval offset page total)
  unfolding put_footer
  put_footer-Inside offset page total =
      put-IsInside t.is_printable t.height t.width (t.height - 1) _ _ _

  with_charts-Inside :
      (snapshot : Snapshot F) (histories : Histories) (v : View F) (before : List Line)
      (charted : List Written) (top : ℕ)
      → Inside charted
      → Inside (with_charts t interval snapshot histories v before (charted, top)).0
  unfolding with_charts
  with_charts-Inside snapshot histories v before charted top h =
      let lines = lines_now t interval snapshot histories before in
      let (view, shown) = drawn t.height t.width top lines v in
      joined-Inside _ _
        (joined-Inside _ _
          (joined-Inside _ _
            (joined-Inside _ _ (put_title-Inside snapshot v.paused)
              (put_status-Inside snapshot histories))
            h)
          (put_table-Inside top shown))
        (put_footer-Inside view.offset (page_of t.height top) (length lines))

  abbrev IsFramed : Option (List Written × View F × List Line) → Type 0
  IsFramed none = Unit
  IsFramed (some r) = Inside r.0

  framed :
      (P : ℕ → Type 0) (o : Option (List Written × ℕ))
      (k : List Written × ℕ → List Written × View F × List Line)
      → Drawn t.is_printable t.height t.width P o
      → ((w : List Written) (top : ℕ) → Inside w → Inside (k (w, top)).0)
      → IsFramed (o >>= λ c. some (k c))
  framed P none k d h = tt
  framed P (some (w, top)) k (all, p) h = h w top all

  -- Whatever the snapshot, the view and the size of the screen, every text that an iteration writes
  -- begins on a row of the screen and ends left of its last column.
  pub frame-Inside :
      (snapshot : Snapshot F) (histories : Histories) (v : View F) (before : List Line)
      (r : List Written × View F × List Line)
      → frame t interval snapshot histories v before ≡ some r
      → Inside r.0
  unfolding frame
  frame-Inside snapshot histories v before r e = subst IsFramed e (
      framed _ (charts t.is_space t.is_printable t.height t.width interval snapshot histories)
        (with_charts t interval snapshot histories v before)
        (charts_below t.is_space t.is_printable t.height t.width interval snapshot histories)
        (with_charts-Inside snapshot histories v before))
