-- ===== src/Chart/Canvas.antt =====
-- chart.py: what the marks of `render_chart` keep of its two grids.
use Prim.Native.Nat.{bit_or, max, min}
use Prim.Native.Nat
use thelio_fans.Prelude.{
  ℕ, zero, suc, ◌+◌, ◌*◌, ◌/◌, ◌%◌, ◌^◌, ◌≤◌, ◌<◌, ℤ, pos, negsuc, ◌+ℤ◌, ◌-ℤ◌, ◌≡◌, refl, Option,
  none, some, List, length, replicate, All, change, Succeeds, bind-Succeeds, change-Succeeds,
  get_elem-Succeeds, arith, Succeeds-impl, Succeeds-result, get_elem?, sym, ◌∙◌,
}
use mathlib.Core.Path.{subst}
use thelio_fans.Chart.Grid.{
  Canvas, dots, dot_of, position, change_cell, mark, mark_column, stroke, span_of,
}

-- A row of `width` items with a property, and a grid of `height` such rows.
abbrev pub IsRow : {A : Type 0} → (A → Type 0) → ℕ → List A → Type 0
IsRow P width row = (length row ≡ width) × All P row

abbrev pub IsGrid : {A : Type 0} → (A → Type 0) → ℕ → ℕ → List (List A) → Type 0
IsGrid P width height grid = (length grid ≡ height) × All (IsRow P width) grid

-- Eight dots fit in a cell.
abbrev pub IsDots : ℕ → Type 0
IsDots b = b < 256

abbrev pub Anything : {A : Type 0} → A → Type 0
Anything _ = Unit

abbrev pub IsCanvas : ℕ → ℕ → Canvas → Type 0
IsCanvas width height c = IsGrid IsDots width height c.bits × IsGrid Anything width height c.owner

digits-lt : (k n a b : ℕ) → a < 2 ^ k → b < 2 ^ k → Nat.digits (λ z. z) max n a b < 2 ^ k
digits-lt k zero a b h j = j
digits-lt k (suc n) zero b h j = j
digits-lt zero (suc n) (suc a) b h j = absurd (omega (arith, h))
digits-lt (suc k) (suc n) (suc a) b h j =
    let half : Nat.digits (λ z. z) max n (suc a / 2) (b / 2) < 2 ^ k =
      digits-lt k n (suc a / 2) (b / 2) (omega (arith, h)) (omega (arith, j)) in
    omega (arith, half)

-- Two sets of dots together are a set of dots.
pub bit_or-IsDots : (a b : ℕ) → IsDots a → IsDots b → IsDots (bit_or a b)
bit_or-IsDots a b h j = subst IsDots (sym (λ i. Nat.bit_or-bitwise a b i)) (digits-lt 8 a a b h j)

replicate-IsRow : {A : Type 0} (P : A → Type 0) (n : ℕ) (x : A) → P x → IsRow P n (replicate n x)
replicate-IsRow P zero x p = (refl, tt)
replicate-IsRow P (suc n) x p =
    let (size, rest) = replicate-IsRow P n x p in (omega (arith, size), (p, rest))

pub blank-IsGrid :
    {A : Type 0} (P : A → Type 0) (width height : ℕ) (x : A)
    → P x
    → IsGrid P width height (replicate height (replicate width x))
blank-IsGrid P width height x p =
    replicate-IsRow (IsRow P width) height (replicate width x) (replicate-IsRow P width x p)

change_cell_result :
    {A : Type 0} (P : A → Type 0) (width height r c : ℕ) (g : A → A) (grid : List (List A))
    → ((x : A) → P x → P (g x))
    → IsGrid P width height grid
    → r < height
    → c < width
    → (next : List (List A)) × (change_cell (pos r) c g grid ≡ some next)
      × IsGrid P width height next
unfolding change_cell
change_cell_result {A = A} P width height r c g grid keep (size, rows) lr lc =
    let place : position (length grid) (pos r) ≡ some r = ground (arith, size, lr) in
    let changed_row : (row : List A)
        → IsRow P width row
        → Succeeds (IsRow P width) (change c (λ x. some (g x)) row) =
      λ row (n, all).
        Succeeds-impl _ (IsRow P width) (change c (λ x. some (g x)) row) (λ ys q. (q.0 ∙ n, q.1))
          (change-Succeeds P (λ x. some (g x)) c row keep all (omega (arith, n, lc))) in
    let changed : Succeeds (IsGrid P width height) (change r (change c (λ x. some (g x))) grid) =
      Succeeds-impl _ (IsGrid P width height) (change r (change c (λ x. some (g x))) grid)
        (λ ys q. (q.0 ∙ size, q.1))
        (change-Succeeds (IsRow P width) (change c (λ x. some (g x))) r grid changed_row rows
          (omega (arith, size, lr))) in
    Succeeds-result (IsGrid P width height) _ (rw place changed)

abbrev IsColumn : List ℕ → Type 0
IsColumn = IsRow IsDots 4

dots-IsColumn : All IsColumn dots
dots-IsColumn = ground arith

-- The dot of a place on the canvas.
dot-Succeeds : (x y : ℕ) → Succeeds IsDots (dot_of x (pos y))
dot-Succeeds x y =
    bind-Succeeds IsColumn IsDots (get_elem? dots (x % 2)) (λ column. get_elem? column (y % 4))
      (get_elem-Succeeds IsColumn dots (x % 2) dots-IsColumn (omega arith))
      (λ column (n, all). get_elem-Succeeds IsDots column (y % 4) all (omega (arith, n)))

mark-Succeeds :
    (width height x y : ℕ) (color : ℤ) (canvas : Canvas)
    → IsCanvas width height canvas
    → x < width * 2
    → y < height * 4
    → Succeeds (IsCanvas width height) (mark x color (pos y) canvas)
unfolding mark
mark-Succeeds width height x y color canvas (bits, owner) lx ly =
    let lr : y / 4 < height = omega (arith, ly) in
    let lc : x / 2 < width = omega (arith, lx) in
    let (dot, e, d) = Succeeds-result IsDots (dot_of x (pos y)) (dot-Succeeds x y) in
    let (bits', eb, b) =
      change_cell_result IsDots width height (y / 4) (x / 2) (λ cell. bit_or cell dot) canvas.bits
        (λ cell h. bit_or-IsDots cell dot h d) bits lr lc in
    let (owner', eo, o) =
      change_cell_result Anything width height (y / 4) (x / 2) (λ _. color) canvas.owner (λ _ _. tt)
        owner lr lc in
    rw (e, eb, eo) (b, o)

mark_column-Succeeds :
    (width height n x y : ℕ) (color : ℤ) (canvas : Canvas)
    → IsCanvas width height canvas
    → x < width * 2
    → y + n ≤ height * 4
    → Succeeds (IsCanvas width height) (mark_column n x color (pos y) canvas)
unfolding mark_column ◌+ℤ◌
mark_column-Succeeds width height zero x y color canvas h lx ly = h
mark_column-Succeeds width height (suc n) x y color canvas h lx ly =
    bind-Succeeds (IsCanvas width height) (IsCanvas width height) (mark x color (pos y) canvas) _
      (mark-Succeeds width height x y color canvas h lx (omega (arith, ly)))
      (λ next i.
        let below : (pos y +ℤ pos 1) ≡ pos (y + 1) = ground arith in
        rw below
          (mark_column-Succeeds width height n x (y + 1) color next i lx (omega (arith, ly))))

-- One of `high` rows of dots.
abbrev pub IsDotRow : ℕ → ℤ → Type 0
IsDotRow high (pos y) = y < high
IsDotRow high (negsuc y) = ⊥

abbrev pub IsPrevious : ℕ → Option ℤ → Type 0
IsPrevious high none = Unit
IsPrevious high (some y) = IsDotRow high y

stroke_within :
    (high : ℕ) (prev : Option ℤ) (y : ℤ)
    → IsPrevious high prev
    → IsDotRow high y
    → (lo : ℕ) × ((stroke prev y).0 ≡ pos lo) × (lo + span_of (stroke prev y) ≤ high)
unfolding ◌+ℤ◌ ◌-ℤ◌
stroke_within high none (pos y) p d = (y, refl, ground (arith, d))
stroke_within high none (negsuc y) p d = absurd d
stroke_within high (some (pos x)) (pos y) p d = (min x y, ground arith, ground (arith, p, d))
stroke_within high (some (pos x)) (negsuc y) p d = absurd d
stroke_within high (some (negsuc x)) y p d = absurd p

-- A stroke between two rows of dots stays on the canvas.
pub stroke-Succeeds :
    (width height x : ℕ) (prev : Option ℤ) (y color : ℤ) (canvas : Canvas)
    → IsCanvas width height canvas
    → x < width * 2
    → IsPrevious (height * 4) prev
    → IsDotRow (height * 4) y
    → Succeeds
        (IsCanvas width height)
        (mark_column (span_of (stroke prev y)) x color (stroke prev y).0 canvas)
stroke-Succeeds width height x prev y color canvas i lx p row =
    let n = span_of (stroke prev y) in
    let (lo, e, within) = stroke_within (height * 4) prev y p row in
    subst (λ z. Succeeds (IsCanvas width height) (mark_column n x color z canvas)) (sym e)
      (mark_column-Succeeds width height n x lo color canvas i lx within)
