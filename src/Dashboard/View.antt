-- ===== src/Dashboard/View.antt =====
-- dashboard.py, `_run`: when a sample is taken, what a key does, and the part of the table shown.
use thelio_fans.Prelude.{
  ℕ, ◌-◌, ◌≤◌, ◌^◌, ℤ, pos, negsuc, ◌+ℤ◌, ◌-ℤ◌, Bool, false, not, ◌&&◌, ◌||◌, ◌≡◌, refl, ap, ◌+◌,
  Option, none, some, List, [], length, take, drop, length-take, length-drop, ltb, if◌then◌else◌,
  arith,
}
use Prim.Native.Nat.{min}
use thelio_fans.Float.{Float}

pub record View (F : Type 0) : Type 0 where
  pub paused : Bool
  pub offset : ℤ
  pub due : F

-- What a key code stands for.
pub data Key : Type 0 where
  quit pause refresh down up page_down page_up home end_key other : Key

abbrev footer_rows : ℕ
footer_rows = 1

abbrev pub min_height : ℕ
min_height = 8

abbrev pub min_width : ℕ
min_width = 38

-- `max(1, height - top - FOOTER_ROWS)`
unfoldable pub page_of : ℕ → ℕ → ℕ
page_of height top = if ltb 1 (height - top - footer_rows) then height - top - footer_rows else 1

-- `max(0, min(offset, max(0, len(lines) - page)))`
unfoldable pub clamped : ℤ → ℕ → ℕ → ℕ
clamped (negsuc n) lines page = 0
clamped (pos n) lines page = if ltb (lines - page) n then lines - page else n

-- `lines[offset : offset + page]`
unfoldable pub window {ℓ} : {A : Type ℓ} → ℕ → ℕ → List A → List A
window offset page lines = take page (drop offset lines)

module _ {F : Type 0} ⦃f : Float F⦄ where
  -- `snapshot is None or (not paused and now >= due)`
  unfoldable pub takes_sample : Bool → View F → F → Bool
  takes_sample has_snapshot v now = not has_snapshot || (not v.paused && f.le v.due now)

  -- The table is drawn, unless the terminal is too small, and the offset brought into range.
  unfoldable pub drawn {ℓ} : {A : Type ℓ} → ℕ → ℕ → ℕ → List A → View F → View F × List A
  unfolding clamped window page_of
  drawn height width top lines v =
      if ltb height min_height || ltb width min_width
      then (v, [])
      else let page = page_of height top in
        let offset = clamped v.offset (length lines) page in
        (record v { offset = pos offset }, window offset page lines)

  -- The end of an iteration: none is a return.
  unfoldable pub pressed : Key → ℕ → View F → Option (View F)
  pressed quit page v = none
  pressed pause page v = some (record v { paused = not v.paused; due = f.of_int (pos 0) })
  pressed refresh page v = some (record v { paused = false; due = f.of_int (pos 0) })
  pressed down page v = some (record v { offset = v.offset +ℤ pos 1 })
  pressed up page v = some (record v { offset = v.offset -ℤ pos 1 })
  pressed page_down page v = some (record v { offset = v.offset +ℤ pos page })
  pressed page_up page v = some (record v { offset = v.offset -ℤ pos page })
  pressed home page v = some (record v { offset = pos 0 })
  pressed end_key page v = some (record v { offset = pos (10 ^ 9) })
  pressed other page v = some v

clamped_le : (offset : ℤ) (lines page : ℕ) → clamped offset lines page ≤ lines - page
unfolding clamped
clamped_le (negsuc n) lines page = omega arith
clamped_le (pos n) lines page = ground arith

-- Whatever keys have moved the offset, the window is a full page or, of a shorter table, the
-- whole table.
pub length-window {ℓ} :
    {A : Type ℓ} (offset : ℤ) (page : ℕ) (lines : List A)
    → length (window (clamped offset (length lines) page) page lines) ≡ min page (length lines)
unfolding window
length-window offset page lines =
    let o = clamped offset (length lines) page in
    omega (
      arith,
      length-take page (drop o lines),
      length-drop o lines,
      clamped_le offset (length lines) page,
    )

clamped_pos : (n lines page : ℕ) → clamped (pos n) lines page ≡ min n (lines - page)
unfolding clamped
clamped_pos n lines page = ground arith

clamped_up : (o k lines page : ℕ) → o ≤ lines - page → clamped (pos o -ℤ pos k) lines page ≡ o - k
unfolding clamped ◌-ℤ◌
clamped_up o k lines page h = ground arith

clamped_down :
    (o k lines page : ℕ) → clamped (pos o +ℤ pos k) lines page ≡ min (o + k) (lines - page)
unfolding clamped ◌+ℤ◌
clamped_down o k lines page = ground arith

module _ {F : Type 0} ⦃f : Float F⦄ where
  -- The offset that the next frame uses after a key.
  abbrev pub offset_after : Option (View F) → ℕ → ℕ → Option ℕ
  offset_after none lines page = none
  offset_after (some v) lines page = some (clamped v.offset lines page)

  -- From an offset in range, a key moves the next frame's offset by a line or by a page, and stops
  -- at both ends of the table; `home` goes to its start, and `end` to its end if it has at most
  -- 10^9 lines; `q` returns.
  pub pressed_lem :
      (o lines page : ℕ) (paused : Bool) (due : F)
      → o ≤ lines - page
      → lines ≤ 1_000_000_000
      → let after : Key → Option ℕ = λ k.
        offset_after
          (pressed k page (record { paused = paused; offset = pos o; due = due }))
          lines
          page in
        (after quit ≡ none)
        × (after down ≡ some (min (o + 1) (lines - page)))
        × (after up ≡ some (o - 1))
        × (after page_down ≡ some (min (o + page) (lines - page)))
        × (after page_up ≡ some (o - page))
        × (after home ≡ some 0)
        × (after end_key ≡ some (lines - page))
        × (after pause ≡ some o)
        × (after refresh ≡ some o)
  unfolding pressed
  pressed_lem o lines page paused due h small = (
    refl,
    ap some (clamped_down o 1 lines page),
    ap some (clamped_up o 1 lines page h),
    ap some (clamped_down o page lines page),
    ap some (clamped_up o page lines page h),
    ap some (omega (arith, clamped_pos 0 lines page)),
    ap some (omega (arith, clamped_pos (10 ^ 9) lines page)),
    ap some (omega (arith, clamped_pos o lines page)),
    ap some (omega (arith, clamped_pos o lines page)),
  )
