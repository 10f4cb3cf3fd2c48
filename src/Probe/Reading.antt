-- ===== src/Probe/Reading.antt =====
-- probe.py: `read_text`, `read_int` and `describe`, over an interface to the file system.
use Prim.Native.Char.{Char}
use thelio_fans.Prelude.{
  ℕ, ◌^◌, ◌≤◌, ℤ, magnitude, is_negative, ltb, String, str_eq, concat, Bool, true, false, ◌&&◌, ◌≡◌,
  Option, none, some, default, List, [], ◌∷◌, arith, if◌then◌else◌,
}
use thelio_fans.Text.{sanitize}

-- `int(path.read_text().strip())`, or the text of the OSError or ValueError that it raises.
pub data Parsed : Type 0 where
  parsed : ℤ → Parsed
  failed : String → Parsed

-- What probe.py asks of pathlib: a path is a text.
pub record Sysfs : Type 0 where
  pub is_printable : Char → Bool
  -- `path.read_bytes()` decoded and stripped; `none` is an OSError
  pub contents : String → Option String
  pub number : String → Parsed
  -- `path.name`
  pub file_name : String → String
  -- the names in a directory; `none` is an OSError
  pub children : String → Option (List String)
  -- the resolved device of a hwmon directory
  pub device : String → String
  -- the sorted paths that a glob in a directory gives
  pub glob : String → String → List String
  pub is_dir : String → Bool
  -- the name of the driver that a link leads to, if it is a link and leads somewhere
  pub driver : String → Option String

abbrev max_int : ℕ
max_int = 10 ^ 9

-- `hw / name`
abbrev pub under : String → String → String
under dir name = concat (dir ∷ "/" ∷ name ∷ [])

-- A reading without an error is a number in range; one with an error is no number.
abbrev pub IsReading : Bool → Option ℤ × Option String → Type 0
IsReading nonnegative (some value, none) =
    (magnitude value ≤ 1_000_000_000) × (nonnegative ≡ true → is_negative value ≡ false)
IsReading nonnegative (none, some error) = Unit
IsReading nonnegative _ = ⊥

module _ (fs : Sysfs) where
  -- `read_text`
  unfoldable pub read_text : String → Option String
  read_text path = elim (fs.contents path) [
    | none ↦ none
    | some raw ↦ some (sanitize fs.is_printable raw)
  ]

  -- The checks of `read_int` on a number.
  unfoldable pub in_range : String → Bool → ℤ → Option ℤ × Option String
  in_range path nonnegative value =
      if nonnegative && is_negative value
      then (none, some (concat (fs.file_name path ∷ ": negative reading" ∷ [])))
      else if ltb max_int (magnitude value)
      then (none, some (concat (fs.file_name path ∷ ": out of range" ∷ [])))
      else (some value, none)

  -- `read_int`
  unfoldable pub read_int : String → Bool → Option ℤ × Option String
  unfolding in_range
  read_int path nonnegative = elim (fs.number path) [
    | failed exc ↦ (none, some (concat (fs.file_name path ∷ ": " ∷ exc ∷ [])))
    | parsed value ↦ in_range path nonnegative value
  ]

  -- `read_int` gives a value and no error, or an error and no value. A value is at most 10 ^ 9 in
  -- magnitude, is not negative if negative readings are refused, and is what the file holds; and a
  -- file that holds such a number is read as that number.
  pub read_int_lem :
      (path : String) (nonnegative : Bool) (value : ℤ)
      → IsReading nonnegative (read_int path nonnegative)
        × ((read_int path nonnegative).0 ≡ some value → fs.number path ≡ parsed value)
        × (fs.number path ≡ parsed value
            → magnitude value ≤ 1_000_000_000
            → (nonnegative && is_negative value) ≡ false
            → read_int path nonnegative ≡ (some value, none))
  unfolding read_int
  read_int_lem path nonnegative value = (ground arith, ground arith, ground arith)

  -- A reading that refuses negative numbers is not negative.
  pub read_int_nonnegative :
      (path : String) (value : ℤ) → (read_int path true).0 ≡ some value → is_negative value ≡ false
  unfolding read_int
  read_int_nonnegative path value h = ground arith

-- `KNOWN_CHANNELS`
unfoldable pub known_channel : String → String → Option (String × Option String)
known_channel chip channel =
    if str_eq chip "system76_io" && str_eq channel "CPUF"
    then some ("CPU FAN via Io", some "no fan; CPU fans run from the motherboard header")
    else if str_eq chip "system76_io" && str_eq channel "INTF"
    then some ("INTAKE FAN", none)
    else if str_eq chip "it8689" && str_eq channel "fan1"
    then some ("CPU FAN (motherboard header)", none)
    else none

-- `KNOWN_EMPTY` and `IDLE_STOP_CHIPS`
abbrev pub known_empty : String → String → Bool
known_empty chip channel = str_eq chip "system76_io" && str_eq channel "CPUF"

abbrev pub idle_stop_chip : String → Bool
idle_stop_chip chip = str_eq chip "nvml"

-- `x or y`, of a text that may be None: an empty one counts as none
abbrev pub label_or : Option String → String → String
label_or none channel = channel
label_or (some label) channel = if str_eq label "" then channel else label

-- `describe`
unfoldable pub describe : String → String → Option String → String × Option String
unfolding known_channel
describe chip channel label = elim (known_channel chip (default "" label)) [
  | some known ↦ known
  | none ↦ elim (known_channel chip channel) [
    | some known ↦ known
    | none ↦ (label_or label channel, none)
  ]
]
