-- ===== src/Load/State.antt =====
-- load.py: the attributes of `OpenClLoad`, its methods' results, and the library that they call.
use Prim.Native.Char.{Char}
use thelio_fans.Prelude.{
  if◌then◌else◌, ℕ, suc, ℤ, String, Bool, true, false, not, Option, none, some, List, ◌∷◌, ◌==◌,
}

-- The attributes that hold an OpenCL object.
pub data Slot : Type 0 where
  context queue program kernel buffer : Slot

abbrev pub same_slot : Slot → Slot → Bool
same_slot context context = true
same_slot queue queue = true
same_slot program program = true
same_slot kernel kernel = true
same_slot buffer buffer = true
same_slot _ _ = false

-- An object was created for a slot, or released.
pub data ClEvent : Type 0 where
  created : Slot → ℕ → ClEvent
  released : Slot → ℕ → ClEvent

pub record Cl (F : Type 0) : Type 0 where
  -- the error code of a call, 0 for success
  pub error_at : ℕ → ℤ
  -- the object that a call returns or stores: NULL is none or 0
  pub object_at : ℕ → Option ℕ
  pub count_at : ℕ → ℕ
  pub name_at : ℕ → String
  pub clock_at : ℕ → F
  -- `is_alive()` of the thread
  pub alive_at : ℕ → Bool
  -- `int(x)` of a float
  pub truncate : F → ℤ
  pub is_printable : Char → Bool

pub record ClLoad : Type 0 where
  pub step : ℕ
  -- newest first
  pub trace : List ClEvent
  pub handle : Slot → Option ℕ
  pub device_name : String
  pub iterations : ℤ
  -- `_thread is not None`, the event `_stop`, and `_error`
  pub thread : Bool
  pub stopping : Bool
  pub error : Option String

-- What a method returns, or the text of its OpenClError.
pub data Result (A : Type 0) : Type 0 where
  ok : A → Result A
  failed : String → Result A

abbrev pub M : Type 0 → Type 0
M A = ClLoad → Result A × ClLoad

abbrev pub then_do : {A B : Type 0} → (A → M B) → Result A × ClLoad → Result B × ClLoad
then_do k (ok a, s) = k a s
then_do k (failed why, s) = (failed why, s)

infixl 5 ◌>>=◌ ◌>>◌
abbrev pub ◌>>=◌ : {A B : Type 0} → M A → (A → M B) → M B
◌>>=◌ m k s = then_do k (m s)

abbrev pub ◌>>◌ : {B : Type 0} → M (Unit {0}) → M B → M B
m >> k = m >>= λ _. k

abbrev pub pure : {A : Type 0} → A → M A
pure a s = (ok a, s)

abbrev pub fail : {A : Type 0} → String → M A
fail why s = (failed why, s)

abbrev pub modify : (ClLoad → ClLoad) → M (Unit {0})
modify g s = (ok tt, g s)

-- The answer of the next call.
abbrev pub ask : {A : Type 0} → (ℕ → A) → M A
ask answer s = (ok (answer s.step), record s { step = suc s.step })

abbrev pub put : Slot → Option ℕ → ClLoad → ClLoad
put slot h s = record s { handle = λ k. if same_slot slot k then h else s.handle k }

abbrev pub log : ClEvent → ClLoad → ClLoad
log e s = record s { trace = e ∷ s.trace }

-- A handle or a pointer that counts as true.
abbrev pub present? : Option ℕ → Bool
present? none = false
present? (some h) = not (h == 0)
