-- ===== src/Snapshot.antt =====
-- The data of src/fanwatch/probe.py and src/fanwatch/gpu.py: one snapshot of the machine. The
-- fields typed `float` are of a type F, an `int` is a ℤ, and a status is an enumeration.
use thelio_fans.Prelude.{ℤ, String, Bool, Option, List}

-- The values of `Status`.
pub data Status : Type 0 where
  rotating idle stopped empty unknown fault alarm : Status

-- A value of a JSON file, as `json.loads` gives it.
mutual
  pub data Value (F : Type 0) : Type 0 where
    null : Value F
    boolean : Bool → Value F
    int : ℤ → Value F
    float : F → Value F
    str : String → Value F
    array : Items F → Value F
    object : Members F → Value F

  pub data Items (F : Type 0) : Type 0 where
    nil : Items F
    cons : Value F → Items F → Items F

  pub data Members (F : Type 0) : Type 0 where
    end : Members F
    member : String → Value F → Members F → Members F

-- A duty in percent and an RPM.
abbrev pub FanReading : Type 0
FanReading = Option ℤ × Option ℤ

pub record Gpu (F : Type 0) : Type 0 where
  pub name : String
  pub temp_c : Option ℤ
  pub slowdown_c : Option ℤ
  pub shutdown_c : Option ℤ
  pub fans : List FanReading
  pub util_pct : Option ℤ
  pub power_w : Option F
  pub power_limit_w : Option F
  pub clock_mhz : Option ℤ
  pub clock_max_mhz : Option ℤ
  pub mem_clock_mhz : Option ℤ
  pub mem_used_mb : Option ℤ
  pub mem_total_mb : Option ℤ
  pub pstate : Option ℤ
  pub reasons : Option (List String)

pub record Fan (F : Type 0) : Type 0 where
  pub key : String
  pub chip : String
  pub channel : String
  pub label : Option String
  pub name : String
  pub rpm : Option ℤ
  pub duty : Option F
  pub status : Status
  pub error : Option String
  pub note : Option String
  pub path : String

pub record Temperature (F : Type 0) : Type 0 where
  pub chip : String
  pub label : String
  pub celsius : Option F
  pub critical : Option F
  pub maximum : Option F
  pub error : Option String
  pub key : String

pub record Controller : Type 0 where
  pub port : String
  pub product : String
  pub usb_id : String
  pub devnum : Option ℤ
  pub interfaces : List (String × Option String)

pub record Throttle : Type 0 where
  pub package_events : ℤ
  pub core_events : ℤ
  pub total_ms : ℤ
  pub longest_ms : ℤ
  pub cur_khz : Option ℤ
  pub max_khz : Option ℤ

pub record Snapshot (F : Type 0) : Type 0 where
  pub timestamp : F
  pub machine : String
  pub fans : List (Fan F)
  pub temperatures : List (Temperature F)
  pub controllers : List Controller
  pub alerts : List String
  pub throttle : Option Throttle
  pub gpu : Option (Gpu F)
  pub controller : Option (List (String × Value F))

Status-discrete : Discrete Status
Status-discrete = hlevel

abbrev pub is_empty : Status → Bool
is_empty empty = Bool.true
is_empty _ = Bool.false

abbrev pub is_stopped : Status → Bool
is_stopped stopped = Bool.true
is_stopped _ = Bool.false

abbrev pub is_rotating : Status → Bool
is_rotating rotating = Bool.true
is_rotating _ = Bool.false
