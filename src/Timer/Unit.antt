-- ===== src/Timer/Unit.antt =====
-- The state of `BasicTimerUnit` (src/hwtimer/hwtimer.h, src/hwtimer/hwtimer.cpp), and what it does to the
-- outputs of its compare units.
pub mod Waveform
pub mod Count
pub mod Capture
pub mod Modes
pub mod Counter
pub mod Refine
pub mod Sawtooth
pub mod Triangle
pub mod Runaway
pub mod Outputs
pub mod Noise
use simulavr.Prelude.{ℕ, List, ◌∷◌, Bool, true, false, not, ◌&&◌, ◌||◌, ◌==◌, if◌then◌else◌, xor}

-- `WGMtype`, with the numbers of the enumeration.
pub data WgmType : Type 0 where
  normal pcpwm_8bit pcpwm_9bit pcpwm_10bit ctc_ocra fastpwm_8bit fastpwm_9bit fastpwm_10bit :
      WgmType
  pfcpwm_icr pfcpwm_ocra pcpwm_icr pcpwm_ocra ctc_icr reserved fastpwm_icr fastpwm_ocra : WgmType

abbrev pub wgm_code : WgmType → ℕ
wgm_code normal = 0
wgm_code pcpwm_8bit = 1
wgm_code pcpwm_9bit = 2
wgm_code pcpwm_10bit = 3
wgm_code ctc_ocra = 4
wgm_code fastpwm_8bit = 5
wgm_code fastpwm_9bit = 6
wgm_code fastpwm_10bit = 7
wgm_code pfcpwm_icr = 8
wgm_code pfcpwm_ocra = 9
wgm_code pcpwm_icr = 10
wgm_code pcpwm_ocra = 11
wgm_code ctc_icr = 12
wgm_code reserved = 13
wgm_code fastpwm_icr = 14
wgm_code fastpwm_ocra = 15

abbrev pub is_wgm : WgmType → WgmType → Bool
is_wgm mode wgm = wgm_code wgm == wgm_code mode

-- `COMtype`.
pub data ComType : Type 0 where
  com_noop com_toggle com_clear com_set : ComType

-- `CEtype`.
pub data Event : Type 0 where
  top_reached max_reached bottom_reached compare_1 compare_2 compare_3 : Event

-- `OCRIDXtype`.
pub data OcrIdx : Type 0 where
  ocr_a ocr_b ocr_c : OcrIdx

-- The functions that the table `wgmfunc` holds.
pub data WgmFunc : Type 0 where
  func_noop func_normal func_ctc func_fastpwm func_pcpwm func_pfcpwm : WgmFunc

-- The interrupt lines that a timer fires.
pub data Line : Type 0 where
  overflow capture : Line
  compared : OcrIdx → Line

-- The elements of the arrays for one output compare unit. `has_line` tells whether `timerCompare` is
-- set, and `has_output` whether `compare_output` is; what that pin was told last is in
-- `use_alternate` and `alternate`.
pub record OutputCompare : Type 0 where
  pub compare : ℕ
  pub compare_dbl : ℕ
  pub compare_enable : Bool
  pub com_mode : ComType
  pub has_line : Bool
  pub has_output : Bool
  pub compare_output_state : Bool
  pub use_alternate : Bool
  pub alternate : Bool

-- `BasicTimerUnit`. `fired` holds the lines fired so far, the last one first; `cycled` tells whether
-- the timer is in the cycle list of the core.
pub record BasicTimerUnit : Type 0 where
  pub cs : ℕ
  pub cycled : Bool
  pub capture_input_state : Bool
  pub icap_nc_counter : ℕ
  pub icap_nc_state : Bool
  pub has_capture : Bool
  pub vtcnt : ℕ
  pub vlast_tcnt : ℕ
  pub updown_counting : Bool
  pub count_down : Bool
  pub limit_bottom : ℕ
  pub limit_top : ℕ
  pub limit_max : ℕ
  pub icap_register : ℕ
  pub has_source : Bool
  pub icap_rising_edge : Bool
  pub icap_noise_canceler : Bool
  pub wgm : WgmType
  pub wgmfunc : WgmType → WgmFunc
  pub unit_a : OutputCompare
  pub unit_b : OutputCompare
  pub unit_c : OutputCompare
  pub fired : List Line

abbrev pub compare_unit : OcrIdx → BasicTimerUnit → OutputCompare
compare_unit ocr_a u = u.unit_a
compare_unit ocr_b u = u.unit_b
compare_unit ocr_c u = u.unit_c

abbrev pub at_unit : OcrIdx → (OutputCompare → OutputCompare) → BasicTimerUnit → BasicTimerUnit
at_unit ocr_a f u = record u { unit_a = f u.unit_a }
at_unit ocr_b f u = record u { unit_b = f u.unit_b }
at_unit ocr_c f u = record u { unit_c = f u.unit_c }

-- `fireInterrupt` of a line, if a condition holds.
abbrev pub fire_if : Bool → Line → BasicTimerUnit → BasicTimerUnit
fire_if b line u = record u { fired = if b then line ∷ u.fired else u.fired }

-- `WGMisPWM`.
unfoldable pub wgm_is_pwm : WgmType → Bool
wgm_is_pwm wgm = not (is_wgm normal wgm) && not (is_wgm ctc_ocra wgm) && not (is_wgm ctc_icr wgm)

-- `WGMuseICR`.
unfoldable pub wgm_use_icr : WgmType → Bool
wgm_use_icr wgm =
    is_wgm fastpwm_icr wgm || is_wgm ctc_icr wgm || is_wgm pcpwm_icr wgm || is_wgm pfcpwm_icr wgm

-- The new state of an output, and the pin, which is told of a change only.
abbrev pub driven : Bool → OutputCompare → OutputCompare
driven new o = record o {
  compare_output_state = new;
  alternate = if o.has_output && xor o.compare_output_state new then new else o.alternate;
}

-- `SetCompareOutputMode`.
unfoldable pub set_compare_output_mode : ComType → OutputCompare → OutputCompare
set_compare_output_mode com_noop o = record o {
  com_mode = com_noop;
  use_alternate = if o.has_output then false else o.use_alternate;
}
set_compare_output_mode mode o = record o {
  com_mode = mode;
  use_alternate = if o.has_output then true else o.use_alternate;
  alternate = if o.has_output then o.compare_output_state else o.alternate;
}

-- `SetCompareOutput`.
unfoldable pub set_compare_output : OutputCompare → OutputCompare
set_compare_output o = elim (o.com_mode) [
  | com_noop ↦ o
  | com_toggle ↦ driven (not o.compare_output_state) o
  | com_clear ↦ driven false o
  | com_set ↦ driven true o
]

-- The `if` of `SetPWMCompareOutput` for COM_TOGGLE.
abbrev pub toggles : WgmType → OcrIdx → Bool
toggles wgm ocr_a = is_wgm fastpwm_ocra wgm || is_wgm pcpwm_ocra wgm || is_wgm pfcpwm_ocra wgm
toggles wgm _ = false

-- `compare_output_state` and the pin at the end of `SetPWMCompareOutput`, where `old` is the state
-- at its start.
abbrev pub settled : Bool → Bool → OutputCompare → OutputCompare
settled old new o = record o {
  compare_output_state = new;
  alternate = if o.has_output && xor old new then new else o.alternate;
}

-- `SetPWMCompareOutput`: `new_state` stays false in the case COM_TOGGLE.
unfoldable pub set_pwm_compare_output : Bool → Bool → OutputCompare → OutputCompare
unfolding set_compare_output
set_pwm_compare_output toggle top_or_down o = elim (o.com_mode) [
  | com_noop ↦ o
  | com_toggle ↦ settled o.compare_output_state false (if toggle then set_compare_output o else o)
  | com_clear ↦ settled o.compare_output_state top_or_down o
  | com_set ↦ settled o.compare_output_state (not top_or_down) o
]
