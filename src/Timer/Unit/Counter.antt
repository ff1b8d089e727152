-- ===== src/Timer/Unit/Counter.antt =====
-- A timer without its compare units and pins: the counter alone, with the number of overflow interrupts
-- so far. This is what src/hwtimer/hwtimer.cpp promises of the counting.
use simulavr.Prelude.{
  ℕ, ◌+◌, ◌-◌, ◌%◌, bit_and, Bool, true, false, not, ltb, ◌==◌, if◌then◌else◌, List, [], ◌∷◌,
}
use simulavr.Timer.Unit.{
  BasicTimerUnit, WgmType, fastpwm_ocra, pcpwm_ocra, pfcpwm_ocra, is_wgm, Event, top_reached,
  max_reached, bottom_reached, WgmFunc, func_normal, func_ctc, func_fastpwm, func_pcpwm,
  func_pfcpwm, Line, overflow,
}
use simulavr.Timer.Unit.Count.{long_size}

pub record Counter : Type 0 where
  pub vtcnt : ℕ
  pub vlast_tcnt : ℕ
  pub updown_counting : Bool
  pub count_down : Bool
  pub limit_bottom : ℕ
  pub limit_top : ℕ
  pub limit_max : ℕ
  pub wgm : WgmType
  pub func : WgmFunc
  -- The buffered value of compare unit A.
  pub buffered : ℕ
  pub overflows : ℕ

abbrev pub overflows_in : List Line → ℕ
overflows_in [] = 0
overflows_in (overflow ∷ lines) = overflows_in lines + 1
overflows_in (line ∷ lines) = overflows_in lines

-- What a timer shows of its counter.
unfoldable pub counter : BasicTimerUnit → Counter
counter u = record {
  vtcnt = u.vtcnt;
  vlast_tcnt = u.vlast_tcnt;
  updown_counting = u.updown_counting;
  count_down = u.count_down;
  limit_bottom = u.limit_bottom;
  limit_top = u.limit_top;
  limit_max = u.limit_max;
  wgm = u.wgm;
  func = u.wgmfunc u.wgm;
  buffered = u.unit_a.compare_dbl;
  overflows = overflows_in u.fired;
}

-- TOP sets the counter back in the modes CTC and fast PWM.
abbrev pub restarts : WgmFunc → Event → Bool
restarts func_ctc top_reached = true
restarts func_fastpwm top_reached = true
restarts func event = false

-- The event that stands for an overflow, for each kind of mode.
abbrev pub overflow_at : WgmFunc → Event → ℕ
overflow_at func_normal max_reached = 1
overflow_at func_ctc max_reached = 1
overflow_at func_fastpwm top_reached = 1
overflow_at func_pcpwm bottom_reached = 1
overflow_at func_pfcpwm bottom_reached = 1
overflow_at func event = 0

-- The event with which the top value is taken from OCRA.
abbrev pub takes_top : WgmType → WgmFunc → Event → Bool
takes_top wgm func_fastpwm bottom_reached = is_wgm fastpwm_ocra wgm
takes_top wgm func_pcpwm top_reached = is_wgm pcpwm_ocra wgm
takes_top wgm func_pfcpwm bottom_reached = is_wgm pfcpwm_ocra wgm
takes_top wgm func event = false

unfoldable pub notice : Event → Counter → Counter
notice event c = record c {
  vtcnt = if restarts c.func event then c.limit_bottom else c.vtcnt;
  limit_top = if takes_top c.wgm c.func event then c.buffered else c.limit_top;
  overflows = c.overflows + overflow_at c.func event;
}

unfoldable pub notice_if : Bool → Event → Counter → Counter
unfolding notice
notice_if b event c = if b then notice event c else c

unfoldable pub tick_updown : Counter → Counter
unfolding notice notice_if
tick_updown c =
    let last = record c { vlast_tcnt = c.vtcnt } in
    let d =
      if last.vlast_tcnt == last.limit_bottom
      then notice bottom_reached last
      else notice_if (last.vlast_tcnt == last.limit_top) top_reached last in
    let next =
      if d.count_down then (d.vtcnt + (long_size - 1)) % long_size else (d.vtcnt + 1) % long_size in
    record d {
      vtcnt = next;
      count_down = if d.count_down then not (next == d.limit_bottom) else next == d.limit_top;
    }

unfoldable pub overflown : Counter → Counter
unfolding notice
overflown c =
    if ltb c.limit_max c.vtcnt
    then (let d = notice max_reached c in record d { vtcnt = bit_and d.vtcnt d.limit_max })
    else c

unfoldable pub tick_up : Counter → Counter
unfolding notice_if overflown
tick_up c =
    let d = overflown (record c { vlast_tcnt = c.vtcnt; vtcnt = (c.vtcnt + 1) % long_size }) in
    let e = notice_if (d.vlast_tcnt == d.limit_bottom) bottom_reached d in
    notice_if (e.vlast_tcnt == e.limit_top) top_reached e

unfoldable pub tick : Counter → Counter
unfolding tick_updown tick_up
tick c = if c.updown_counting then tick_updown c else tick_up c
