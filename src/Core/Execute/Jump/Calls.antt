-- ===== src/Core/Execute/Jump/Calls.antt =====
-- Subroutines: what a call leaves on the stack brings a return back.
use simulavr.Prelude.{ℕ, ◌+◌, ◌≤◌, ◌<◌, ◌≡◌, refl, ap, sym, arith}
use simulavr.Prelude.{◌==◌, not, if◌then◌else◌, true}
use simulavr.Prelude.Int.{ℤ, pos}
use simulavr.Core.Device.{Device}
use simulavr.Core.Execute.Jump.{run_rcall, run_ret, relative, call_clocks}
use simulavr.Core.Execute.Common.{jump}
use simulavr.Core.Result.{ok}
use simulavr.Core.Stack.RoundTrip.{IsBounded, HasRoom, StandsAt, popped}
use simulavr.Core.Stack.Addresses.{Holds, push_addr_two, pop_addr_two}

-- The state of a subroutine that is to return to the instruction after `pc`: what RET needs of it.
pub record CanReturn (pc p c : ℕ) (d : Device) : Type 0 where
  pub size : d.pc_size ≡ 2
  pub at : StandsAt p c d
  pub room : p + 2 < c
  pub ceiling : c ≤ 65536
  pub held : Holds p (pc + 1) d

-- In a state that can return to `pc + 1`, which is below 65536, RET sets PC to `pc`, to which
-- `Step` adds 1; it takes 4 clocks, removes two bytes from the stack and changes no cell.
pub ret-CanReturn :
    (pc p c : ℕ) (d : Device)
    → pc + 1 < 65536
    → CanReturn pc p c d
    → (d' : Device) × (run_ret d ≡ ok (d', pos 4))
      × (d'.pc ≡ pc)
      × (d'.stack.stack_pointer ≡ p + 2)
      × (d'.cells ≡ d.cells)
unfolding run_ret
ret-CanReturn pc p c d small can =
    let up = pop_addr_two (pc + 1) p c d can.size can.at can.room can.ceiling small can.held in
    (
      jump (pc + 1 + 0xffff) (popped (popped d)),
      rw up.0 (ap (λ n. ok (jump (pc + 1 + 0xffff) (popped (popped d)), pos (n + 2))) can.size),
      omega arith,
      up.1.pointer,
      refl,
    )

-- RCALL on a core with return addresses of two bytes, with two bytes of RAM at the stack pointer
-- and at least 3 in it, enters the subroutine at the target of the same RJMP, in a state from which
-- RET returns behind the call.
pub rcall-CanReturn :
    (k : ℤ) (p : ℕ) (d : Device)
    → d.pc_size ≡ 2
    → IsBounded d
    → HasRoom 2 d
    → d.stack.stack_pointer ≡ p + 2
    → 1 ≤ p
    → (d' : Device) × (run_rcall k d ≡ ok (d', pos (if d.flags.tiny10 then 4 else call_clocks d)))
      × (d'.pc ≡ (relative k d).pc)
      × CanReturn d.pc p d.stack.stack_ceil d'
unfolding run_rcall
rcall-CanReturn k p d size b room at above =
    let c = d.stack.stack_ceil in
    let stands : StandsAt (p + 2) c d = record { pointer = at; stack_end = refl } in
    let down =
      push_addr_two (d.pc + 1) p c d size stands (omega (arith, b.bound, at)) b.ceiling
        (λ a h k. room.in_ram a (omega (arith, at)) (omega (arith, at))) in
    let d' = down.0 in
    let core : record d { cells = d'.cells; stack = d'.stack } ≡ d' = down.5 in
    let e = record d { cells = d'.cells; stack = d'.stack } in
    let live : not (e.stack.stack_pointer == 0) ≡ true = ground (arith, down.2.pointer) in
    (
      relative k e,
      rw down.1 (rw (sym core) (rw live refl)),
      refl,
      record {
        size = size;
        at = record { pointer = down.2.pointer; stack_end = down.2.stack_end };
        room = omega (arith, b.bound, at);
        ceiling = b.ceiling;
        held = record {
          high_byte = down.3.high_byte;
          low_byte = down.3.low_byte;
          in_ram = λ a h k. room.in_ram a (omega (arith, at)) (omega (arith, at));
        };
      },
    )
