-- ===== src/Core/Stack/Addresses.antt =====
-- Return addresses on the stack, of two bytes or of three.
use simulavr.Prelude.{update_other, update_same}
use simulavr.Prelude.{ℕ, ◌+◌, ◌-◌, ◌/◌, ◌%◌, ◌≤◌, ◌<◌, ◌≡◌, ◌⊎◌, refl, ap, ◌∙◌, sym, arith}
use simulavr.Prelude.{◌==◌, false}
use simulavr.Prelude.Bits.{◌<<<◌, ◌>>>◌}
use simulavr.Core.Device.{Device, ram}
use simulavr.Core.Result.{ok, ◌>>=◌}
use simulavr.Core.Stack.{push_addr, pop_addr}
use simulavr.Core.Stack.RoundTrip.{IsBounded, HasRoom, StandsAt, pushed, popped, push_at, pop_at}

-- What a device holds on its stack above `p`: the two bytes of an address, the high byte first.
pub record Holds (p addr : ℕ) (d : Device) : Type 0 where
  pub high_byte : d.cells (p + 1) ≡ (addr / 256) % 256
  pub low_byte : d.cells (p + 2) ≡ addr % 256
  pub in_ram : (a : ℕ) → p < a → a ≤ p + 2 → d.rw a ≡ ram

pub push_addr_two :
    (addr p c : ℕ) (d : Device)
    → d.pc_size ≡ 2
    → StandsAt (p + 2) c d
    → p + 2 < c
    → c ≤ 65536
    → ((a : ℕ) → p < a → a ≤ p + 2 → d.rw a ≡ ram)
    → (d' : Device) × (push_addr addr d ≡ ok d')
      × StandsAt p c d'
      × Holds p addr d'
      × ((a : ℕ) → (a ≤ p) ⊎ (p + 2 < a) → d'.cells a ≡ d.cells a)
      × (record d { cells = d'.cells; stack = d'.stack } ≡ d')
unfolding push_addr
push_addr_two addr p c d size at high small is_ram =
    let low = addr % 0x100 in
    let top = (addr >>> 8) % 0x100 in
    let d1 = pushed low d in
    let d2 = pushed top d1 in
    let first =
      push_at (p + 2) c low d at (omega arith) high small
        (is_ram (p + 2) (omega arith) (omega arith)) in
    let stands1 : StandsAt (p + 1) c d1 = record {
      pointer = first.1.pointer ∙ omega arith;
      stack_end = first.1.stack_end;
    } in
    let second =
      push_at (p + 1) c top d1 stands1 (omega arith) (omega arith) small
        (is_ram (p + 1) (omega arith) (omega arith)) in
    (
      d2,
      rw first.0 (rw second.0 (rw size refl)),
      record { pointer = second.1.pointer ∙ omega arith; stack_end = second.1.stack_end },
      record {
        high_byte = second.2 (p + 1) ∙ update_same d1.cells (p + 1) top;
        low_byte =
            second.2 (p + 2)
            ∙ update_other d1.cells (p + 1) top (p + 2) (λ e. omega arith)
            ∙ first.2 (p + 2)
            ∙ update_same d.cells (p + 2) low;
        in_ram = is_ram;
      },
      λ a h.
          second.2 a
          ∙ update_other d1.cells (p + 1) top a (λ e. omega arith)
          ∙ first.2 a
          ∙ update_other d.cells (p + 2) low a (λ e. omega arith),
      refl,
    )

pub pop_addr_two :
    (addr p c : ℕ) (d : Device)
    → d.pc_size ≡ 2
    → StandsAt p c d
    → p + 2 < c
    → c ≤ 65536
    → addr < 65536
    → Holds p addr d
    → (pop_addr d ≡ ok (addr, popped (popped d))) × StandsAt (p + 2) c (popped (popped d))
unfolding pop_addr
pop_addr_two addr p c d size at high small word held =
    let test : (d.pc_size == 3) ≡ false = ground (arith, size) in
    let first =
      pop_at p c d at (omega arith) small (held.in_ram (p + 1) (omega arith) (omega arith)) in
    let second =
      pop_at (p + 1) c (popped d) first.1 (omega arith) small
        (ap d.rw (omega arith) ∙ held.in_ram (p + 2) (omega arith) (omega arith)) in
    let value : (d.cells (p + 1) <<< 8) + d.cells (p + 1 + 1) ≡ addr = omega (
      arith,
      held.high_byte,
      ap d.cells {x = p + 1 + 1} {y = p + 2} (omega arith) ∙ held.low_byte,
    ) in
    (
      rw first.0 (rw second.0 (rw test (ap (λ x. ok (x, popped (popped d))) value))),
      record { pointer = second.1.pointer ∙ omega arith; stack_end = second.1.stack_end },
    )

-- On a core with return addresses of two bytes, a stack pointer below its ceiling and two bytes of
-- RAM at it, an address of 16 bits that is pushed is popped again, and the stack pointer is back
-- where it was.
pub push_addr-pop_addr :
    (addr : ℕ) (d : Device)
    → d.pc_size ≡ 2
    → IsBounded d
    → HasRoom 2 d
    → addr < 65536
    → (d' : Device) × ((push_addr addr d >>= pop_addr) ≡ ok (addr, d'))
      × (d'.stack.stack_pointer ≡ d.stack.stack_pointer)
push_addr-pop_addr addr d size b room word =
    let p = d.stack.stack_pointer - 2 in
    let c = d.stack.stack_ceil in
    let at : StandsAt (p + 2) c d = record {
      pointer = omega (arith, room.depth);
      stack_end = refl;
    } in
    let down =
      push_addr_two addr p c d size at (omega (arith, b.bound, room.depth)) b.ceiling
        (λ a h k. room.in_ram a (omega (arith, room.depth)) (omega (arith, room.depth))) in
    let up =
      pop_addr_two addr p c down.0 (ap (λ (e : Device). e.pc_size) (sym down.5) ∙ size) down.2
        (omega (arith, b.bound, room.depth)) b.ceiling word down.3 in
    (popped (popped down.0), rw down.1 up.0, up.1.pointer ∙ omega (arith, room.depth))
