-- ===== src/Core/Stack/RoundTrip.antt =====
-- What is pushed is popped again.
use simulavr.Prelude.{update_same}
use simulavr.Prelude.{ℕ, ◌+◌, ◌-◌, ◌%◌, ◌≤◌, ◌<◌, ◌≡◌, refl, ap, ◌∙◌, arith}
use simulavr.Prelude.{update, ltb, true}
use simulavr.Core.Device.{Device, ram}
use simulavr.Core.Memory.{get_member, set_member, get_rw_mem, set_rw_mem, check_return_points}
use simulavr.Core.Result.{ok, ◌>>=◌}
use simulavr.Core.Stack.{push, pop, below, above, measure}

-- The stack pointer lies below the ceiling, and the stack in the data space.
pub record IsBounded (d : Device) : Type 0 where
  pub bound : d.stack.stack_pointer < d.stack.stack_ceil
  pub ceiling : d.stack.stack_ceil ≤ 65536

-- The next `n` bytes of the stack are RAM, and the stack pointer can go down by `n`.
pub record HasRoom (n : ℕ) (d : Device) : Type 0 where
  pub depth : n ≤ d.stack.stack_pointer
  pub in_ram : (a : ℕ) → a ≤ d.stack.stack_pointer → d.stack.stack_pointer < a + n → d.rw a ≡ ram

abbrev pub pushed : ℕ → Device → Device
pushed val d =
    let s = d.stack in
    record d {
      cells = update d.cells s.stack_pointer val;
      stack =
          measure
            (check_return_points (record s { stack_pointer = below s.stack_pointer s.stack_ceil }));
    }

abbrev pub popped : Device → Device
popped d =
    let s = d.stack in
    record d {
      stack = check_return_points (record s { stack_pointer = above s.stack_pointer s.stack_ceil });
    }

pub push-pushed :
    (val : ℕ) (d : Device)
    → d.stack.stack_pointer < 65536
    → d.rw d.stack.stack_pointer ≡ ram
    → push val d ≡ ok (pushed val d)
unfolding push set_rw_mem set_member
push-pushed val d small is_ram =
    let address : ltb d.stack.stack_pointer 65536 ≡ true = ground arith in
    rw address (rw is_ram refl)

pub pop-popped :
    (d : Device)
    → above d.stack.stack_pointer d.stack.stack_ceil < 65536
    → d.rw (above d.stack.stack_pointer d.stack.stack_ceil) ≡ ram
    → pop d ≡ ok (d.cells (above d.stack.stack_pointer d.stack.stack_ceil), popped d)
unfolding pop get_rw_mem get_member check_return_points
pop-popped d small is_ram =
    let address : ltb (above d.stack.stack_pointer d.stack.stack_ceil) 65536 ≡ true =
      ground arith in
    rw address (rw is_ram refl)

mod_small : (x m : ℕ) → x < m → x % m ≡ x
mod_small x m h = grind arith

below_small : (sp ceil : ℕ) → 1 ≤ sp → sp < ceil → ceil ≤ 65536 → below sp ceil ≡ sp - 1
below_small sp ceil h k m =
    ap (λ x. x % ceil) {y = sp - 1} (omega arith) ∙ mod_small (sp - 1) ceil (omega arith)

above_small : (sp ceil : ℕ) → sp + 1 < ceil → ceil ≤ 65536 → above sp ceil ≡ sp + 1
above_small sp ceil h m =
    ap (λ x. x % ceil) {y = sp + 1} (omega arith) ∙ mod_small (sp + 1) ceil (omega arith)

-- Where the stack pointer is after a push, and after a pop.
pub pushed-pointer :
    (val : ℕ) (d : Device)
    → IsBounded d
    → 1 ≤ d.stack.stack_pointer
    → ((pushed val d).stack.stack_pointer ≡ d.stack.stack_pointer - 1)
      × ((pushed val d).stack.stack_ceil ≡ d.stack.stack_ceil)
unfolding check_return_points
pushed-pointer val d v h =
    let lower = below_small d.stack.stack_pointer d.stack.stack_ceil h v.bound v.ceiling in
    ground (arith, lower)

pub popped-pointer :
    (d : Device)
    → d.stack.stack_pointer + 1 < d.stack.stack_ceil
    → d.stack.stack_ceil ≤ 65536
    → (popped d).stack.stack_pointer ≡ d.stack.stack_pointer + 1
unfolding check_return_points
popped-pointer d h k = above_small d.stack.stack_pointer d.stack.stack_ceil h k

-- A device whose stack pointer is `p`, below a ceiling `c`.
pub record StandsAt (p c : ℕ) (d : Device) : Type 0 where
  pub pointer : d.stack.stack_pointer ≡ p
  pub stack_end : d.stack.stack_ceil ≡ c

pub push_at :
    (p c val : ℕ) (d : Device)
    → StandsAt p c d
    → 1 ≤ p
    → p < c
    → c ≤ 65536
    → d.rw p ≡ ram
    → (push val d ≡ ok (pushed val d))
      × StandsAt (p - 1) c (pushed val d)
      × ((a : ℕ) → (pushed val d).cells a ≡ update d.cells p val a)
push_at p c val d at low high small is_ram =
    let bounded : IsBounded d = record {
      bound = omega (arith, at.pointer, at.stack_end);
      ceiling = omega (arith, at.stack_end);
    } in
    let moved = pushed-pointer val d bounded (omega (arith, at.pointer)) in
    (
      push-pushed val d (omega (arith, at.pointer)) (ap d.rw at.pointer ∙ is_ram),
      record { pointer = omega (arith, moved.0, at.pointer); stack_end = moved.1 ∙ at.stack_end },
      λ a. ap (λ q. update d.cells q val a) at.pointer,
    )

pub pop_at :
    (p c : ℕ) (d : Device)
    → StandsAt p c d
    → p + 1 < c
    → c ≤ 65536
    → d.rw (p + 1) ≡ ram
    → (pop d ≡ ok (d.cells (p + 1), popped d)) × StandsAt (p + 1) c (popped d)
unfolding check_return_points
pop_at p c d at high small is_ram =
    let next : above d.stack.stack_pointer d.stack.stack_ceil ≡ p + 1 =
      above_small d.stack.stack_pointer d.stack.stack_ceil (omega (arith, at.pointer, at.stack_end))
        (omega (arith, at.stack_end))
      ∙ omega (arith, at.pointer) in
    (
      pop-popped d (omega (arith, next)) (ap d.rw next ∙ is_ram)
          ∙ ap (λ x. ok (d.cells x, popped d)) next,
      record { pointer = next; stack_end = at.stack_end },
    )

-- A byte that is pushed is popped again, where the stack pointer is not 0, stands in RAM and below
-- its ceiling. The stack pointer is back where it was, and only the cell under it has changed.
pub push-pop :
    (val : ℕ) (d : Device)
    → IsBounded d
    → HasRoom 1 d
    → (d' : Device) × ((push val d >>= pop) ≡ ok (val, d'))
      × (d'.stack.stack_pointer ≡ d.stack.stack_pointer)
      × ((a : ℕ) → d'.cells a ≡ update d.cells d.stack.stack_pointer val a)
push-pop val d b room =
    let p = d.stack.stack_pointer in
    let c = d.stack.stack_ceil in
    let at : StandsAt p c d = record { pointer = refl; stack_end = refl } in
    let is_ram = room.in_ram p (omega arith) (omega arith) in
    let down = push_at p c val d at room.depth b.bound b.ceiling is_ram in
    let same : p - 1 + 1 ≡ p = omega (arith, room.depth) in
    let up =
      pop_at (p - 1) c (pushed val d) down.1 (omega (arith, b.bound, room.depth)) b.ceiling
        (ap d.rw same ∙ is_ram) in
    (
      popped (pushed val d),
      rw (down.0) (
          up.0
          ∙ ap (λ x. ok (x, popped (pushed val d)))
              (down.2 (p - 1 + 1) ∙ ap (update d.cells p val) same ∙ update_same d.cells p val)),
      up.1.pointer ∙ same,
      down.2,
    )
