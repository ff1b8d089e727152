-- ===== src/Examples/Requests.antt =====
-- Interrupts of a timer register with eight lines (src/hwtimer/timerirq.cpp).
use simulavr.Prelude.{ℕ, ◌+◌, ◌-◌, ◌≡◌, refl, ap, ltb, arith, none, some, update}
use simulavr.Core.Result.{ok, ◌>>=◌}
use simulavr.Timer.IrqRegister.{TimerIrqRegister, fire_interrupt, set_timsk, set_tifr}
use simulavr.Timer.IrqRegister.Acknowledge.{Quiet, set_tifr-Quiet}
use simulavr.Timer.IrqRegister.Enable.{set_timsk-IsPending}
use simulavr.Timer.IrqRegister.Masking.{raised, fire_interrupt-set_timsk}

-- The register is number 7 of the peripherals; the lines have the vectors from 5 on.
abbrev requests : TimerIrqRegister ℕ
requests = record {
  this = 7;
  irqsystem = record {
    bytes_per_vector = 4;
    vector_table_size = 20;
    irq_trace = λ v. 0;
    irq_partner_list = update (λ v. none) 5 (some 7);
    debug_interrupt_table = λ v. none;
  };
  lines = λ i. some (i + 5);
  vector2line = λ v. v - 5;
  irqmask = 3;
  irqflags = 1;
  bitmask = 3;
}

set_tifr-Quiet_example :
    (r' : TimerIrqRegister ℕ) × (set_tifr 1 requests ≡ ok (1, r')) × Quiet 0 5 r'
set_tifr-Quiet_example =
    set_tifr-Quiet 1 0 5 requests (omega arith)
      (record {
        has_line = λ i small set. (i + 5, refl);
        numbered = λ i vector small e. ground (arith, e);
      })
      refl refl

fire_interrupt-set_timsk_example :
    ((fire_interrupt 6 requests >>= set_timsk 0)
      ≡ ok (0, record (raised 6 requests) { irqmask = 0 }))
    × ((raised 6 requests).irqsystem.irq_partner_list 6 ≡ some 7)
fire_interrupt-set_timsk_example = fire_interrupt-set_timsk 6 requests refl refl

-- The same register with its lines masked; only line 0 is wired.
abbrev masked_requests : TimerIrqRegister ℕ
masked_requests = record requests {
  irqmask = 0;
  irqsystem = record requests.irqsystem { irq_partner_list = λ v. none };
  lines = update (λ i. none) 0 (some 5);
}

line_vector : (i vector : ℕ) → masked_requests.lines i ≡ some vector → vector ≡ 5
line_vector i vector e = ground (arith, e)

set_timsk-IsPending_example :
    (r' : TimerIrqRegister ℕ) × (set_timsk 3 masked_requests ≡ ok (3, r'))
    × (r'.irqsystem.irq_partner_list 5 ≡ some 7)
set_timsk-IsPending_example =
    set_timsk-IsPending 3 0 5 masked_requests (omega arith)
      (λ i vector e. ap (λ v. ltb v 20) (line_vector i vector e)) refl refl
