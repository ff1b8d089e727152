-- ===== src/Examples/Numbers.antt =====
-- Arithmetic at concrete registers.
use simulavr.Prelude.{ℕ, ◌+◌, ◌≤◌, ◌≡◌, ◌≢◌, arith}
use simulavr.Prelude.Bits.{u16}
use simulavr.Prelude.Int.{pos, ◌*ℤ◌, signed8, signed16}
use simulavr.Core.Device.{Device}
use simulavr.Core.Execute.Arith.{run_add, run_adc}
use simulavr.Core.Execute.Arith.Words.{word, IsWordSum, add-IsWordSum}
use simulavr.Core.Execute.Multiply.{run_muls}
use simulavr.Core.Execute.Multiply.Products.{muls-product}
use simulavr.Core.Result.{ok, ◌>>=◌}
use simulavr.Sreg.{Sreg}
use simulavr.Examples.{device, device-IsValid}

add-IsWordSum_example :
    (d' : Device) × ((run_add 24 22 device >>= λ p. run_adc 25 23 p.0) ≡ ok (d', pos 1))
    × (word 24 25 d' ≡ u16 (word 24 25 device + word 22 23 device))
    × IsWordSum (word 24 25 device) (word 22 23 device) d'.status
    × ((r : ℕ) → r ≢ 24 → r ≢ 25 → d'.cells r ≡ device.cells r)
    × (record d' { cells = device.cells; status = device.status } ≡ device)
add-IsWordSum_example =
    add-IsWordSum 24 25 22 23 device device-IsValid (λ e. omega arith) (λ e. omega arith)

muls-product_example :
    (d' : Device) × (run_muls 20 31 device ≡ ok (d', pos 2))
    × (signed16 (word 0 1 d') ≡ signed8 (device.cells 20) *ℤ signed8 (device.cells 31))
    × ((r : ℕ) → 2 ≤ r → d'.cells r ≡ device.cells r)
muls-product_example = muls-product 20 31 device device-IsValid
