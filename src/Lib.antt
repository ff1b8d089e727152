-- ===== src/Lib.antt =====
-- Verification of simulavr, a simulator for AVR microcontrollers: the core that decodes and executes
-- instructions, its memory and its flash, its interrupts and the steps of a device, the clock that
-- steps the devices, and its peripherals: watchdog, flash programming, EEPROM, timers and UART.
--
-- The program and its parts. A device (`AvrDevice`, src/avrdevice.h) owns a flash, a memory map, a
-- stack, a status register and peripherals. Each word of the flash is decoded once into an object of
-- a class derived from `DecodedInstruction` (src/decoder.h); `Step` fetches the object at PC, calls
-- its `operator()`, which changes the device and returns the clocks used, and increments PC. Before
-- that, `Step` gives a cycle to the peripherals in `hwCycleList` and enters an interrupt that the
-- interrupt system has detected. `SystemClock` holds the devices in a heap by the time of their next
-- step, and steps the first of them again and again.
--
-- Which file models which part:
--   Sreg            the status register: src/hwsreg.cpp.
--   Decode          the decoder: the field extractors and the constructors of the instruction classes
--                   (Fields, Make), the switches of `lookup_opcode` (Cases, Lookup) and, independent
--                   of the code, the documented bit patterns (Encode), all of src/decoder.cpp.
--   Flash           the flash with the instructions decoded beside its bytes: src/flash.cpp.
--   Periph/Wado     the watchdog: src/hwwado.cpp.
--   Periph/Spm      the flash programming engine: src/flashprog.cpp.
--   Core/Alu        the flag functions of src/decoder.cpp.
--   Core/Device     the state: `AvrDevice`, `HWStackSram`, `AddressExtensionRegister`.
--   Core/Memory     the accessors `GetRWMem` to `GetRegZ` (src/avrdevice.cpp), the members that they
--                   reach (src/rwmem.cpp, src/ioregs.h), and the stack pointer (src/hwstack.cpp).
--   Core/Stack      `Push`, `Pop`, `PushAddr` and `PopAddr` (src/hwstack.cpp), and the stack of
--                   three levels.
--   Core/Execute    `operator()` of all 93 instruction classes (src/decoder.cpp): `run_adc` for
--                   `avr_op_ADC::operator()` and so on, and `execute` for the virtual call.
--   Irq             the interrupt system: src/irqsystem.cpp, and the interface `Hardware` of the
--                   peripherals, src/hardware.h, as a record of functions on the device's state.
--   Irq/Statistic   the statistics of the interrupt system, which nothing else reads, as a state of
--                   their own: src/irqsystem.cpp.
--   Irq/External    external interrupts on single pins: src/externalirq.cpp.
--   Machine         `AvrDevice::Step` and `Reset` (src/avrdevice.cpp), on a state that has the core's
--                   (`Device`), the interrupt system, the cycle list and the peripherals'.
--   Clock/MinHeap   the heap of src/systemclock.h. Its entries are a function from positions, and
--                   "the same entries" means the same sum of every measure of entries.
--   Clock/System    `SystemClock` (src/systemclock.cpp), with the interface `SimulationMember`
--                   (src/simulationmember.h) as a record of functions.
--   Periph/Eeprom   the EEPROM: src/hweeprom.cpp.
--   Periph/Fuses    fuses and lock bits: src/flashprog.cpp.
--   Timer/Prescaler the prescalers of the timers: src/hwtimer/timerprescaler.cpp and
--                   src/hwtimer/prescalermux.cpp.
--   Timer/Unit      `BasicTimerUnit` (src/hwtimer/hwtimer.cpp): its state and outputs, the functions of
--                   the waveform generation modes (Waveform), `CountTimer` (Count), `InputCapture`
--                   and `CpuCycle` (Capture), `ChangeWGM` and `Reset` (Modes). Counter is the abstract
--                   counter, without compare units and outputs, that the timer implements. A timer
--                   logs the interrupt lines that it fires; nothing of them comes back to it.
--   Timer/Timer8    the timers with 8 bits and their registers: src/hwtimer/hwtimer.cpp.
--   Timer/Timer16   the timers with 16 bits and their registers: src/hwtimer/hwtimer.cpp.
--   Timer/IrqRegister the registers TIMSK and TIFR, on the state of the interrupt system:
--                   src/hwtimer/timerirq.cpp.
--   Serial/Uart     the UART: src/hwuart.cpp, with the registers (Registers), the receiver (Receive),
--                   the transmitter (Transmit) and the cycle (Cycle).
--   Core/Result     an operation gives a value or the reason why the program ends: a failed
--                   assertion, a NULL pointer that is followed, or a call of `avr_error`.
--   Examples        concrete inputs at which the theorems apply.
--
-- Numbers. Bytes and words are natural numbers, with the wrap-around of every assignment to an
-- unsigned type written out; a difference adds a multiple of the modulus first. PC is a `word` and
-- wraps at 65536. The count of a timer is an `unsigned long` of 64 bits. Signed operands are integers
-- with the bits of their two's complement. The loops of the flash count the rounds that the source computes from the length, so no fuel is needed. The
-- loops of the heap run on as many rounds as there are positions and one more, which the theorems
-- show to be enough; `Run`, `Endless` and `RunTimeRange` and the loop over the cycle list take their
-- rounds as an argument, and a theorem gives a number that is enough for `Run`, and one for the cycle
-- list. Times in ns are natural numbers without a bound; the source has 63 bits, 292 years.
--
-- On the state of the core, peripherals other than the watchdog and the flash programming engine are a
-- parameter; the EEPROM, the timers and the UART are modelled on states of their own:
-- a register of such a peripheral is a `port`, whose value is any function of the accesses so far,
-- and a write to it is recorded.
--
-- Not modelled: trace output, the detection of threads and the record of jumps for the debugger, the
-- timer of the ATtinyX5, the SPI, pin change interrupts of ports, analog parts, pins with their
-- voltages, the wiring of the single devices, network chips, the debugger's protocol, the user
-- interface and the loading of ELF files.
mod Prelude
pub mod Sreg
pub mod Decode
pub mod Flash
pub mod Periph
pub mod Core
pub mod Clock
pub mod Irq
pub mod Machine
pub mod Timer
pub mod Serial
mod Examples
