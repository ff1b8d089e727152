-- ===== src/Examples/Steps.antt =====
-- Skips, the write of a page, the boot section and the stack of three levels at concrete states.
use simulavr.Prelude.{
  ℕ, ◌*◌, ◌%◌, ◌≢◌, if◌then◌else◌, ◌≤◌, ◌<◌, [], ◌∷◌, ◌≡◌, refl, arith, some, false, true, ◌==◌,
}
use simulavr.Prelude.Int.{pos}
use simulavr.Core.Device.{Device}
use simulavr.Core.Execute.{execute}
use simulavr.Core.Result.{ok}
use simulavr.Decode.Case.{full}
use simulavr.Decode.Instruction.{avr_op_cpse, avr_op_illegal}
use simulavr.Decode.Lookup.{lookup_opcode, lookup_no_operand, lookup_rd_5_rr_5, lookup_rd_5}
use simulavr.Examples.{flash, flash-IsCoherent, device}
use simulavr.Flash.{AvrFlash, word_at}
use simulavr.Flash.Coherence.{IsCoherent}
use simulavr.Machine.{next_pc}
use simulavr.Machine.Skips.{HasNext, execute-next_pc}
use simulavr.Periph.Fuses.{AvrFuses}
use simulavr.Core.Stack.ThreeLevels.{ThreeLevelStack, push_addr, pop_addr}
use simulavr.Core.Stack.ThreeLevels.Bounded.{contents, push_addr-contents}
use simulavr.Periph.Spm.{FlashProgramming, prepare, writebuffer, store_page}
use simulavr.Periph.Spm.Pages.{IsWritten, store_page-IsWritten}

-- Every word of the flash is 0x9230, `STS k, R3`.
abbrev stores : ℕ → ℕ
stores a = if a % 2 == 0 then 0x92 else 0x30

abbrev storing : Device
storing = record device {
  flash = record flash {
    memory = stores;
    decoded = λ w. some (lookup_opcode full (word_at stores (w * 2)));
  };
}

storing-IsLegal : lookup_opcode full 0x9230 ≢ avr_op_illegal
unfolding lookup_opcode lookup_no_operand lookup_rd_5_rr_5 lookup_rd_5
storing-IsLegal e = cc

storing-HasNext : HasNext storing
unfolding IsCoherent
storing-HasNext = record {
  coherent = λ w h. refl;
  inside = omega arith;
  no_wrap = omega arith;
  word = omega arith;
  legal = storing-IsLegal;
}

execute-next_pc_example :
    (d' : Device) × (execute (avr_op_cpse 3 3) storing ≡ ok (d', pos 3))
    × (next_pc d' ≡ record storing { pc = 7 })
execute-next_pc_example = execute-next_pc (avr_op_cpse 3 3) true storing storing-HasNext refl

-- Pages of 4 words, the last two of the flash outside the section that can be read while it is
-- written.
abbrev engine : FlashProgramming
engine = record {
  page_size = 4;
  nrww_addr = 8;
  spmcr_val = 0x05;
  spmcr_opr_bits = 0x1f;
  spmcr_valid_bits = 0x9f;
  opr_enable_count = 0;
  action = prepare;
  spm_opr = writebuffer;
  timeout = 0;
  temp_buffer = λ i. i;
  is_at_mega = true;
}

store_page-IsWritten_example :
    (q : FlashProgramming) × (f' : AvrFlash) × (store_page full 1_000 8 engine flash
      ≡ ok (q, f', 0))
    × IsWritten full 1_000 8 engine q f'
store_page-IsWritten_example =
    store_page-IsWritten full 1_000 8 engine flash (omega arith) (omega arith) flash-IsCoherent

-- A boot section of 2 KB at the end of the flash of the ATmega8, halved twice.
abbrev fuses : AvrFuses
fuses = record {
  fuse_bits_size = 16;
  fuse_bits = 0xfde2;
  nrww_addr = 0xc00;
  nrww_size = 0x400;
  bit_pos_bootsz = some 9;
  bit_pos_bootrst = some 8;
  flag_bootrst = false;
  value_bootsz = 2;
}

abbrev two_addresses : ThreeLevelStack
two_addresses = record {
  first = 7;
  second = 9;
  third = 0;
  stack_pointer = 1;
  lowest_stack_pointer = 1;
}

push_addr-contents_example :
    (contents (push_addr 5 two_addresses) ≡ 5 ∷ 7 ∷ 9 ∷ [])
    × ((push_addr 5 two_addresses).stack_pointer ≤ 3)
    × (1 < 3
        → (contents two_addresses
            ≡ (pop_addr two_addresses).0 ∷ contents ((pop_addr two_addresses).1))
          × ((pop_addr two_addresses).1.stack_pointer ≤ 3))
push_addr-contents_example = push_addr-contents 5 two_addresses (omega arith)
