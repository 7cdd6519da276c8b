-- ===== src/Interrupts.antt =====
-- hv/src/interrupts.c: the gates of the interrupt descriptor table.
use rkhv.Base.{ℕ, ◌+◌, ◌*◌, ◌/◌, ◌%◌, ◌^◌, bit_and, bit_or, ◌<◌, ◌≡◌, arith}

-- idt_gate_descriptor_t, without the reserved field, which stays 0.
pub record IdtGateDescriptor : Type 0 where
  pub offset_low : ℕ
  pub offset_mid : ℕ
  pub offset_high : ℕ
  pub segment_selector : ℕ
  pub ist : ℕ
  pub bitfield : ℕ

abbrev pub rkhv_cs : ℕ
rkhv_cs = 0x10

abbrev pub idt_gate_descriptor_bitfield_present : ℕ
idt_gate_descriptor_bitfield_present = 0x80

abbrev pub idt_gate_descriptor_bitfield_gate_trap : ℕ
idt_gate_descriptor_bitfield_gate_trap = 0x0F

unfoldable pub idt_gate_descriptor_bitfield_dpl : ℕ → ℕ
idt_gate_descriptor_bitfield_dpl x = bit_and x 3 * 2 ^ 5

-- The turn of interrupts_setup for one stub.
unfoldable pub gate_of : ℕ → IdtGateDescriptor
gate_of isr_stub = record {
  offset_low = isr_stub % 2 ^ 16;
  offset_mid = isr_stub / 2 ^ 16 % 2 ^ 16;
  offset_high = isr_stub / 2 ^ 32 % 2 ^ 32;
  segment_selector = rkhv_cs;
  ist = 0;
  bitfield =
      bit_or (bit_or idt_gate_descriptor_bitfield_present idt_gate_descriptor_bitfield_gate_trap)
        (idt_gate_descriptor_bitfield_dpl 0);
}

-- The three parts of a gate put together are the address of the stub, and each fits its field.
pub gate_of-offset :
    (isr_stub : ℕ)
    → isr_stub < 2 ^ 64
    → ((gate_of isr_stub).offset_low
          + (gate_of isr_stub).offset_mid * 2 ^ 16
          + (gate_of isr_stub).offset_high * 2 ^ 32
        ≡ isr_stub)
      × ((gate_of isr_stub).offset_low < 2 ^ 16)
      × ((gate_of isr_stub).offset_mid < 2 ^ 16)
      × ((gate_of isr_stub).offset_high < 2 ^ 32)
unfolding gate_of
gate_of-offset isr_stub h = (omega arith, omega arith, omega arith, omega arith)
