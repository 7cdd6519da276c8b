-- ===== src/Vm/Uart/Registers.antt =====
-- The registers of the serial port: what the guest reads back.
use rkhv.Base.{ℕ, ◌+◌, ◌*◌, ◌/◌, ◌%◌, ◌^◌, ◌<◌, ◌≡◌, refl, ap, ◌∙◌, true, arith, bit_and, bit_or}
use rkhv.Base.Bits.{bit_and_low, bit_and_field, bit_or_fields, bit_or_comm}
use rkhv.Base.Result.{ok, ◌>>=◌}
use rkhv.Vm.Uart.{Uart, port_offset, has_dlab, vmd_8250uart_outb_handler, vmd_8250uart_inb_handler}

divisor_low :
    (d low : ℕ) → low < 2 ^ 8 → bit_or (bit_and d 0xff00) low ≡ d / 2 ^ 8 % 2 ^ 8 * 2 ^ 8 + low
divisor_low d low h = rw (bit_and_field 8 8 d) (bit_or_fields 8 (d / 2 ^ 8 % 2 ^ 8) low h)

divisor_high :
    (d high : ℕ)
    → high < 2 ^ 8
    → bit_or (bit_and d 0xff) (high * 2 ^ 8) % 2 ^ 16 ≡ high * 2 ^ 8 + d % 2 ^ 8
divisor_high d high h =
    rw
      (
        bit_and_low 8 d,
        bit_or_comm (d % 2 ^ 8) (high * 2 ^ 8),
        bit_or_fields 8 high (d % 2 ^ 8) (omega arith),
      )
      (omega arith)

out_low :
    (u : Uart) (port low : ℕ)
    → port_offset port u ≡ 0
    → has_dlab u ≡ true
    → low < 2 ^ 8
    → vmd_8250uart_outb_handler port low u
      ≡ ok (record u { baud_rate_divisor = u.baud_rate_divisor / 2 ^ 8 % 2 ^ 8 * 2 ^ 8 + low })
unfolding vmd_8250uart_outb_handler
out_low u port low e d h =
    rw (vmd_8250uart_outb_handler, e, d, divisor_low u.baud_rate_divisor low h) refl

out_high :
    (u : Uart) (port high : ℕ)
    → port_offset port u ≡ 1
    → has_dlab u ≡ true
    → high < 2 ^ 8
    → vmd_8250uart_outb_handler port high u
      ≡ ok (record u { baud_rate_divisor = high * 2 ^ 8 + u.baud_rate_divisor % 2 ^ 8 })
unfolding vmd_8250uart_outb_handler
out_high u port high e d h =
    rw (vmd_8250uart_outb_handler, e, d, divisor_high u.baud_rate_divisor high h) refl

in_low :
    (u : Uart) (port : ℕ)
    → port_offset port u ≡ 0
    → has_dlab u ≡ true
    → vmd_8250uart_inb_handler port u ≡ ok (u.baud_rate_divisor % 2 ^ 8)
unfolding vmd_8250uart_inb_handler
in_low u port e d = rw (vmd_8250uart_inb_handler, e, d, bit_and_low 8 u.baud_rate_divisor) refl

in_high :
    (u : Uart) (port : ℕ)
    → port_offset port u ≡ 1
    → has_dlab u ≡ true
    → vmd_8250uart_inb_handler port u ≡ ok (u.baud_rate_divisor / 2 ^ 8 % 2 ^ 8)
unfolding vmd_8250uart_inb_handler
in_high u port e d = rw (vmd_8250uart_inb_handler, e, d) refl

abbrev with_divisor : Uart → ℕ → Uart
with_divisor u d = record u { baud_rate_divisor = d }

-- The divisor decides neither the ports nor DLAB.
port_offset-with_divisor :
    (u : Uart) (d port : ℕ) → port_offset port (with_divisor u d) ≡ port_offset port u
unfolding port_offset
port_offset-with_divisor u d port = refl

has_dlab-with_divisor : (u : Uart) (d : ℕ) → has_dlab (with_divisor u d) ≡ has_dlab u
unfolding has_dlab
has_dlab-with_divisor u d = refl

-- While DLAB is set, writing the two divisor registers, in either order, and reading them gives
-- the bytes back, and the baud rate divisor is made of them.
pub outb_handler-inb_handler :
    (u : Uart) (lsb msb low high : ℕ)
    → port_offset lsb u ≡ 0
    → port_offset msb u ≡ 1
    → has_dlab u ≡ true
    → low < 2 ^ 8
    → high < 2 ^ 8
    → (v : Uart) × ((vmd_8250uart_outb_handler lsb low u >>= vmd_8250uart_outb_handler msb high)
        ≡ ok v)
      × ((vmd_8250uart_outb_handler msb high u >>= vmd_8250uart_outb_handler lsb low) ≡ ok v)
      × (v.baud_rate_divisor ≡ high * 2 ^ 8 + low)
      × (vmd_8250uart_inb_handler lsb v ≡ ok low)
      × (vmd_8250uart_inb_handler msb v ≡ ok high)
outb_handler-inb_handler u lsb msb low high el em d hl hh =
    let x = u.baud_rate_divisor in
    let y = high * 2 ^ 8 + low in
    let dl : (z : ℕ) → has_dlab (with_divisor u z) ≡ true = λ z. has_dlab-with_divisor u z ∙ d in
    let pl : (z : ℕ) → port_offset lsb (with_divisor u z) ≡ 0 =
      λ z. port_offset-with_divisor u z lsb ∙ el in
    let pm : (z : ℕ) → port_offset msb (with_divisor u z) ≡ 1 =
      λ z. port_offset-with_divisor u z msb ∙ em in
    let n1 : high * 2 ^ 8 + (x / 2 ^ 8 % 2 ^ 8 * 2 ^ 8 + low) % 2 ^ 8 ≡ y = omega arith in
    let n2 : (high * 2 ^ 8 + x % 2 ^ 8) / 2 ^ 8 % 2 ^ 8 * 2 ^ 8 + low ≡ y = omega arith in
    let n3 : y % 2 ^ 8 ≡ low = omega arith in
    let n4 : y / 2 ^ 8 % 2 ^ 8 ≡ high = omega arith in
    (
      with_divisor u y,
      rw (out_low u lsb low el d hl)
          (out_high _ msb high (pm _) (dl _) hh ∙ ap (λ z. ok (with_divisor u z)) n1),
      rw (out_high u msb high em d hh)
          (out_low _ lsb low (pl _) (dl _) hl ∙ ap (λ z. ok (with_divisor u z)) n2),
      refl,
      in_low _ lsb (pl y) (dl y) ∙ ap ok n3,
      in_high _ msb (pm y) (dl y) ∙ ap ok n4,
    )
