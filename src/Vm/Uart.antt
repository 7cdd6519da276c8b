-- ===== src/Vm/Uart.antt =====
-- hv/src/vmm/devices/vmd_8250uart.c: the emulated serial port of a guest.
pub mod Buffer
pub mod Registers
use rkhv.Base.{
  ℕ, ◌+◌, ◌-◌, ◌*◌, ◌/◌, ◌%◌, ◌^◌, bit_and, bit_or, Bool, true, false, ◌&&◌, ◌||◌, List, [], ◌∷◌,
  ◌++◌, Option, none, some, ltb, leb, ◌==◌, nonzero, if◌then◌else◌, set, get_elem?, length,
  replicate,
}
use rkhv.Base.Result.{Result, ok, panic, uart_port, ◌>>=◌}

abbrev pub com_line_control_dlab : ℕ
com_line_control_dlab = 0x80

abbrev pub com_ports_len : ℕ
com_ports_len = 8

-- VMD_8250UART_T_OUTPUT_BUFFER_CAPACITY
abbrev pub output_buffer_capacity : ℕ
output_buffer_capacity = 128

-- '\n'
abbrev pub newline : ℕ
newline = 10

-- vmd_8250uart_t, and the lines printed so far, the last first.
pub record Uart : Type 0 where
  pub output_buffer : List ℕ
  pub output_buffer_size : ℕ
  pub port_base : ℕ
  pub baud_rate_divisor : ℕ
  pub int_enable_reg : ℕ
  pub fifo_control_reg : ℕ
  pub line_control_reg : ℕ
  pub modem_control_reg : ℕ
  pub printed : List (List ℕ)

-- The bytes of a C string.
abbrev pub c_string : List ℕ → List ℕ
c_string [] = []
c_string (b ∷ bs) = if b == 0 then [] else b ∷ c_string bs

-- The first half of vmd_8250uart_putc: `buffer[size] = byte; size++`.
unfoldable pub append_byte : ℕ → Uart → Uart
append_byte read_byte uart =
    let size =
      if leb (output_buffer_capacity - 1) uart.output_buffer_size
      then 0
      else uart.output_buffer_size in
    record uart {
      output_buffer = set uart.output_buffer size read_byte;
      output_buffer_size = size + 1;
    }

-- The second half: terminate the line, print it and empty the buffer.
unfoldable pub flush_line : Uart → Uart
flush_line uart =
    let size = uart.output_buffer_size in
    let ends : Bool = elim (get_elem? uart.output_buffer (size - 1)) [
      | some b ↦ b == newline
      | none ↦ false
    ] in
    let buffer = set uart.output_buffer (if ltb 0 size && ends then size - 1 else size) 0 in
    record uart {
      output_buffer = buffer;
      output_buffer_size = 0;
      printed = c_string buffer ∷ uart.printed;
    }

unfoldable pub vmd_8250uart_putc : ℕ → Uart → Uart
unfolding append_byte flush_line
vmd_8250uart_putc read_byte uart =
    let u = append_byte read_byte uart in
    if read_byte == newline || leb (output_buffer_capacity - 1) u.output_buffer_size
    then flush_line u
    else u

-- uint16_t port_offset
unfoldable pub port_offset : ℕ → Uart → ℕ
port_offset port uart = (port + 2 ^ 16 - uart.port_base) % 2 ^ 16

unfoldable pub has_dlab : Uart → Bool
has_dlab uart = nonzero (bit_and uart.line_control_reg com_line_control_dlab)

-- The debug output of the control registers is left out.
unfoldable pub vmd_8250uart_outb_handler : ℕ → ℕ → Uart → Result Uart
unfolding vmd_8250uart_putc port_offset has_dlab
vmd_8250uart_outb_handler port read_byte uart =
    let offset = port_offset port uart in
    if offset == 0
    then ok (
        if has_dlab uart
        then record uart {
          baud_rate_divisor = bit_or (bit_and uart.baud_rate_divisor 0xff00) read_byte;
        }
        else vmd_8250uart_putc read_byte uart)
    else if offset == 1
    then ok (
        if has_dlab uart
        then record uart {
          baud_rate_divisor =
              bit_or (bit_and uart.baud_rate_divisor 0xff) (read_byte * 2 ^ 8) % 2 ^ 16;
        }
        else record uart { int_enable_reg = bit_and read_byte 0x0f })
    else if offset == 2
    then ok (record uart { fifo_control_reg = bit_and read_byte 0xcf })
    else if offset == 3
    then ok (record uart { line_control_reg = read_byte })
    else if offset == 4
    then ok (record uart { modem_control_reg = bit_and read_byte 0x1b })
    else if offset == 5 || offset == 6 || offset == 7
    then ok uart
    else panic uart_port

unfoldable pub vmd_8250uart_inb_handler : ℕ → Uart → Result ℕ
unfolding port_offset has_dlab
vmd_8250uart_inb_handler port uart =
    let offset = port_offset port uart in
    if offset == 0
    then ok (if has_dlab uart then bit_and uart.baud_rate_divisor 0xff else 0)
    else if offset == 1
    then ok (if has_dlab uart then uart.baud_rate_divisor / 2 ^ 8 % 2 ^ 8 else uart.int_enable_reg)
    else if offset == 2
    then ok 0
    else if offset == 3
    then ok uart.line_control_reg
    else if offset == 4
    then ok uart.modem_control_reg
    else if offset == 5
    then ok 0x60
    else if offset == 6
    then ok 0
    else if offset == 7
    then ok 0
    else panic uart_port

-- vmd_8250uart_create: the zeroed port. Its entry in the list of devices is left out.
unfoldable pub vmd_8250uart_create : ℕ → Uart
vmd_8250uart_create port_base = record {
  output_buffer = replicate output_buffer_capacity 0;
  output_buffer_size = 0;
  port_base = port_base;
  baud_rate_divisor = 0;
  int_enable_reg = 0;
  fifo_control_reg = 0;
  line_control_reg = 0;
  modem_control_reg = 0;
  printed = [];
}
