-- ===== src/Vm/Exit/Io.antt =====
-- Which I/O instructions are emulated.
use rkhv.Base.{ℕ, ◌+◌, ◌*◌, ◌^◌, ◌<◌, ◌≡◌, arith}
use rkhv.Base.Result.{ok}
use rkhv.Vm.Io.{Size, b, w, d}
use rkhv.Vm.Exit.{Direction, io_out, io_in, Kind, single, str, strrep, IoInstruction, vmx_vmexit_io}

abbrev pub encode_size : Size → ℕ
encode_size b = 0
encode_size w = 1
encode_size d = 3

abbrev pub encode_direction : Direction → ℕ
encode_direction io_out = 0
encode_direction io_in = 1

-- Bit 4 for a string instruction and bit 5 for a REP prefix.
abbrev pub encode_kind : Kind → ℕ
encode_kind single = 0
encode_kind str = 16
encode_kind strrep = 48

-- The exit qualification of an I/O instruction, as the processor lays it out. `operand` is 1 when
-- the port is an immediate operand, and 0 when it is in DX.
abbrev pub encode : ℕ → IoInstruction → ℕ
encode operand i =
    encode_size i.size
    + encode_direction i.direction * 2 ^ 3
    + encode_kind i.kind
    + operand * 2 ^ 6
    + i.port * 2 ^ 16

-- Every I/O instruction that the processor can report, of any size, direction and port, single,
-- string or repeated, with the port in DX or as an immediate operand, is the one that the handler
-- chooses.
pub vmx_vmexit_io-encode :
    (direction : Direction) (size : Size) (kind : Kind) (port operand : ℕ)
    → port < 2 ^ 16
    → operand < 2
    → vmx_vmexit_io
        (encode operand (record { direction = direction; size = size; kind = kind; port = port }))
      ≡ ok (record { direction = direction; size = size; kind = kind; port = port })
unfolding vmx_vmexit_io
vmx_vmexit_io-encode io_out b single port operand h o = ground arith
vmx_vmexit_io-encode io_out b str port operand h o = ground arith
vmx_vmexit_io-encode io_out b strrep port operand h o = ground arith
vmx_vmexit_io-encode io_out w single port operand h o = ground arith
vmx_vmexit_io-encode io_out w str port operand h o = ground arith
vmx_vmexit_io-encode io_out w strrep port operand h o = ground arith
vmx_vmexit_io-encode io_out d single port operand h o = ground arith
vmx_vmexit_io-encode io_out d str port operand h o = ground arith
vmx_vmexit_io-encode io_out d strrep port operand h o = ground arith
vmx_vmexit_io-encode io_in b single port operand h o = ground arith
vmx_vmexit_io-encode io_in b str port operand h o = ground arith
vmx_vmexit_io-encode io_in b strrep port operand h o = ground arith
vmx_vmexit_io-encode io_in w single port operand h o = ground arith
vmx_vmexit_io-encode io_in w str port operand h o = ground arith
vmx_vmexit_io-encode io_in w strrep port operand h o = ground arith
vmx_vmexit_io-encode io_in d single port operand h o = ground arith
vmx_vmexit_io-encode io_in d str port operand h o = ground arith
vmx_vmexit_io-encode io_in d strrep port operand h o = ground arith
