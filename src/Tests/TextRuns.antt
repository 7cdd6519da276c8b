-- ===== src/Tests/TextRuns.antt =====
-- Numbers written into a buffer, and addresses taken apart.
use rkhv.Base.{ℕ, ◌≡◌, ◌+◌, ◌*◌, ◌^◌, ◌<◌, List, replicate, arith}
use rkhv.Memory.{p2v_identity_map, v2p_identity_map, v2p_identity_map-p2v_identity_map}
use rkhv.Paging.{
  linear_address_get_pml4, linear_address_get_directory_ptr, linear_address_get_directory,
  linear_address_get_table, linear_address_get_offset, linear_address_fields,
}
use rkhv.Text.{str_utoa, str_itoh}
use rkhv.Interrupts.{gate_of, gate_of-offset}
use rkhv.Text.Decimal.{IsText, str_utoa-IsText}
use rkhv.Text.Hex.{IsHex, str_itoh-IsHex}

abbrev buffer : List ℕ
buffer = replicate 18 0

str_utoa-IsText_example : IsText (str_utoa buffer 40960 8) buffer 7 40960
str_utoa-IsText_example = str_utoa-IsText buffer 40960 8 (omega arith) (omega arith) (omega arith)

str_itoh-IsHex_example : IsHex (str_itoh 2 buffer 0xbeef 16).0 buffer 2 16 0xbeef
str_itoh-IsHex_example = str_itoh-IsHex 2 16 buffer 0xbeef (omega arith)

linear_address_fields_example :
    linear_address_get_pml4 0x7f1234567abc * 2 ^ 39
      + linear_address_get_directory_ptr 0x7f1234567abc * 2 ^ 30
      + linear_address_get_directory 0x7f1234567abc * 2 ^ 21
      + linear_address_get_table 0x7f1234567abc * 2 ^ 12
      + linear_address_get_offset 0x7f1234567abc
    ≡ 0x7f1234567abc
linear_address_fields_example = linear_address_fields 0x7f1234567abc (omega arith)

v2p_identity_map-p2v_identity_map_example : v2p_identity_map (p2v_identity_map 0x7c000) ≡ 0x7c000
v2p_identity_map-p2v_identity_map_example = v2p_identity_map-p2v_identity_map 0x7c000 (omega arith)

gate_of-offset_example :
    ((gate_of 0xffffff0000001234).offset_low
        + (gate_of 0xffffff0000001234).offset_mid * 2 ^ 16
        + (gate_of 0xffffff0000001234).offset_high * 2 ^ 32
      ≡ 0xffffff0000001234)
    × ((gate_of 0xffffff0000001234).offset_low < 2 ^ 16)
    × ((gate_of 0xffffff0000001234).offset_mid < 2 ^ 16)
    × ((gate_of 0xffffff0000001234).offset_high < 2 ^ 32)
gate_of-offset_example = gate_of-offset 0xffffff0000001234 (omega arith)
