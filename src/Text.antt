-- ===== src/Text.antt =====
-- hv/src/string.c: numbers as text. A buffer is a list of bytes, a pointer into it an index.
pub mod Decimal
pub mod Hex
use rkhv.Base.{
  ℕ, zero, suc, ◌+◌, ◌-◌, ◌*◌, ◌/◌, ◌%◌, ◌^◌, Bool, true, false, List, [], ◌∷◌, Option, none, some,
  ltb, ◌==◌, if◌then◌else◌, set,
}

-- The loop of str_utoa, from `index` down; the result is the buffer and the start of the text.
unfoldable pub str_utoa_loop : ℕ → List ℕ → ℕ → List ℕ × ℕ
str_utoa_loop zero buffer value = (set buffer zero (48 + value % 10), 0)
str_utoa_loop (suc index) buffer value =
    let written = set buffer (suc index) (48 + value % 10) in
    let rest = str_utoa_loop index written (value / 10) in
    if value / 10 == 0 then (written, suc index) else rest

-- The callers give a size that is not 0.
unfoldable pub str_utoa : List ℕ → ℕ → ℕ → List ℕ × ℕ
unfolding str_utoa_loop
str_utoa buffer value buffer_size = str_utoa_loop (buffer_size - 1) buffer value

abbrev pub hex_digit : ℕ → ℕ
hex_digit nibble = if ltb nibble 10 then 48 + nibble else 97 + nibble - 10

-- The loop of str_itoh on the `size` bytes from `base` on, with trimmed_start.
unfoldable pub str_itoh_loop : ℕ → ℕ → List ℕ → ℕ → Option ℕ → List ℕ × Option ℕ
str_itoh_loop base zero out_string value trimmed = (out_string, trimmed)
str_itoh_loop base (suc index) out_string value trimmed =
    let start : Option ℕ = elim trimmed [
      | some t ↦ some t
      | none ↦ if value / 16 == 0 then some (base + index) else none
    ] in
    str_itoh_loop base index (set out_string (base + index) (hex_digit (value % 16))) (value / 16)
      start

-- str_itoh(&out_string[base], value, size); `none` is NULL.
unfoldable pub str_itoh : ℕ → List ℕ → ℕ → ℕ → List ℕ × Option ℕ
unfolding str_itoh_loop
str_itoh base out_string value size = str_itoh_loop base size out_string value none

-- str_strlen, on a buffer that holds a terminator; `none` is a read past its end.
unfoldable pub str_strlen : List ℕ → Option ℕ
str_strlen [] = none
str_strlen (c ∷ s) =
    if c == 0 then some 0 else elim (str_strlen s) [ some n ↦ some (n + 1) | none ↦ none ]

-- str_itouh of boot/src/string.c: the same digits as 16-bit characters, from the last one down.
unfoldable pub str_itouh : ℕ → List ℕ → ℕ → List ℕ
str_itouh zero out_string value = out_string
str_itouh (suc index) out_string value =
    str_itouh index (set out_string index (hex_digit (value % 16))) (value / 16)
