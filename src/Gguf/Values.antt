-- ===== src/Gguf/Values.antt =====
-- read_scalar and read_value of src/gguf.cpp.
use miinfer.Prelude.{ℕ, zero, suc, List, [], ◌∷◌, not, ltb, ◌==◌, if◌then◌else◌}
use miinfer.Prelude.Int.{signed}
use miinfer.Gguf.Types.{
  bool_out_of_range, unsupported_scalar, array_too_long, of_float, of_double, Scalar, unsigned, int,
  double, bool, str, Value, scalar, array,
}
use miinfer.Gguf.Checked.{checked_size}
use miinfer.Gguf.Reader.{Read, ◌>>=◌, ◌>>◌, pure, lift, fail, reject, read, string}

abbrev pub read_bool : Read Scalar
read_bool = do
  value ← read 1 "BOOL metadata"
  if ltb 1 value then fail bool_out_of_range else pure (bool (not (value == 0)))

abbrev pub read_float64 : Read Scalar
read_float64 = do value ← read 8 "FLOAT64 metadata"; pure (double (of_double value))

-- The cases 8 to 12 of the switch.
unfoldable pub read_scalar_high : ℕ → Read Scalar
read_scalar_high type =
    if type == 8
    then (do value ← string "STRING metadata"; pure (str value))
    else if type == 10
    then (do value ← read 8 "UINT64 metadata"; pure (unsigned value))
    else if type == 11
    then (do
      value ← read 8 "INT64 metadata"
      pure (int (signed 9223372036854775808 18446744073709551616 value)))
    else if type == 12
    then read_float64
    else fail unsupported_scalar

unfoldable pub read_scalar : ℕ → Read Scalar
unfolding read_scalar_high
read_scalar type =
    if type == 0
    then (do value ← read 1 "UINT8 metadata"; pure (unsigned value))
    else if type == 1
    then (do value ← read 1 "INT8 metadata"; pure (int (signed 128 256 value)))
    else if type == 2
    then (do value ← read 2 "UINT16 metadata"; pure (unsigned value))
    else if type == 3
    then (do value ← read 2 "INT16 metadata"; pure (int (signed 32768 65536 value)))
    else if type == 4
    then (do value ← read 4 "UINT32 metadata"; pure (unsigned value))
    else if type == 5
    then (do value ← read 4 "INT32 metadata"; pure (int (signed 2147483648 4294967296 value)))
    else if type == 6
    then (do value ← read 4 "FLOAT32 metadata"; pure (double (of_float value)))
    else if type == 7
    then read_bool
    else read_scalar_high type

-- The loop of read_value over the elements of an array.
unfoldable pub read_scalars : ℕ → ℕ → Read (List Scalar)
read_scalars zero type = pure []
read_scalars (suc count) type = do
  value ← read_scalar type
  rest ← read_scalars count type
  pure (value ∷ rest)

unfoldable pub read_array : Read Value
read_array = do
  element_type ← read 4 "metadata array type"
  count ← read 8 "metadata array length"
  reject (ltb 268435456 count) array_too_long
  n ← lift (checked_size count "metadata array length")
  values ← read_scalars n element_type
  pure (array values)

unfoldable pub read_value : ℕ → Read Value
unfolding read_array
read_value type =
    if not (type == 9) then (do value ← read_scalar type; pure (scalar value)) else read_array
