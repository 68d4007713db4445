-- ===== src/Gguf/Metadata.antt =====
-- The metadata accessors of class GgufFile, src/gguf.cpp.
use miinfer.Prelude.{ℕ, Bool, true, false, ◌&&◌, Option, some, none, List, [], ◌∷◌, ok, err, length}
use miinfer.Prelude.Int.{ℤ, pos, negsuc}
use miinfer.Gguf.Types.{
  missing_or_non_scalar, missing_or_non_array, not_a_string, negative_unsigned, not_unsigned,
  not_numeric, Double, Scalar, unsigned, int, double, str, Value, scalar, array, File, Outcome,
}
use miinfer.Gguf.Parse.{find_entry}

unfoldable pub metadata : File → List ℕ → Option Value
unfolding find_entry
metadata file key = find_entry key file.metadata

-- The test that opens the scalar accessors.
unfoldable pub scalar_of : Option Value → Outcome Scalar
scalar_of (some (scalar value)) = ok value
scalar_of (some (array values)) = err missing_or_non_scalar
scalar_of none = err missing_or_non_scalar

unfoldable pub string_of : Outcome Scalar → Outcome (List ℕ)
string_of (ok (str value)) = ok value
string_of (ok other) = err not_a_string
string_of (err e) = err e

unfoldable pub metadata_string : File → List ℕ → Outcome (List ℕ)
unfolding metadata scalar_of string_of
metadata_string file key = string_of (scalar_of (metadata file key))

unfoldable pub unsigned_of : Outcome Scalar → Outcome ℕ
unsigned_of (ok (unsigned value)) = ok value
unsigned_of (ok (int (pos value))) = ok value
unsigned_of (ok (int (negsuc value))) = err negative_unsigned
unsigned_of (ok other) = err not_unsigned
unsigned_of (err e) = err e

unfoldable pub metadata_unsigned : File → List ℕ → Outcome ℕ
unfolding metadata scalar_of unsigned_of
metadata_unsigned file key = unsigned_of (scalar_of (metadata file key))

-- The number that metadata_float converts to `double`.
pub data Number : Type 0 where
  from_double : Double → Number
  from_unsigned : ℕ → Number
  from_signed : ℤ → Number

unfoldable pub float_of : Outcome Scalar → Outcome Number
float_of (ok (double value)) = ok (from_double value)
float_of (ok (unsigned value)) = ok (from_unsigned value)
float_of (ok (int value)) = ok (from_signed value)
float_of (ok other) = err not_numeric
float_of (err e) = err e

unfoldable pub metadata_float : File → List ℕ → Outcome Number
unfolding metadata scalar_of float_of
metadata_float file key = float_of (scalar_of (metadata file key))

unfoldable pub array_of : Option Value → Outcome (List Scalar)
array_of (some (array values)) = ok values
array_of (some (scalar value)) = err missing_or_non_array
array_of none = err missing_or_non_array

unfoldable pub size_of : Outcome (List Scalar) → Outcome ℕ
size_of (ok values) = ok (length values)
size_of (err e) = err e

unfoldable pub metadata_array_size : File → List ℕ → Outcome ℕ
unfolding metadata array_of size_of
metadata_array_size file key = size_of (array_of (metadata file key))

unfoldable pub is_string : Scalar → Bool
is_string (str value) = true
is_string other = false

unfoldable pub all_strings : List Scalar → Bool
unfolding is_string
all_strings [] = true
all_strings (x ∷ xs) = is_string x && all_strings xs

unfoldable pub strings_of : Outcome (List Scalar) → Outcome Bool
unfolding all_strings
strings_of (ok values) = ok (all_strings values)
strings_of (err e) = err e

unfoldable pub metadata_array_is_string : File → List ℕ → Outcome Bool
unfolding metadata array_of strings_of
metadata_array_is_string file key = strings_of (array_of (metadata file key))
