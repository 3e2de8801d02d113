-- ===== src/NameMap/Batch/RoundTrip.antt =====
-- `read_name_batch` of src/name_map.rs on what `write_name_batch` wrote.
use retoc.Prelude.{◌+◌, if◌then◌else◌, length, ◌^◌, ◌<◌}
use retoc.Ser.Utf.{Text, IsText, is_ascii, encode_utf16}
use retoc.Prelude.Int.{ℤ, of_pattern, pos}

-- The names whose lengths fit the headers.
abbrev IsName : Text → Type 0
IsName name = IsText name × (length name < 2 ^ 15) × (length (encode_utf16 name) < 2 ^ 15)

-- The length that the header of a name stands for.
abbrev length_of : Text → ℤ
length_of name =
    if is_ascii name
    then pos (length name)
    else of_pattern (2 ^ 15) (length (encode_utf16 name) + 2 ^ 15)
