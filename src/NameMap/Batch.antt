-- ===== src/NameMap/Batch.antt =====
-- The batches of names of src/name_map.rs: hashes, lengths and then the names, without terminators.
-- The hash of bytes, cityhash, is a parameter. Words wrap as in a build without overflow checks.
use retoc.Prelude.{
  ℕ, ◌∷◌, [], List, ◌+◌, if◌then◌else◌, ◌++◌, length, ◌==◌, ◌≡◌, ◌%◌, ◌^◌, ◌<◌, is_empty, ◌*◌, inl,
  true, inr, false, refl, arith, Bool-cases, ◌-◌, ◌≢◌, lt→ltb, map, append_assoc, subst, sym,
}
use retoc.Ser.Stream.{
  de_uint, ◌>>=◌, ◌>>◌, Reader, pure, read_exact, to_le_bytes, lift, from_le_bytes,
  read_exact-append,
}
use retoc.Ser.BigEndian.{from_be_bytes, to_be_bytes}
use retoc.Ser.Utf.{
  Text, IsText, is_ascii, encode_utf16, encode_utf16-IsUnit, from_utf8_lossy-ascii, IsUnit,
  from_utf16-encode_utf16, IsText-chars, length-encode_utf16,
}
use retoc.Prelude.Int.{ℤ, is_negative, of_pattern, add_ℤ, pos, negsuc, neg}
use retoc.Compression.{to_ascii_lowercase}
use retoc.Ser.Strings.{read_string, until_nul, IsText-nonzero, IsUnit-nonzero}
use retoc.Ser.Words.{
  ser_u32, de_u32, de_u64, ser_u16, ser_u64, de_u16, de_u16-ser_u16, de_u32-ser_u32, de_u64-ser_u64,
}
use retoc.Ser.Arrays.{ser_array, read_array, All, read_array-ser_array, All-map}
use retoc.Outcome.{ok}
use native.Mathlib.Nat.{mod-eq_of_lt}
use retoc.Outcome
pub mod RoundTrip

abbrev pub name_hash_algorithm_id : ℕ
name_hash_algorithm_id = 0xC1640000

-- A negative length counts the units of UTF-16 from the least `i16`.
unfoldable pub name_header : Text → List ℕ
name_header name =
    to_be_bytes 2 (
      if is_ascii name
      then length name % 2 ^ 16
      else (length (encode_utf16 name) + 2 ^ 15) % 2 ^ 16)

unfoldable pub name_byte_size : Text → ℕ
name_byte_size name = if is_ascii name then length name else length (encode_utf16 name) * 2

unfoldable pub name_bytes : Text → List ℕ
name_bytes name = if is_ascii name then name else ser_array ser_u16 (encode_utf16 name)

unfoldable pub total_size : List Text → ℕ
total_size [] = 0
total_size (name ∷ names) = name_byte_size name + total_size names

module _ (cityhash : List ℕ → ℕ) where
  unfoldable pub name_hash : Text → ℕ
  name_hash name =
      let lower = to_ascii_lowercase name in
      cityhash (if is_ascii lower then lower else ser_array ser_u16 (encode_utf16 lower))

  unfoldable pub write_name_batch : List Text → List ℕ
  write_name_batch names =
      ser_u32 (length names % 2 ^ 32)
      ++ (if is_empty names
          then []
          else ser_u32 (total_size names % 2 ^ 32)
            ++ (ser_u64 name_hash_algorithm_id
                ++ (ser_array (λ name. ser_u64 (name_hash name)) names
                    ++ (ser_array name_header names ++ ser_array name_bytes names))))

-- `i16::from_be_bytes`
unfoldable pub de_be_i16 : Reader ℤ
de_be_i16 = do bytes ← read_exact 2; pure (of_pattern (2 ^ 15) (from_be_bytes bytes))

-- `if l < 0 { i16::MIN - l } else { l }`
unfoldable pub name_length : ℤ → ℤ
name_length l = if is_negative l then add_ℤ (negsuc 32767) (neg l) else l

unfoldable pub read_names : List ℤ → Reader (List Text)
read_names [] = pure []
read_names (l ∷ lengths) = do
  name ← read_string (name_length l)
  names ← read_names lengths
  pure (name ∷ names)

unfoldable pub read_batch : ℕ → Reader (List Text)
read_batch num = do
  de_u32
  hash_version ← de_u64
  lift (Outcome.assert (hash_version == name_hash_algorithm_id))
  read_exact (num * 8)
  lengths ← read_array num de_be_i16
  read_names lengths

unfoldable pub read_name_batch : Reader (List Text)
read_name_batch = do num ← de_u32; if num == 0 then pure [] else read_batch num
