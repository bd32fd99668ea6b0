-- ===== src/Tuple/Limits.antt =====
-- The size checks of `serialize`.
use simple_duck_dbms.Base.{
  ℕ, ◌%◌, ◌^◌, ◌<◌, ◌≡◌, refl, List, ◌++◌, length, ok, throw, Error, lt→ltb,
}
use simple_duck_dbms.Bytes.{to_bytes}
use simple_duck_dbms.Value.{TypeId, of_string, of_vector, serialized_size, serialize_to}
use simple_duck_dbms.Column.{is_fixed_size}
use simple_duck_dbms.Tuple.{check_size, write_variable, write_column}

-- For a column of a length that is not 0, and a string or bytes longer than that: CHAR and VARCHAR
-- refuse the string, and VARBINARY writes the bytes, behind their number modulo 2 ^ 16.
pub write_column_limits :
    (name s out : List ℕ) (l : ℕ)
    → 0 < l
    → l < length s
    → (write_column (record { name = name; type = TypeId.char; length = l }) (of_string s) out
        ≡ throw Error.runtime_error)
      × (write_column (record { name = name; type = TypeId.varchar; length = l }) (of_string s) out
          ≡ throw Error.runtime_error)
      × (write_column
            (record { name = name; type = TypeId.varbinary; length = l })
            (of_vector s)
            out
          ≡ ok ((out ++ to_bytes 2 (length s % 2 ^ 16)) ++ s))
unfolding write_column check_size write_variable serialized_size serialize_to is_fixed_size
    of_string of_vector
write_column_limits name s out l pos h =
    let p = lt→ltb 0 l pos in let q = lt→ltb l (length s) h in (rw q refl, rw (p, q) refl, refl)
