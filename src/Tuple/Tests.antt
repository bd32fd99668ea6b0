-- ===== src/Tuple/Tests.antt =====
-- A row of an INT32, a VARCHAR(4) and a NULL BOOL.
use simple_duck_dbms.Base.{
  ◌≡◌, refl, arith, List, [], ◌∷◌, length, ℕ, ◌++◌, ◌%◌, ◌^◌, ok, throw, Error,
}
use simple_duck_dbms.Value.{TypeId, ValueType, Value, null, of_int32, of_string, of_vector}
use simple_duck_dbms.Bytes.{to_bytes}
use simple_duck_dbms.Column.{Column}
use simple_duck_dbms.Schema.{Schema}
use simple_duck_dbms.Tuple.{Tuple, serialize, of_raw, write_column}
use simple_duck_dbms.Tuple.Stored.{Stored}
use simple_duck_dbms.Tuple.RoundTrip.{Fits, serialize_total, of_raw-serialize}
use simple_duck_dbms.Tuple.Limits.{write_column_limits}

abbrev pub row_schema : Schema
row_schema = record {
  columns =
      record { name = 105 ∷ []; type = TypeId.int32; length = 4 }
      ∷ record { name = 115 ∷ []; type = TypeId.varchar; length = 4 }
      ∷ record { name = 98 ∷ []; type = TypeId.bool; length = 1 }
      ∷ [];
}

abbrev pub row : Tuple
row = record {
  schema = row_schema;
  values = of_int32 7 ∷ of_string (104 ∷ 105 ∷ []) ∷ null ValueType.bool ∷ [];
}

abbrev pub row_bytes : List ℕ
row_bytes = 4 ∷ 7 ∷ 0 ∷ 0 ∷ 0 ∷ 2 ∷ 0 ∷ 104 ∷ 105 ∷ 0 ∷ []

abbrev two_bytes : List ℕ
two_bytes = 1 ∷ 2 ∷ []

row-Fits : Fits row_schema.columns row.values
unfolding simple_duck_dbms.Value.value_type
row-Fits = (
  Stored.int32 4 7 (omega arith),
  (
    Stored.bounded 4 (104 ∷ 105 ∷ []) (omega arith) (omega arith) (omega arith),
    (Stored.absent TypeId.bool 1 ValueType.bool refl tt, tt),
  ),
)

pub row_serialized : serialize row ≡ ok row_bytes
unfolding serialize simple_duck_dbms.Tuple.mark_nulls of_int32 of_string null
    simple_duck_dbms.NullBitmap.set_null simple_duck_dbms.NullBitmap.size
    simple_duck_dbms.Tuple.write_columns write_column simple_duck_dbms.Tuple.check_size
    simple_duck_dbms.Column.is_fixed_size simple_duck_dbms.Schema.fixed_size
    simple_duck_dbms.Value.serialize_to simple_duck_dbms.Value.serialized_size to_bytes
    simple_duck_dbms.NullBitmap.with_bit
row_serialized = refl

of_raw-serialize_example : of_raw row_bytes row_schema ≡ ok row
of_raw-serialize_example = of_raw-serialize row row_bytes row-Fits row_serialized (omega arith)

serialize_total_example : (raw : List ℕ) × (serialize row ≡ ok raw)
serialize_total_example = serialize_total row row-Fits

write_column_limits_example :
    (write_column (record { name = []; type = TypeId.char; length = 1 }) (of_string two_bytes) []
      ≡ throw Error.runtime_error)
    × (write_column
          (record { name = []; type = TypeId.varchar; length = 1 })
          (of_string two_bytes)
          []
        ≡ throw Error.runtime_error)
    × (write_column
          (record { name = []; type = TypeId.varbinary; length = 1 })
          (of_vector two_bytes)
          []
        ≡ ok (([] ++ to_bytes 2 (length two_bytes % 2 ^ 16)) ++ two_bytes))
write_column_limits_example = write_column_limits [] two_bytes [] 1 (omega arith) (omega arith)
