-- ===== src/Schema/Tests.antt =====
-- A schema of two columns.
use simple_duck_dbms.Base.{◌≡◌, arith, [], ◌∷◌, ok}
use simple_duck_dbms.Value.{TypeId}
use simple_duck_dbms.Schema.{Schema, serialize, of_raw}
use simple_duck_dbms.Schema.RoundTrip.{schema_of_raw-serialize}

abbrev two_columns : Schema
two_columns = record {
  columns =
      record { name = 105 ∷ 100 ∷ []; type = TypeId.int64; length = 8 }
      ∷ record { name = 120 ∷ []; type = TypeId.char; length = 3 }
      ∷ [];
}

schema_of_raw-serialize_example : of_raw (serialize two_columns) ≡ ok two_columns
schema_of_raw-serialize_example =
    schema_of_raw-serialize two_columns
      (
        record { type_ok = tt; length_ok = omega arith; name_ok = omega arith },
        (record { type_ok = tt; length_ok = omega arith; name_ok = omega arith }, tt),
      )
      (omega arith)
