-- ===== src/Value.antt =====
-- tuple/value.hpp and tuple/value.cpp: a typed value that may be NULL, its accessors and its bytes.
-- An integer, a `float` and a `double` are held as their bit patterns; a string is its bytes.
use simple_duck_dbms.Base.{
  ℕ, Bool, true, false, ◌||◌, List, [], ◌∷◌, ◌++◌, length, Result, ok, throw, Error, ◌>>=◌, ◌>>◌,
  throw_if,
}
use simple_duck_dbms.Base.Int.{ℤ, pos, signed32, signed64}
use simple_duck_dbms.Bytes.{to_bytes}

pub data TypeId : Type 0 where
  int32 int64 uint32 uint64 float double bool char varchar varbinary : TypeId
  -- A `uint16_t` that is no enumerator, which a `bit_cast` may produce.
  unknown : ℕ → TypeId

pub data ValueType : Type 0 where
  int64 uint64 int32 uint32 double float bool string bytes : ValueType

-- `type_id_to_value_type`
unfoldable pub value_type : TypeId → Result ValueType
value_type TypeId.bool = ok ValueType.bool
value_type TypeId.double = ok ValueType.double
value_type TypeId.float = ok ValueType.float
value_type TypeId.int64 = ok ValueType.int64
value_type TypeId.uint64 = ok ValueType.uint64
value_type TypeId.int32 = ok ValueType.int32
value_type TypeId.uint32 = ok ValueType.uint32
value_type TypeId.char = ok ValueType.string
value_type TypeId.varchar = ok ValueType.string
value_type TypeId.varbinary = ok ValueType.bytes
value_type (TypeId.unknown n) = throw Error.runtime_error

pub data Variant : Type 0 where
  uint64 int64 uint32 int32 double float : ℕ → Variant
  bool : Bool → Variant
  string bytes : List ℕ → Variant

pub record Value : Type 0 where
  pub type : ValueType
  pub is_null : Bool
  pub payload : Variant

-- The default of the variant is its first alternative.
unfoldable pub null : ValueType → Value
null t = record { type = t; is_null = true; payload = Variant.uint64 0 }

of : ValueType → Variant → Value
of t v = record { type = t; is_null = false; payload = v }

unfoldable pub of_int64 : ℕ → Value
unfolding of
of_int64 v = of ValueType.int64 (Variant.int64 v)

unfoldable pub of_uint64 : ℕ → Value
unfolding of
of_uint64 v = of ValueType.uint64 (Variant.uint64 v)

unfoldable pub of_int32 : ℕ → Value
unfolding of
of_int32 v = of ValueType.int32 (Variant.int32 v)

unfoldable pub of_uint32 : ℕ → Value
unfolding of
of_uint32 v = of ValueType.uint32 (Variant.uint32 v)

unfoldable pub of_double : ℕ → Value
unfolding of
of_double v = of ValueType.double (Variant.double v)

unfoldable pub of_float : ℕ → Value
unfolding of
of_float v = of ValueType.float (Variant.float v)

unfoldable pub of_bool : Bool → Value
unfolding of
of_bool v = of ValueType.bool (Variant.bool v)

unfoldable pub of_string : List ℕ → Value
unfolding of
of_string v = of ValueType.string (Variant.string v)

unfoldable pub of_vector : List ℕ → Value
unfolding of
of_vector v = of ValueType.bytes (Variant.bytes v)

-- `std::get<T>`, one for each alternative.
unfoldable pub get_int64 : Variant → Result ℕ
get_int64 (Variant.int64 v) = ok v
get_int64 _ = throw Error.bad_variant_access

unfoldable pub get_uint64 : Variant → Result ℕ
get_uint64 (Variant.uint64 v) = ok v
get_uint64 _ = throw Error.bad_variant_access

unfoldable pub get_int32 : Variant → Result ℕ
get_int32 (Variant.int32 v) = ok v
get_int32 _ = throw Error.bad_variant_access

unfoldable pub get_uint32 : Variant → Result ℕ
get_uint32 (Variant.uint32 v) = ok v
get_uint32 _ = throw Error.bad_variant_access

unfoldable pub get_double : Variant → Result ℕ
get_double (Variant.double v) = ok v
get_double _ = throw Error.bad_variant_access

unfoldable pub get_float : Variant → Result ℕ
get_float (Variant.float v) = ok v
get_float _ = throw Error.bad_variant_access

unfoldable pub get_bool : Variant → Result Bool
get_bool (Variant.bool v) = ok v
get_bool _ = throw Error.bad_variant_access

unfoldable pub get_string : Variant → Result (List ℕ)
get_string (Variant.string v) = ok v
get_string _ = throw Error.bad_variant_access

unfoldable pub get_bytes : Variant → Result (List ℕ)
get_bytes (Variant.bytes v) = ok v
get_bytes _ = throw Error.bad_variant_access

-- The accessors throw on NULL.
unfoldable pub as_int64 : Value → Result ℕ
unfolding get_int64
as_int64 v = do throw_if v.is_null Error.runtime_error; get_int64 v.payload

unfoldable pub as_uint64 : Value → Result ℕ
unfolding get_uint64
as_uint64 v = do throw_if v.is_null Error.runtime_error; get_uint64 v.payload

unfoldable pub as_int32 : Value → Result ℕ
unfolding get_int32
as_int32 v = do throw_if v.is_null Error.runtime_error; get_int32 v.payload

unfoldable pub as_uint32 : Value → Result ℕ
unfolding get_uint32
as_uint32 v = do throw_if v.is_null Error.runtime_error; get_uint32 v.payload

unfoldable pub as_double : Value → Result ℕ
unfolding get_double
as_double v = do throw_if v.is_null Error.runtime_error; get_double v.payload

unfoldable pub as_float : Value → Result ℕ
unfolding get_float
as_float v = do throw_if v.is_null Error.runtime_error; get_float v.payload

unfoldable pub as_bool : Value → Result Bool
unfolding get_bool
as_bool v = do throw_if v.is_null Error.runtime_error; get_bool v.payload

unfoldable pub as_string : Value → Result (List ℕ)
unfolding get_string
as_string v = do throw_if v.is_null Error.runtime_error; get_string v.payload

unfoldable pub as_bytes : Value → Result (List ℕ)
unfolding get_bytes
as_bytes v = do throw_if v.is_null Error.runtime_error; get_bytes v.payload

-- The `int64_t` that a value of another integral type than `uint64_t` widens to.
integral : ValueType → Value → Result ℤ
unfolding as_int32 as_uint32 as_int64
integral ValueType.int32 v = do n ← as_int32 v; ok (signed32 n)
integral ValueType.uint32 v = do n ← as_uint32 v; ok (pos n)
integral ValueType.int64 v = do n ← as_int64 v; ok (signed64 n)
integral _ v = throw Error.runtime_error

unfoldable pub as_integral : Value → Result ℤ
unfolding integral
as_integral v = integral v.type v

integral_type : ValueType → Bool
integral_type ValueType.int32 = true
integral_type ValueType.int64 = true
integral_type ValueType.uint32 = true
integral_type ValueType.uint64 = true
integral_type _ = false

unfoldable pub is_integral : Value → Bool
unfolding integral_type
is_integral v = integral_type v.type

floating_type : ValueType → Bool
floating_type ValueType.float = true
floating_type ValueType.double = true
floating_type _ = false

unfoldable pub is_floating : Value → Bool
unfolding floating_type
is_floating v = floating_type v.type

unfoldable pub is_numeric : Value → Bool
unfolding is_integral is_floating
is_numeric v = is_integral v || is_floating v

size_of : ValueType → Variant → Result ℕ
unfolding get_string get_bytes
size_of ValueType.int64 d = ok 8
size_of ValueType.uint64 d = ok 8
size_of ValueType.double d = ok 8
size_of ValueType.int32 d = ok 4
size_of ValueType.uint32 d = ok 4
size_of ValueType.float d = ok 4
size_of ValueType.bool d = ok 1
size_of ValueType.string d = do s ← get_string d; ok (length s)
size_of ValueType.bytes d = do b ← get_bytes d; ok (length b)

unfoldable pub serialized_size : Value → Result ℕ
unfolding size_of
serialized_size v = size_of v.type v.payload

abbrev pub bool_byte : Bool → ℕ
bool_byte true = 1
bool_byte false = 0

-- The bytes that the switch of `serialize_to` appends.
payload_bytes : ValueType → Variant → Result (List ℕ)
unfolding get_int64 get_uint64 get_double get_int32 get_uint32 get_float get_bool get_string
    get_bytes
payload_bytes ValueType.int64 d = do v ← get_int64 d; ok (to_bytes 8 v)
payload_bytes ValueType.uint64 d = do v ← get_uint64 d; ok (to_bytes 8 v)
payload_bytes ValueType.double d = do v ← get_double d; ok (to_bytes 8 v)
payload_bytes ValueType.int32 d = do v ← get_int32 d; ok (to_bytes 4 v)
payload_bytes ValueType.uint32 d = do v ← get_uint32 d; ok (to_bytes 4 v)
payload_bytes ValueType.float d = do v ← get_float d; ok (to_bytes 4 v)
payload_bytes ValueType.bool d = do b ← get_bool d; ok (bool_byte b ∷ [])
payload_bytes ValueType.string d = get_string d
payload_bytes ValueType.bytes d = get_bytes d

unfoldable pub serialize_to : Value → List ℕ → Result (List ℕ)
unfolding payload_bytes
serialize_to v out = do appended ← payload_bytes v.type v.payload; ok (out ++ appended)
