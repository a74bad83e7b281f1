-- ===== src/GeeGorm/Schema.antt =====
-- geeGorm/schema/schema.go and geeGorm/dialect: the table that a Go type stands for. What
-- reflection tells of a type enters as data.
pub mod Fields
use go_little_project.Base.{
  ℕ, Bool, true, false, not, ◌&&◌, List, [], ◌∷◌, ◌++◌, Option, none, some, GoString, GoMap, lookup,
  insert, str, str_eq, if◌then◌else◌, Outcome, ok, panic, demand, ◌>>=◌,
}
use go_little_project.GeeGorm.Clause.{Value, text}

-- reflect.Kind
pub data Kind : Type 0 where
  bool int int8 int16 int32 int64 uint uint8 uint16 uint32 uint64 uintptr : Kind
  float32 float64 complex64 complex128 array chan func interface map ptr slice string struct : Kind
  invalid unsafe_pointer : Kind

-- `DataTypeOf` of Sqlite3; a struct may be a time.Time
unfoldable pub data_type_of : Kind → Bool → Outcome GoString
data_type_of bool is_time = ok (str "bool")
data_type_of int is_time = ok (str "integer")
data_type_of int8 is_time = ok (str "integer")
data_type_of int16 is_time = ok (str "integer")
data_type_of int32 is_time = ok (str "integer")
data_type_of uint is_time = ok (str "integer")
data_type_of uint8 is_time = ok (str "integer")
data_type_of uint16 is_time = ok (str "integer")
data_type_of uint32 is_time = ok (str "integer")
data_type_of uintptr is_time = ok (str "integer")
data_type_of int64 is_time = ok (str "bigint")
data_type_of uint64 is_time = ok (str "bigint")
data_type_of float32 is_time = ok (str "real")
data_type_of float64 is_time = ok (str "real")
data_type_of string is_time = ok (str "text")
data_type_of array is_time = ok (str "blob")
data_type_of slice is_time = ok (str "blob")
data_type_of struct true = ok (str "datetime")
data_type_of _ _ = panic

-- `TableExistSQL`
unfoldable pub table_exist_sql : GoString → GoString × List Value
table_exist_sql table_name =
    (str "SELECT name FROM sqlite_master WHERE type = 'table' and name = ?", text table_name ∷ [])

-- `Dialect`
pub record Dialect : Type 0 where
  pub data_type : Kind → Bool → Outcome GoString
  pub table_exist : GoString → GoString × List Value

abbrev pub sqlite3 : Dialect
sqlite3 = record { data_type = data_type_of; table_exist = table_exist_sql }

-- `RegisterDialect` and `GetDialect`
unfoldable pub register_dialect :
    GoString → Dialect → GoMap GoString Dialect → GoMap GoString Dialect
register_dialect name dialect dialects = insert name dialect dialects

unfoldable pub get_dialect : GoString → GoMap GoString Dialect → Option Dialect
get_dialect name dialects = lookup name dialects

-- a reflect.StructField
pub record StructField : Type 0 where
  pub name : GoString
  pub exported : Bool
  pub anonymous : Bool
  pub kind : Kind
  pub is_time : Bool
  pub tag : Option GoString

-- a value's type by its identity, with what it points to: a struct, or a type without fields
pub data Shape : Type 0 where
  fields_of : GoString → List StructField → Shape
  no_struct : Shape

pub record Model : Type 0 where
  pub type_id : ℕ
  pub shape : Shape

pub record Field : Type 0 where
  pub name : GoString
  pub type : GoString
  pub tag : GoString

pub record Schema : Type 0 where
  pub model : Model
  pub name : GoString
  pub fields : List Field
  pub fields_name : List GoString
  pub fields_map : GoMap GoString Field

-- `GetField`
unfoldable pub get_field : Schema → GoString → Option Field
get_field s name = lookup name s.fields_map

-- a tag that is not there leaves the empty one
abbrev pub tag_of : Option GoString → GoString
tag_of none = []
tag_of (some v) = v

-- what the loop of `Parse` stores
unfoldable pub add_field : Field → Schema → Schema
add_field f s = record s {
  fields = s.fields ++ f ∷ [];
  fields_name = s.fields_name ++ f.name ∷ [];
  fields_map = insert f.name f s.fields_map;
}

-- the loop of `Parse`
unfoldable pub parse_fields : Dialect → List StructField → Schema → Outcome Schema
parse_fields d [] s = ok s
parse_fields d (f ∷ fs) s =
    if not f.anonymous && f.exported
    then (do
      t ← d.data_type f.kind f.is_time
      parse_fields d fs (add_field (record { name = f.name; type = t; tag = tag_of f.tag }) s))
    else parse_fields d fs s

-- `Parse`; a type without fields panics
unfoldable pub parse : Dialect → Model → Outcome Schema
parse d m = elim m.shape [
  | no_struct ↦ panic
  | fields_of name fs ↦
      parse_fields d fs
        (record { model = m; name = name; fields = []; fields_name = []; fields_map = [] })
]

-- a reflect.Value, as far as `FieldByName` asks: a struct, or a slice
pub data Reflected : Type 0 where
  a_struct : GoMap GoString Value → Reflected
  a_slice : List Model → Reflected

-- `FieldByName(name).Interface()`: reflect panics for a value that is no struct, and for the zero
-- Value that stands for a missing field
unfoldable pub field_by_name : Reflected → GoString → Outcome Value
field_by_name (a_struct fields) name = demand (lookup name fields)
field_by_name (a_slice values) name = panic

-- the loop of `RecordValues`
unfoldable pub field_values : List Field → Reflected → Outcome (List Value)
field_values [] dest = ok []
field_values (f ∷ fs) dest = do
  v ← field_by_name dest f.name
  rest ← field_values fs dest
  ok (v ∷ rest)

-- `RecordValues`: what is reflected is the slice of the variadic parameter, which is no pointer, so
-- `Indirect` leaves it a slice
unfoldable pub record_values : Schema → List Model → Outcome (List Value)
record_values s values = field_values s.fields (a_slice values)
