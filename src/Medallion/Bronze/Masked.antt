-- ===== src/Medallion/Bronze/Masked.antt =====
-- Which fields of an envelope the masking changes.
use payments_data_platform.Base.{String, Bool, Option, none, some, str_eq, ◌||◌, if◌then◌else◌}
use payments_data_platform.Medallion.Bronze.{
  Json, null, boolean, number, quoted, array, object, Fields, no_fields, field,
}

pub get_field : String → Fields → Option Json
get_field name no_fields = none
get_field name (field n v fs) = if str_eq n name then some v else get_field name fs

abbrev pub in_object : String → Option Json → Option Json
in_object name (some (object fs)) = get_field name fs
in_object name (some null) = none
in_object name (some (boolean b)) = none
in_object name (some (number n)) = none
in_object name (some (quoted s)) = none
in_object name (some (array js)) = none
in_object name none = none

-- `envelope[section][name]`, where both are there.
abbrev pub path : String → String → Fields → Option Json
path section name envelope = in_object name (get_field section envelope)

abbrev pub map_json : (Json → Json) → Option Json → Option Json
map_json f none = none
map_json f (some j) = some (f j)

abbrev pub is_section : String → Bool
is_section s = str_eq s "before" || str_eq s "after"

-- A value of the envelope without the fields that an object has.
abbrev pub shape : Option Json → Option Json
shape (some (object fs)) = some (object no_fields)
shape (some null) = some null
shape (some (boolean b)) = some (boolean b)
shape (some (number n)) = some (number n)
shape (some (quoted s)) = some (quoted s)
shape (some (array js)) = some (array js)
shape none = none

-- What an envelope has under a name, of a section only whether it is an object, or what else it is.
abbrev pub beside : String → Option Json → Option Json
beside name o = if is_section name then shape o else o
