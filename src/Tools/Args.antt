-- ===== src/Tools/Args.antt =====
-- How the tools of pkg/tools read the arguments that a model gave: `args[key].(T)`.
use chango_assistant.Base.{List, Option, Text, [], if◌then◌else◌, none, some, text_eq, ◌∷◌}
use chango_assistant.Providers.Types.{
  Fields, Value, Values, array, boolean, end_fields, end_values, field, null, number, object, text,
  value,
}

abbrev pub find_arg : Text → Fields → Option Value
find_arg key end_fields = none
find_arg key (field k v rest) = if text_eq k key then some v else find_arg key rest

abbrev pub value_text : Value → Option Text
value_text (text t) = some t
value_text null = none
value_text (boolean b) = none
value_text (number n) = none
value_text (array vs) = none
value_text (object fs) = none

abbrev pub text_of : Option Value → Option Text
text_of none = none
text_of (some v) = value_text v

-- `s, ok := args[key].(string)`.
unfoldable pub text_arg? : Text → Fields → Option Text
unfolding text_eq
text_arg? key args = text_of (find_arg key args)

abbrev pub or_empty : Option Text → Text
or_empty none = []
or_empty (some t) = t

-- `s, _ := args[key].(string)`.
unfoldable pub text_arg : Text → Fields → Text
unfolding text_arg?
text_arg key args = or_empty (text_arg? key args)

-- The texts of an array, as the loops over `[]interface{}` keep them.
abbrev pub texts : Values → List Text
texts end_values = []
texts (value (text t) vs) = t ∷ texts vs
texts (value null vs) = texts vs
texts (value (boolean b) vs) = texts vs
texts (value (number n) vs) = texts vs
texts (value (array ws) vs) = texts vs
texts (value (object fs) vs) = texts vs

abbrev pub array_of : Option Value → Option Values
array_of none = none
array_of (some (array vs)) = some vs
array_of (some null) = none
array_of (some (boolean b)) = none
array_of (some (number n)) = none
array_of (some (text t)) = none
array_of (some (object fs)) = none

-- `args[key] = v`.
unfoldable pub set_arg : Text → Value → Fields → Fields
unfolding text_eq
set_arg key v end_fields = field key v end_fields
set_arg key v (field k w rest) =
    if text_eq k key then field k v rest else field k w (set_arg key v rest)
