-- ===== src/Connection/Url/Query.antt =====
-- rabbitpy/connection.py: the values of a URL's query string, by one name or by several.
use rabbitpy.Prelude.{String, Option, none, some, List, [], ◌∷◌, lookup}
use rabbitpy.Exceptions.{Exception, index_error}
use rabbitpy.Action.{Outcome, return, raise}
use rabbitpy.Action.Results.{◌>>=◌}

-- The values of a query string.
abbrev pub Values : Type 0
Values = List (String × List String)

-- `_qargs_value`, with the default None
unfoldable pub first_value : Option (List String) → Outcome (Option String)
first_value none = return none
first_value (some []) = raise index_error
first_value (some (value ∷ _)) = return (some value)

unfoldable pub qargs_value : String → Values → Outcome (Option String)
unfolding first_value
qargs_value key values = first_value (lookup key values)

-- The loop of `_qargs_mk_value`.
unfoldable pub value_or : Outcome (Option String) → Option String → Outcome (Option String)
value_or others none = others
value_or others (some value) = return (some value)

unfoldable pub qargs_mk_value : List String → Values → Outcome (Option String)
unfolding qargs_value value_or
qargs_mk_value [] values = return none
qargs_mk_value (key ∷ keys) values =
    let others = qargs_mk_value keys values in qargs_value key values >>= value_or others

-- An entry, or the exception where there is none.
unfoldable pub found : {A : Type 0} → Option A → Exception → Outcome A
found none e = raise e
found (some a) e = return a
