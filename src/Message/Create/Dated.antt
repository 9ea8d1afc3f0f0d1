-- ===== src/Message/Create/Dated.antt =====
-- The timestamp of a new message (rabbitpy/message.py, `_add_timestamp` and `_as_datetime`).
use rabbitpy.Prelude.{
  ℕ, ◌≡◌, refl, if◌then◌else◌, Bool, true, false, ◌&&◌, String, Option, none, some, str_eq, eq_iff,
  insert, lookup, lookup-insert, arith,
}
use rabbitpy.Action.{return}
use rabbitpy.Action.Results.{◌>>=◌, Gives, returned, raised, Any, Gives-bind}
use rabbitpy.Frame.{
  PropertyValue, null, str, bytes, integer, float, datetime, struct_time, object, dict,
}
use rabbitpy.Message.Properties.{
  Convert, Properties, ToInt, converted, type_fails, value_fails, as_timestamp, as_datetime,
}
use rabbitpy.Message.Create.{has, add_timestamp, enforce_datetime}
use rabbitpy.Message.Create.Wanted.{time_of, stamped}

-- What the conversion to a datetime makes of a timestamp that may be absent.
abbrev pub timed : Convert → Option PropertyValue → Option PropertyValue
timed convert none = none
timed convert (some value) = some (time_of convert value)

-- The properties of the second with the timestamp of the first converted.
abbrev pub Times : Convert → Properties → Properties → Type 0
Times convert p q =
    (key : String)
    → lookup key q
      ≡ (if str_eq "timestamp" key then timed convert (lookup "timestamp" p) else lookup key p)

module _ (convert : Convert) (dumps : ℕ → String) (uuid : String) (now : ℕ) where
  as_timestamp-Gives :
      (r : ToInt)
      → Gives
          (λ d.
            d ≡ elim r [ converted n ↦ datetime (convert.from_timestamp (integer n)) | _ ↦ null ])
          Any
          (as_timestamp convert r)
  unfolding as_timestamp
  as_timestamp-Gives (converted n) = returned refl
  as_timestamp-Gives type_fails = raised tt
  as_timestamp-Gives value_fails = raised tt

  as_datetime-Gives :
      (value : PropertyValue)
      → Gives (λ d. d ≡ time_of convert value) Any (as_datetime convert value)
  unfolding as_datetime
  as_datetime-Gives null = returned refl
  as_datetime-Gives (datetime d) = returned refl
  as_datetime-Gives (struct_time t) = returned refl
  as_datetime-Gives (str s) = as_timestamp-Gives _
  as_datetime-Gives (bytes b) = as_timestamp-Gives _
  as_datetime-Gives (float f) = returned refl
  as_datetime-Gives (integer n) = returned refl
  as_datetime-Gives (object o) = raised tt
  as_datetime-Gives (dict d) = raised tt

  -- A timestamp is added where it is missing and wanted.
  pub lookup-add_timestamp :
      (opinionated : Bool) (p : Properties) (key : String)
      → lookup key (add_timestamp convert dumps uuid now opinionated p) ≡ (
          if opinionated && str_eq "timestamp" key
          then elim (lookup "timestamp" p) [ none ↦ some (datetime now) | some v ↦ some v ]
          else lookup key p)
  unfolding add_timestamp has
  lookup-add_timestamp opinionated p key =
      ground (arith, lookup-insert "timestamp" key (datetime now) p, eq_iff "timestamp" key)

  -- Once the timestamp is added, its conversion gives what is stamped.
  pub timed-add_timestamp :
      (opinionated : Bool) (p : Properties)
      → timed convert (lookup "timestamp" (add_timestamp convert dumps uuid now opinionated p))
        ≡ stamped convert now opinionated (lookup "timestamp" p)
  timed-add_timestamp false p = rw (lookup-add_timestamp false p "timestamp") (ground arith)
  timed-add_timestamp true p = rw (lookup-add_timestamp true p "timestamp") (ground arith)

  pub enforce_datetime-Times :
      (p : Properties) → Gives (Times convert p) Any (enforce_datetime convert dumps uuid now p)
  unfolding enforce_datetime
  enforce_datetime-Times p = go (lookup "timestamp" p) refl
    where
      go :
          (o : Option PropertyValue)
          → lookup "timestamp" p ≡ o
          → Gives (Times convert p) Any (elim o [
            | none ↦ return p
            | some value ↦ as_datetime convert value >>= λ d. return (insert "timestamp" d p)
          ])
      go none e = returned (λ key. rw e (ground (arith, e, eq_iff "timestamp" key)))
      go (some value) e =
          Gives-bind _ (as_datetime-Gives value) λ d same.
            returned (λ key. rw e (ground (arith, same, lookup-insert "timestamp" key d p)))
