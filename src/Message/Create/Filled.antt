-- ===== src/Message/Create/Filled.antt =====
-- The properties of a new message (rabbitpy/message.py, the constructor of Message).
use rabbitpy.Prelude.{
  ℕ, ◌≡◌, refl, ◌∙◌, Bool-cases, inl, inr, if◌then◌else◌, Bool, true, false, ◌&&◌, String, Option,
  none, some, List, [], ◌∷◌, str_eq, eq_iff, distinct, lookup, lookup-insert, arith, All,
}
use rabbitpy.Action.{return}
use rabbitpy.Action.Results.{
  ◌>>=◌, Gives, returned, raised, Any, Gives-bind, Gives-return, Gives-weaken,
}
use rabbitpy.Frame.{PropertyValue, str}
use rabbitpy.Message.Properties.{Convert, Properties, contains, invalid_properties}
use rabbitpy.Message.Publish.{Message}
use rabbitpy.Message.Create.{
  BodyValue, memory_view, structure, plain, has, auto_serialize, add_message_id, add_timestamp,
  enforce_datetime, refuse_invalid, create,
}
use rabbitpy.Message.Create.Wanted.{untimed, filled, body_of, Among}
use rabbitpy.Message.Create.Dated.{
  Times, lookup-add_timestamp, timed-add_timestamp, enforce_datetime-Times,
}

module _ (convert : Convert) (dumps : ℕ → String) (uuid : String) (now : ℕ) where
  has-none : (key : String) (p : Properties) → lookup key p ≡ none → has key p ≡ false
  unfolding has
  has-none key p e = rw (e, has) refl

  has-some :
      (key : String) (p : Properties) (v : PropertyValue) → lookup key p ≡ some v → has key p ≡ true
  unfolding has
  has-some key p v e = rw (e, has) refl

  added :
      (opinionated : Bool) (p : Properties)
      → Gives
          (λ q.
            (key : String)
            → lookup key q ≡ (
                if opinionated && str_eq "message_id" key
                then elim (lookup "message_id" p) [ none ↦ some (str uuid) | some id ↦ some id ]
                else lookup key p))
          Any
          (add_message_id convert dumps uuid now false opinionated p)
  unfolding add_message_id
  added false p = returned (λ key. refl)
  added true p = go (lookup "message_id" p) refl
    where
      go :
          (o : Option PropertyValue)
          → lookup "message_id" p ≡ o
          → Gives
              (λ q.
                (key : String)
                → lookup key q ≡ (
                    if str_eq "message_id" key
                    then elim (lookup "message_id" p) [ none ↦ some (str uuid) | some id ↦ some id ]
                    else lookup key p))
              Any
              (add_message_id convert dumps uuid now false true p)
      go none e =
          rw (has-none "message_id" p e, e)
            (returned (λ key. lookup-insert "message_id" key (str uuid) p))
      go (some id) e =
          rw (has-some "message_id" p id e, e)
            (returned (λ key. ground (arith, e, eq_iff "message_id" key)))

  serialized :
      (value : BodyValue) (opinionated : Bool) (given : Properties) (key : String)
      → let p = (auto_serialize convert dumps uuid now value given).0 in
        (if opinionated && str_eq "message_id" key
          then elim (lookup "message_id" p) [ none ↦ some (str uuid) | some id ↦ some id ]
          else lookup key p)
        ≡ untimed value uuid opinionated given key
  unfolding auto_serialize
  serialized (memory_view b) opinionated given key = refl
  serialized (structure s) opinionated given key =
      rw
        (
          lookup-insert "content_type" key (str "application/json") given,
          lookup-insert "content_type" "message_id" (str "application/json") given,
        )
        (ground (arith, distinct "content_type" "message_id" key refl))
  serialized (plain v) opinionated given key = refl

  refuse_invalid-Gives :
      (P : Properties → Type 0) (p : Properties)
      → P p
      → Gives
          (λ q. (invalid_properties convert q ≡ []) × P q)
          Any
          (refuse_invalid convert dumps uuid now (invalid_properties convert p) p)
  unfolding refuse_invalid
  refuse_invalid-Gives P p h = go (invalid_properties convert p) refl
    where
      go :
          (keys : List String)
          → invalid_properties convert p ≡ keys
          → Gives
              (λ q. (invalid_properties convert q ≡ []) × P q)
              Any
              (refuse_invalid convert dumps uuid now keys p)
      go [] e = returned (e, h)
      go (key ∷ keys) e = raised tt

  abbrev Filled : BodyValue → (opinionated : Bool) → Properties → Properties → Type 0
  Filled value opinionated given p =
      (key : String) → lookup key p ≡ filled convert value uuid now opinionated given key

  untimed-timestamp :
      (value : BodyValue) (opinionated : Bool) (given : Properties)
      → untimed value uuid opinionated given "timestamp" ≡ lookup "timestamp" given
  untimed-timestamp value opinionated given = ground arith

  -- The timestamp and the other properties, once the properties were identified.
  filled_lem :
      (value : BodyValue) (given : Properties) (opinionated : Bool) (q d : Properties)
      → ((key : String) → lookup key q ≡ untimed value uuid opinionated given key)
      → Times convert (add_timestamp convert dumps uuid now opinionated q) d
      → Filled value opinionated given d
  filled_lem value given opinionated q d h k key = elim (Bool-cases (str_eq "timestamp" key)) [
    | inl e ↦
        k key
        ∙ rw
            (
              e,
              timed-add_timestamp convert dumps uuid now opinionated q,
              h "timestamp",
              untimed-timestamp value opinionated given,
            )
            refl
    | inr e ↦
        k key
        ∙ rw e (
            ground (arith, e, lookup-add_timestamp convert dumps uuid now opinionated q key)
            ∙ h key)
  ]

  dated :
      (value : BodyValue) (given : Properties) (opinionated : Bool)
      → Gives (Filled value opinionated given) Any (
          add_message_id convert dumps uuid now false opinionated
            (auto_serialize convert dumps uuid now value given).0
          >>= λ identified.
              enforce_datetime convert dumps uuid now
                (add_timestamp convert dumps uuid now opinionated identified))
  dated value given opinionated = Gives-bind _ (added opinionated _) λ q h.
      Gives-weaken
        (enforce_datetime-Times convert dumps uuid now
          (add_timestamp convert dumps uuid now opinionated q))
        (λ d.
          filled_lem value given opinionated q d
            (λ key. h key ∙ serialized value opinionated given key))

  body_lem :
      (value : BodyValue) (given : Properties)
      → (auto_serialize convert dumps uuid now value given).1 ≡ body_of dumps value
  unfolding auto_serialize
  body_lem (memory_view b) given = refl
  body_lem (structure s) given = refl
  body_lem (plain value) given = refl

  contains-Among :
      (name : String) (names : List String) → contains name names ≡ true → Among name names
  unfolding contains
  contains-Among name [] e = cc
  contains-Among name (n ∷ names) e = elim (Bool-cases (str_eq n name)) [
    | inl same ↦ inl ((eq_iff n name).0 same)
    | inr other ↦ inr (contains-Among name names (rw other at e))
  ]

  -- Properties of which none is invalid have names that pamqp knows.
  known :
      (p : Properties)
      → invalid_properties convert p ≡ []
      → All (λ q. Among q.0 convert.attributes) p
  unfolding invalid_properties
  known [] e = tt
  known ((key, value) ∷ rest) e = elim (Bool-cases (contains key convert.attributes)) [
    | inl c ↦ (contains-Among key convert.attributes c, known rest (rw c at e))
    | inr c ↦ cc (rw c at e)
  ]

  -- A message that was made, with properties of its own and not with `auto_id`: each property has a
  -- name that pamqp knows; the content type of a dictionary or a list is JSON; if the message is
  -- opinionated, a missing message id is the new UUID and a missing timestamp the current time; a
  -- given timestamp is converted to a datetime, and every other property is the given one. The body
  -- is the text of a dictionary or a list, the bytes of a memoryview, or the given value, and the
  -- message has no delivery tag.
  pub create-filled :
      (value : BodyValue) (given : Properties) (opinionated : Bool) (message : Message)
      → create convert dumps uuid now value (some given) false opinionated ≡ return message
      → All (λ p. Among p.0 convert.attributes) message.properties
        × ((key : String)
            → lookup key message.properties ≡ filled convert value uuid now opinionated given key)
        × (message.body ≡ body_of dumps value)
        × (message.delivery_tag ≡ none)
  unfolding create
  create-filled value given opinionated message made =
      Gives-return
        {P = λ m.
          All (λ p. Among p.0 convert.attributes) m.properties
          × Filled value opinionated given m.properties
          × (m.body ≡ body_of dumps value)
          × (m.delivery_tag ≡ none)}
        {Q = Any}
        (Gives-bind _
          (Gives-bind _ (dated value given opinionated)
            (λ d f. refuse_invalid-Gives (Filled value opinionated given) d f))
          (λ v p. returned (known v p.0, p.1, body_lem value given, refl)))
        made
