-- ===== src/Connection/Url/Refused.antt =====
-- How the reading of a URL ends (rabbitpy/connection.py): with the arguments, or with a ValueError.
use rabbitpy.Prelude.{
  ℕ, ◌≡◌, ◌≢◌, refl, true, false, ◌&&◌, String, Option, none, some, List, [], ◌∷◌, lookup, str_eq,
  if◌then◌else◌,
}
use rabbitpy.Exceptions.{Exception, value_error}
use rabbitpy.Action.{Outcome, return}
use rabbitpy.Action.Results.{◌>>=◌, Gives, returned, raised, Any, Gives-bind, Gives-weaken}
use rabbitpy.Connection.Url.Query.{
  Values, found, first_value, qargs_value, qargs_mk_value, value_or,
}
use rabbitpy.Connection.Url.{
  Urllib, Ssl, Args, Parsed, process_url, read_args, urlparse, validate_uri_scheme, int_or,
  qargs_int, mapped, qargs_ssl_validation, qargs_ssl_version, ssl_cert, ssl_version, has_ssl,
  port_of, ports,
}

abbrev pub IsValueError : Exception → Type 0
IsValueError (value_error text) = Unit
IsValueError e = ⊥

-- Every key of a parsed query string has a value.
abbrev pub Filled : Values → Type 0
Filled values = (key : String) → lookup key values ≢ some []

-- What urllib documents of its functions.
pub record Documented (urllib : Urllib) : Type 0 where
  pub parse : (url : String) → Gives Any IsValueError (urllib.parse url)
  pub parse_qs : (query : String) → Filled (urllib.parse_qs query)

abbrev Ok : {A : Type 0} → Outcome A → Type 0
Ok {A} o = Gives {A = A} Any IsValueError o

found-Ok : {A : Type 0} (o : Option A) (text : String) → Ok (found o (value_error text))
unfolding found
found-Ok none text = raised tt
found-Ok (some a) text = returned tt

first_value-Ok : (o : Option (List String)) → o ≢ some [] → Ok (first_value o)
unfolding first_value
first_value-Ok none h = returned tt
first_value-Ok (some []) h = raised (h refl)
first_value-Ok (some (v ∷ vs)) h = returned tt

qargs_value-Ok : (key : String) (values : Values) → Filled values → Ok (qargs_value key values)
unfolding qargs_value
qargs_value-Ok key values h = first_value-Ok (lookup key values) (h key)

value_or-Ok :
    (others : Outcome (Option String)) (o : Option String) → Ok others → Ok (value_or others o)
unfolding value_or
value_or-Ok others none h = h
value_or-Ok others (some v) h = returned tt

qargs_mk_value-Ok :
    (keys : List String) (values : Values) → Filled values → Ok (qargs_mk_value keys values)
unfolding qargs_mk_value
qargs_mk_value-Ok [] values h = returned tt
qargs_mk_value-Ok (key ∷ keys) values h =
    let others = qargs_mk_value-Ok keys values h in
    Gives-bind _ (qargs_value-Ok key values h) (λ o _. value_or-Ok _ o others)

module _ (urllib : Urllib) (frame_max_size : ℕ) (ssl : Option Ssl) where
  int_or-Ok : (default : ℕ) (o : Option String) → Ok (int_or urllib frame_max_size ssl default o)
  unfolding int_or
  int_or-Ok default none = returned tt
  int_or-Ok default (some v) = found-Ok (urllib.int_of v) v

  qargs_int-Ok :
      (key : String) (values : Values) (default : ℕ)
      → Filled values
      → Ok (qargs_int urllib frame_max_size ssl key values default)
  unfolding qargs_int
  qargs_int-Ok key values default h =
      Gives-bind _ (qargs_value-Ok key values h) (λ o _. int_or-Ok default o)

  mapped-Ok :
      (entry : String → Option ℕ) (error : String) (o : Option String)
      → Ok (mapped urllib frame_max_size ssl entry error o)
  unfolding mapped
  mapped-Ok entry error none = returned tt
  mapped-Ok entry error (some value) =
      let rest : Outcome (Option ℕ) =
        found (entry value) (value_error error) >>= λ v. return (some v) in
      elim (str_eq value "") as (λ b. Ok (if b then return none else rest)) [
        | true ↦ returned tt
        | false ↦ Gives-bind _ (found-Ok (entry value) error) (λ _ _. returned tt)
      ]

  qargs_ssl_validation-Ok :
      (values : Values) → Filled values → Ok (qargs_ssl_validation urllib frame_max_size ssl values)
  unfolding qargs_ssl_validation
  qargs_ssl_validation-Ok values h =
      Gives-bind
        (mapped urllib frame_max_size ssl (ssl_cert urllib frame_max_size ssl)
          "Unsupported server cert validation option")
        (qargs_mk_value-Ok ("verify" ∷ "ssl_validation" ∷ []) values h) (λ o _. mapped-Ok _ _ o)

  qargs_ssl_version-Ok :
      (values : Values) → Filled values → Ok (qargs_ssl_version urllib frame_max_size ssl values)
  unfolding qargs_ssl_version
  qargs_ssl_version-Ok values h =
      Gives-bind
        (mapped urllib frame_max_size ssl (ssl_version urllib frame_max_size ssl)
          "Unsupported SSL version")
        (qargs_value-Ok "ssl_version" values h) (λ o _. mapped-Ok _ _ o)

  -- The arguments take their port and the use of SSL from this parsed URL.
  abbrev pub From : Parsed → Args → Type 0
  From parsed a =
      (a.ssl ≡ (str_eq parsed.scheme "amqps" && has_ssl urllib frame_max_size ssl))
      × (a.port ≡ port_of urllib frame_max_size ssl parsed)

  read_args-From :
      (parsed : Parsed) (values : Values)
      → Filled values
      → Gives (From parsed) IsValueError (read_args urllib frame_max_size ssl parsed values)
  unfolding read_args
  read_args-From parsed values h = Gives-bind _ (qargs_int-Ok "timeout" values _ h) λ _ _.
      Gives-bind _ (qargs_int-Ok "heartbeat" values _ h) λ _ _.
        Gives-bind _ (qargs_int-Ok "frame_max" values _ h) λ _ _.
          Gives-bind _ (qargs_int-Ok "channel_max" values _ h) λ _ _.
            Gives-bind _ (qargs_value-Ok "locale" values h) λ _ _.
              Gives-bind _ (qargs_mk_value-Ok ("cacertfile" ∷ "ssl_cacert" ∷ []) values h) λ _ _.
                Gives-bind _ (qargs_mk_value-Ok ("certfile" ∷ "ssl_cert" ∷ []) values h) λ _ _.
                  Gives-bind _ (qargs_mk_value-Ok ("keyfile" ∷ "ssl_key" ∷ []) values h) λ _ _.
                    Gives-bind _ (qargs_ssl_validation-Ok values h) λ _ _.
                      Gives-bind _ (qargs_ssl_version-Ok values h) λ _ _. returned (refl, refl)

  validate_uri_scheme-Ok :
      (scheme : String) → Ok (validate_uri_scheme urllib frame_max_size ssl scheme)
  unfolding validate_uri_scheme
  validate_uri_scheme-Ok scheme =
      Gives-bind (λ _. return tt) (found-Ok (lookup scheme ports) "Unsupported URI scheme")
        (λ _ _. returned tt)

  urlparse-Ok : (url : String) → Documented urllib → Ok (urlparse urllib frame_max_size ssl url)
  unfolding urlparse
  urlparse-Ok url d = Gives-bind _ (d.parse _) (λ _ _. returned tt)

  pub process_url-From :
      {R : Parsed → Type 0} (url : String)
      → Documented urllib
      → Gives R IsValueError (urlparse urllib frame_max_size ssl url)
      → Gives
          (λ a. (parsed : Parsed) × R parsed × From parsed a)
          IsValueError
          (process_url urllib frame_max_size ssl url)
  unfolding process_url
  process_url-From url d h = Gives-bind _ h λ parsed r.
      Gives-bind _ (validate_uri_scheme-Ok parsed.scheme) λ _ _.
        Gives-weaken
          (read_args-From parsed (urllib.parse_qs parsed.query) (d.parse_qs parsed.query))
          (λ a f. (parsed, r, f))

-- Where urllib raises no more than ValueErrors and every key of a query string has a value, the URL
-- is either read or a ValueError is raised: no other exception comes out.
pub process_url-IsValueError :
    (urllib : Urllib) (frame_max_size : ℕ) (ssl : Option Ssl) (url : String)
    → Documented urllib
    → Gives Any IsValueError (process_url urllib frame_max_size ssl url)
process_url-IsValueError urllib frame_max_size ssl url d =
    Gives-weaken
      (process_url-From urllib frame_max_size ssl url d
        (urlparse-Ok urllib frame_max_size ssl url d))
      (λ _ _. tt)
