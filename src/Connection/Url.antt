-- ===== src/Connection/Url.antt =====
-- rabbitpy/connection.py, `_process_url` and what it calls, and `urlparse` of rabbitpy/utils.py: the
-- arguments of a connection as they are read from its URL.
--
-- The functions of urllib, the number that `int` reads in a text, and the constants of the module
-- ssl, where Python has it, are parameters. The parts of a URL that are never read (netloc, params
-- and fragment) are left out.
pub mod Query
pub mod Schemes
pub mod Refused
mod Tests
use rabbitpy.Prelude.{
  ℕ, zero, suc, ◌==◌, if◌then◌else◌, Bool, true, false, not, ◌&&◌, ◌||◌, String, Option, none, some,
  List, [], ◌∷◌, lookup, str_eq, str_append, prefix, suffix,
}
use rabbitpy.Exceptions.{Exception, value_error, index_error}
use rabbitpy.Action.{Outcome, return, raise}
use rabbitpy.Action.Results.{◌>>=◌}
use rabbitpy.Connection.Url.Query.{Values, found, qargs_value, qargs_mk_value}

-- Python's int
pub data ℤ : Type 0 where
  pos negsuc : ℕ → ℤ

-- What is read of the named tuple `Parsed`.
pub record Parsed : Type 0 where
  pub scheme : String
  pub path : String
  pub query : String
  pub username : Option String
  pub password : Option String
  pub hostname : Option String
  pub port : Option ℕ

-- urllib's functions and `int`: `parse` is urlparse with the reads of the attributes, which may
-- raise, and `int_of` gives none where `int` raises a ValueError.
pub record Urllib : Type 0 where
  pub parse : String → Outcome Parsed
  pub parse_qs : String → List (String × List String)
  pub unquote : String → String
  pub int_of : String → Option ℤ

-- The constants of the module ssl; `protocol` gives the versions that it has, by rabbitpy's name.
pub record Ssl : Type 0 where
  pub cert_none : ℕ
  pub cert_optional : ℕ
  pub cert_required : ℕ
  pub protocol : String → Option ℕ

-- The dictionary that `_process_url` returns.
pub record Args : Type 0 where
  pub host : Option String
  pub port : ℕ
  pub virtual_host : String
  pub username : String
  pub password : String
  pub timeout : ℤ
  pub heartbeat : ℤ
  pub frame_max : ℤ
  pub channel_max : ℤ
  pub locale : Option String
  pub ssl : Bool
  pub cacertfile : Option String
  pub certfile : Option String
  pub keyfile : Option String
  pub verify : Option ℕ
  pub ssl_version : Option ℕ

-- The constants of the class; `spec.FRAME_MAX_SIZE` is pamqp's, 131072.
abbrev default_channel_max : ℕ
default_channel_max = 65535

abbrev default_timeout : ℕ
default_timeout = 3

-- `int(60.0)`
abbrev default_heartbeat_interval : ℕ
default_heartbeat_interval = 60

abbrev default_vhost : String
default_vhost = "%2F"

abbrev guest : String
guest = "guest"

-- PORTS
abbrev ports : List (String × ℕ)
ports = ("amqp", 5672) ∷ ("amqps", 5671) ∷ ("api", 15672) ∷ []

-- `s.replace('http', 'amqp')`, behind the characters of a match that was replaced
abbrev replace_http : (skip : ℕ) → String → String
replace_http skip String.[] = String.[]
replace_http (suc skip) (String.◌∷◌ c s) = replace_http skip s
replace_http zero (String.◌∷◌ c s) = elim (str_eq (prefix 4 (String.◌∷◌ c s)) "http") [
  | true ↦ str_append "amqp" (replace_http 3 s)
  | false ↦ String.◌∷◌ c (replace_http 0 s)
]

-- `x or y`, for a text x that may be None
or_default : Option String → String → String
or_default none y = y
or_default (some x) y = if str_eq x "" then y else x

module _ (urllib : Urllib) (frame_max_size : ℕ) (ssl : Option Ssl) where
  -- utils.urlparse
  pub urlparse : String → Outcome Parsed
  urlparse url = do
    parsed ←
        urllib.parse
          (if str_eq (prefix 4 url) "amqp" then str_append "http" (suffix 4 url) else url)
    return (record parsed { scheme = replace_http 0 parsed.scheme })

  -- `_validate_uri_scheme`
  validate_uri_scheme : String → Outcome (Unit {0})
  unfolding found
  validate_uri_scheme scheme =
      found (lookup scheme ports) (value_error "Unsupported URI scheme") >>= λ _. return tt

  int_or : (default : ℕ) → Option String → Outcome ℤ
  unfolding found
  int_or default none = return (pos default)
  int_or default (some v) = found (urllib.int_of v) (value_error v)

  qargs_int : String → Values → (default : ℕ) → Outcome ℤ
  unfolding qargs_value int_or
  qargs_int key values default = qargs_value key values >>= int_or default

  -- `SSL_CERT_MAP.get(validation)`, and `SSL_VERSION_MAP.get(version)`: both maps are empty
  -- without the module ssl.
  ssl_cert : String → Option ℕ
  ssl_cert validation = elim ssl [
    | none ↦ none
    | some m ↦ lookup validation (
        ("ignore", m.cert_none)
        ∷ ("optional", m.cert_optional)
        ∷ ("required", m.cert_required)
        ∷ [])
  ]

  ssl_version : String → Option ℕ
  ssl_version version = elim ssl [ none ↦ none | some m ↦ m.protocol version ]

  -- `if not value: return`, or the entry of the map under the value
  mapped : (String → Option ℕ) → (error : String) → Option String → Outcome (Option ℕ)
  unfolding found
  mapped entry error none = return none
  mapped entry error (some value) =
      if str_eq value ""
      then return none
      else (found (entry value) (value_error error) >>= λ v. return (some v))

  qargs_ssl_validation : Values → Outcome (Option ℕ)
  unfolding qargs_mk_value ssl_cert mapped
  qargs_ssl_validation values =
      qargs_mk_value ("verify" ∷ "ssl_validation" ∷ []) values
      >>= mapped ssl_cert "Unsupported server cert validation option"

  qargs_ssl_version : Values → Outcome (Option ℕ)
  unfolding qargs_value ssl_version mapped
  qargs_ssl_version values =
      qargs_value "ssl_version" values >>= mapped ssl_version "Unsupported SSL version"

  pub has_ssl : Bool
  has_ssl = elim ssl [ none ↦ false | some _ ↦ true ]

  scheme_port : Parsed → ℕ
  scheme_port parsed = if str_eq parsed.scheme "amqps" then 5671 else 5672

  -- `parsed.port or scheme_port`
  pub port_of : Parsed → ℕ
  unfolding scheme_port
  port_of parsed = elim parsed.port [
    | none ↦ scheme_port parsed
    | some port ↦ if port == 0 then scheme_port parsed else port
  ]

  vhost_of : Parsed → String
  vhost_of parsed = or_default (some (suffix 1 parsed.path)) default_vhost

  -- The dictionary, whose entries are evaluated in this order.
  pub read_args : Parsed → Values → Outcome Args
  unfolding or_default qargs_value qargs_mk_value qargs_int qargs_ssl_validation qargs_ssl_version
      has_ssl port_of vhost_of
  read_args parsed qargs = do
    timeout ← qargs_int "timeout" qargs default_timeout
    heartbeat ← qargs_int "heartbeat" qargs default_heartbeat_interval
    frame_max ← qargs_int "frame_max" qargs frame_max_size
    channel_max ← qargs_int "channel_max" qargs default_channel_max
    locale ← qargs_value "locale" qargs
    cacertfile ← qargs_mk_value ("cacertfile" ∷ "ssl_cacert" ∷ []) qargs
    certfile ← qargs_mk_value ("certfile" ∷ "ssl_cert" ∷ []) qargs
    keyfile ← qargs_mk_value ("keyfile" ∷ "ssl_key" ∷ []) qargs
    verify ← qargs_ssl_validation qargs
    version ← qargs_ssl_version qargs
    return (record {
      host = parsed.hostname;
      port = port_of parsed;
      virtual_host = urllib.unquote (vhost_of parsed);
      username = urllib.unquote (or_default parsed.username guest);
      password = urllib.unquote (or_default parsed.password guest);
      timeout = timeout;
      heartbeat = heartbeat;
      frame_max = frame_max;
      channel_max = channel_max;
      locale = locale;
      ssl = str_eq parsed.scheme "amqps" && has_ssl;
      cacertfile = cacertfile;
      certfile = certfile;
      keyfile = keyfile;
      verify = verify;
      ssl_version = version;
    })

  unfoldable pub process_url : String → Outcome Args
  unfolding urlparse validate_uri_scheme read_args
  process_url url = do
    parsed ← urlparse url
    _ ← validate_uri_scheme parsed.scheme
    read_args parsed (urllib.parse_qs parsed.query)
