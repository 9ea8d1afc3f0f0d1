-- ===== src/Connection/Url/Tests.antt =====
-- Runs of `_process_url` (rabbitpy/connection.py) with a small stand-in for urllib.
use rabbitpy.Prelude.{◌≡◌, refl, true, String, none, some, [], str_eq, prefix, if◌then◌else◌}
use rabbitpy.Action.{return, raise}
use rabbitpy.Action.Results.{Gives, returned, Any}
use rabbitpy.Exceptions.{value_error}
use rabbitpy.Connection.Url.{Urllib, Ssl, Args, Parsed, pos, process_url}
use rabbitpy.Connection.Url.Refused.{IsValueError, Documented, process_url-IsValueError}
use rabbitpy.Connection.Url.Schemes.{process_url-ssl}

-- Every URL has the user "me" at "host" and no port, path or query; two schemes are known.
abbrev parsed_with : String → Parsed
parsed_with scheme = record {
  scheme = scheme;
  path = "";
  query = "";
  username = some "me";
  password = none;
  hostname = some "host";
  port = none;
}

abbrev urllib : Urllib
urllib = record {
  parse =
      λ url. return (parsed_with (if str_eq (prefix 5 url) "https" then "https" else prefix 4 url));
  parse_qs = λ query. [];
  unquote = λ value. value;
  int_of = λ value. none;
}

abbrev ssl : Ssl
ssl = record { cert_none = 0; cert_optional = 1; cert_required = 2; protocol = λ version. none }

abbrev secure_args : Args
secure_args = record {
  host = some "host";
  port = 5671;
  virtual_host = "%2F";
  username = "me";
  password = "guest";
  timeout = pos 3;
  heartbeat = pos 60;
  frame_max = pos 131072;
  channel_max = pos 65535;
  locale = none;
  ssl = true;
  cacertfile = none;
  certfile = none;
  keyfile = none;
  verify = none;
  ssl_version = none;
}

run_secure : process_url urllib 131072 (some ssl) "amqps://me@host" ≡ return secure_args
unfolding process_url
run_secure = refl

run_unsupported :
    process_url urllib 131072 (some ssl) "ftp://host" ≡ raise (value_error "Unsupported URI scheme")
unfolding process_url
run_unsupported = refl

Documented-urllib : Documented urllib
Documented-urllib = record { parse = λ url. returned tt; parse_qs = λ query key. cc }

process_url-IsValueError_example :
    Gives Any IsValueError (process_url urllib 131072 (some ssl) "ftp://host")
process_url-IsValueError_example =
    process_url-IsValueError urllib 131072 (some ssl) "ftp://host" Documented-urllib

process_url-ssl_example : (secure_args.ssl ≡ true) × (secure_args.port ≡ 5671)
process_url-ssl_example =
    process_url-ssl urllib 131072 ssl "s://me@host" true (parsed_with "https") secure_args
      Documented-urllib refl refl refl run_secure
