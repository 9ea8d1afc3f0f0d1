-- ===== src/Connection/Url/Schemes.antt =====
-- What the scheme of a URL decides (rabbitpy/connection.py).
use rabbitpy.Prelude.{
  ℕ, ◌≡◌, refl, ◌∙◌, Bool, true, false, String, Option, none, some, str_append, prefix-append,
  suffix-append, if◌then◌else◌,
}
use rabbitpy.Action.{return}
use rabbitpy.Action.Results.{Gives, returned, Gives-return}
use rabbitpy.Connection.Url.Refused.{IsValueError, Documented, From, process_url-From}
use rabbitpy.Connection.Url.{
  Urllib, Ssl, Args, Parsed, process_url, urlparse, replace_http, has_ssl, port_of, scheme_port,
}

-- A URL with the scheme http is read as the same URL with the scheme amqp, whatever follows.
pub process_url-http :
    (urllib : Urllib) (frame_max_size : ℕ) (ssl : Option Ssl) (rest : String)
    → process_url urllib frame_max_size ssl (str_append "http" rest)
      ≡ process_url urllib frame_max_size ssl (str_append "amqp" rest)
unfolding process_url urlparse
process_url-http urllib frame_max_size ssl rest =
    rw (prefix-append "http" rest, prefix-append "amqp" rest, suffix-append "amqp" rest) refl

replaced :
    (secure : Bool)
    → replace_http 0 (if secure then "https" else "http") ≡ (if secure then "amqps" else "amqp")
replaced true = refl
replaced false = refl

abbrev Scheme : Bool → Parsed → Type 0
Scheme secure r = (r.port ≡ none) × (r.scheme ≡ (if secure then "amqps" else "amqp"))

urlparse-scheme :
    (urllib : Urllib) (frame_max_size : ℕ) (ssl : Option Ssl) (rest : String) (secure : Bool)
    (p : Parsed)
    → urllib.parse (str_append "http" rest) ≡ return p
    → p.scheme ≡ (if secure then "https" else "http")
    → p.port ≡ none
    → Gives
        (Scheme secure)
        IsValueError
        (urlparse urllib frame_max_size ssl (str_append "amqp" rest))
unfolding urlparse
urlparse-scheme urllib frame_max_size ssl rest secure p parse scheme port =
    rw (prefix-append "amqp" rest, suffix-append "amqp" rest, parse)
      (returned (port, rw scheme (replaced secure)))

From-Scheme :
    (urllib : Urllib) (frame_max_size : ℕ) (ssl : Ssl) (secure : Bool) (r : Parsed) (a : Args)
    → Scheme secure r
    → From urllib frame_max_size (some ssl) r a
    → (a.ssl ≡ secure) × (a.port ≡ (if secure then 5671 else 5672))
unfolding has_ssl port_of scheme_port
From-Scheme urllib frame_max_size ssl true r a (none_is, scheme) (uses, on) =
    (uses ∙ rw scheme refl, on ∙ rw (none_is, scheme) refl)
From-Scheme urllib frame_max_size ssl false r a (none_is, scheme) (uses, on) =
    (uses ∙ rw scheme refl, on ∙ rw (none_is, scheme) refl)

-- A URL that begins with amqp and has no port, where Python has the module ssl: by the rest of its
-- scheme, which urllib reads as http or https, SSL is used with port 5671 or not used with port
-- 5672, if the URL is read at all.
pub process_url-ssl :
    (urllib : Urllib) (frame_max_size : ℕ) (ssl : Ssl) (rest : String) (secure : Bool) (p : Parsed)
    (a : Args)
    → Documented urllib
    → urllib.parse (str_append "http" rest) ≡ return p
    → p.scheme ≡ (if secure then "https" else "http")
    → p.port ≡ none
    → process_url urllib frame_max_size (some ssl) (str_append "amqp" rest) ≡ return a
    → (a.ssl ≡ secure) × (a.port ≡ (if secure then 5671 else 5672))
process_url-ssl urllib frame_max_size ssl rest secure p a d parse scheme port q =
    let (r, s, f) =
      Gives-return
        (process_url-From urllib frame_max_size (some ssl) (str_append "amqp" rest) d
          (urlparse-scheme urllib frame_max_size (some ssl) rest secure p parse scheme port))
        q in
    From-Scheme urllib frame_max_size ssl secure r a s f
