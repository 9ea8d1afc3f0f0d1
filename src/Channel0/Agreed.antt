-- ===== src/Channel0/Agreed.antt =====
-- What a negotiation agrees on (rabbitpy/channel0.py), case by case.
use rabbitpy.Prelude.{
  ℕ, zero, suc, min, ◌≡◌, refl, if◌then◌else◌, String, str_eq, Option, none, some, List, [], ◌∷◌,
  arith,
}
use rabbitpy.Channel0.{Args, or_text, negotiate, negotiate_heartbeat, get_locale}

-- The limit that two sides agree on, where 0 is no limit.
abbrev pub agreed : (client_value server_value : ℕ) → ℕ
agreed zero server_value = server_value
agreed client_value zero = client_value
agreed (suc c) (suc s) = suc (min c s)

-- The heartbeat interval: the client's, unless it has none or either side turns heartbeats off.
abbrev pub agreed_interval : Option ℕ → ℕ → ℕ
agreed_interval none heartbeat = heartbeat
agreed_interval (some interval) zero = 0
agreed_interval (some interval) (suc heartbeat) = interval

-- The first of these texts that is there and not empty.
abbrev pub first_text : List (Option String) → String
first_text [] = ""
first_text (none ∷ rest) = first_text rest
first_text (some t ∷ rest) = let later = first_text rest in if str_eq t "" then later else t

pub negotiate-agreed :
    (client_value server_value : ℕ)
    → negotiate client_value server_value ≡ agreed client_value server_value
unfolding negotiate
negotiate-agreed zero s = ground arith
negotiate-agreed (suc c) zero = ground arith
negotiate-agreed (suc c) (suc s) = ground arith

pub negotiate_heartbeat-agreed :
    (interval : Option ℕ) (heartbeat : ℕ)
    → negotiate_heartbeat interval heartbeat ≡ some (agreed_interval interval heartbeat)
unfolding negotiate_heartbeat
negotiate_heartbeat-agreed none heartbeat = refl
negotiate_heartbeat-agreed (some i) zero = ground arith
negotiate_heartbeat-agreed (some i) (suc heartbeat) = ground arith

pub get_locale-first_text :
    (system : Option String) (args : Args)
    → get_locale system args ≡ first_text (args.locale ∷ system ∷ some "en-US" ∷ [])
unfolding get_locale or_text
get_locale-first_text system args = go args.locale system
  where
    go :
        (l m : Option String)
        → or_text l (or_text m "en-US") ≡ first_text (l ∷ m ∷ some "en-US" ∷ [])
    go none none = refl
    go none (some m) = refl
    go (some l) none = refl
    go (some l) (some m) = refl
