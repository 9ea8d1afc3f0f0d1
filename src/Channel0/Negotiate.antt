-- ===== src/Channel0/Negotiate.antt =====
-- What the client and the server agree on (rabbitpy/channel0.py, `_negotiate`).
use rabbitpy.Prelude.{ℕ, ◌<◌, ◌≤◌, ◌≡◌, ◌⊎◌, arith}
use rabbitpy.Channel0.{negotiate}

-- `n` obeys the limit `l`, where a limit of 0 is none, and 0 exceeds every other limit.
abbrev pub Obeys : ℕ → ℕ → Type 0
Obeys n l = (l ≡ 0) ⊎ (0 < n) × (n ≤ l)

-- The negotiated value obeys the client's and the server's limit, it is one of the two, and every
-- value that obeys both obeys it, so it is the largest that does.
pub negotiate_lem :
    (client_value server_value : ℕ)
    → Obeys (negotiate client_value server_value) client_value
      × Obeys (negotiate client_value server_value) server_value
      × ((negotiate client_value server_value ≡ client_value)
          ⊎ (negotiate client_value server_value ≡ server_value))
      × ((n : ℕ)
          → Obeys n client_value
          → Obeys n server_value
          → Obeys n (negotiate client_value server_value))
unfolding negotiate
negotiate_lem c s = (ground arith, ground arith, ground arith, λ n hc hs. ground arith)
