-- ===== src/Prelude/Texts.antt =====
-- Parts of a text, by its characters.
use Prim.Native.Nat.{ℕ, zero, suc}
use Prim.Native.String.{String, ◌++◌}
use Prim.Native.String.append
use mathlib.Core.Path.{◌≡◌, refl, ap}

-- `s[:n]` and `s[n:]`
abbrev pub prefix : ℕ → String → String
prefix zero s = String.[]
prefix (suc n) String.[] = String.[]
prefix (suc n) (String.◌∷◌ c s) = String.◌∷◌ c (prefix n s)

abbrev pub suffix : ℕ → String → String
suffix zero s = s
suffix (suc n) String.[] = String.[]
suffix (suc n) (String.◌∷◌ c s) = suffix n s

abbrev pub size : String → ℕ
size String.[] = 0
size (String.◌∷◌ c s) = suc (size s)

pub prefix-append : (s t : String) → prefix (size s) (s ++ t) ≡ s
prefix-append String.[] t = refl
prefix-append (String.◌∷◌ c s) t =
    rw (append.cons c s t) (ap (λ r. String.◌∷◌ c r) (prefix-append s t))

pub suffix-append : (s t : String) → suffix (size s) (s ++ t) ≡ t
suffix-append String.[] t = append.nil t
suffix-append (String.◌∷◌ c s) t = rw (append.cons c s t) (suffix-append s t)
