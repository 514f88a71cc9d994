-- ===== src/Utils.antt =====
-- internal/utils/utils.go: Contains and GenerateCSRFToken. FormatDuration computes with floating
-- point numbers and is not modelled.
use live_actions.Base.{
  ℕ, ◌+◌, ◌-◌, ◌*◌, ◌/◌, ◌%◌, ◌≡◌, refl, ◌↔◌, String, Bool, true, false, Option, none, some, List,
  [], ◌∷◌, length, ltb, nat_beq, ◌==◌, string_eq, arith, if◌then◌else◌,
}
use live_actions.Base.Keys.{Any}
use live_actions.Models.{Bytes}

unfoldable pub contains : List String → String → Bool
contains [] item = false
contains (s ∷ rest) item = let later = contains rest item in if s == item then true else later

-- A digit of base64 with the alphabet for URLs.
unfoldable pub url_digit : ℕ → ℕ
url_digit n =
    if ltb n 26
    then b'A' + n
    else (if ltb n 52
        then b'a' + (n - 26)
        else (if ltb n 62 then b'0' + (n - 52) else (if nat_beq n 62 then b'-' else b'_')))

-- `base64.URLEncoding.EncodeToString`
unfoldable pub url_encode : Bytes → Bytes
unfolding url_digit
url_encode [] = []
url_encode (a ∷ []) = url_digit (a / 4) ∷ url_digit (a % 4 * 16) ∷ b'=' ∷ b'=' ∷ []
url_encode (a ∷ b ∷ []) =
    url_digit (a / 4) ∷ url_digit (a % 4 * 16 + b / 16) ∷ url_digit (b % 16 * 4) ∷ b'=' ∷ []
url_encode (a ∷ b ∷ c ∷ rest) =
    url_digit (a / 4)
    ∷ url_digit (a % 4 * 16 + b / 16)
    ∷ url_digit (b % 16 * 4 + c / 64)
    ∷ url_digit (c % 64)
    ∷ url_encode rest

-- `random` is what rand.Read puts into the 32 bytes; `none` is its error.
unfoldable pub generate_csrf_token : Option Bytes → Option Bytes
unfolding url_encode
generate_csrf_token none = none
generate_csrf_token (some random) = some (url_encode random)

contains_iff :
    (slice : List String) (item : String) → (contains slice item ≡ true) ↔ Any (λ s. s ≡ item) slice
unfolding contains
contains_iff [] item = ((λ h. absurd (cc)), (λ h. absurd h))
contains_iff (s ∷ rest) item = ground (arith, string_eq.beq_iff s item, contains_iff rest item)

length-url_encode : (bs : Bytes) → length (url_encode bs) ≡ (length bs + 2) / 3 * 4
unfolding url_encode
length-url_encode [] = refl
length-url_encode (a ∷ []) = refl
length-url_encode (a ∷ b ∷ []) = refl
length-url_encode (a ∷ b ∷ c ∷ rest) = omega (arith, length-url_encode rest)
