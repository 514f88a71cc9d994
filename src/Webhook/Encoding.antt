-- ===== src/Webhook/Encoding.antt =====
-- The parts of Go's encoding/hex, net/url, strings and fmt that webhook_handler.go calls, on bytes.
use Prim.Native.String
use live_actions.Base.{
  ℕ, zero, suc, ◌+◌, ◌-◌, ◌*◌, ◌/◌, ◌%◌, String, Bool, true, false, ◌&&◌, Option, none, some, [],
  ◌∷◌, ltb, leb, nat_beq, if◌then◌else◌,
}
use live_actions.Models.{Bytes}

-- The value of a hexadecimal digit of either case.
unfoldable pub hex_value : ℕ → Option ℕ
hex_value c =
    if leb b'0' c && leb c b'9'
    then some (c - 48)
    else (if leb b'a' c && leb c b'f'
        then some (c - 87)
        else (if leb b'A' c && leb c b'F' then some (c - 55) else none))

unfoldable pub hex_digit : ℕ → ℕ
hex_digit n = if ltb n 10 then 48 + n else 87 + n

-- `hex.EncodeToString`
unfoldable pub hex_encode : Bytes → Bytes
unfolding hex_digit
hex_encode [] = []
hex_encode (b ∷ bs) = hex_digit (b / 16) ∷ hex_digit (b % 16) ∷ hex_encode bs

abbrev hex_pair : Option ℕ → Option ℕ → Option Bytes → Option Bytes
hex_pair (some h) (some l) (some rest) = some ((16 * h + l) ∷ rest)
hex_pair (some h) (some l) none = none
hex_pair (some h) none rest = none
hex_pair none low rest = none

-- `hex.DecodeString`; `none` is its error.
unfoldable pub hex_decode : Bytes → Option Bytes
unfolding hex_value
hex_decode [] = some []
hex_decode (a ∷ []) = none
hex_decode (a ∷ b ∷ rest) = hex_pair (hex_value a) (hex_value b) (hex_decode rest)

abbrev plain : ℕ → Option Bytes → Option Bytes
plain c none = none
plain c (some rest) = some ((if nat_beq c b'+' then 32 else c) ∷ rest)

-- `url.QueryUnescape`; `none` is its error.
unfoldable pub query_unescape : Bytes → Option Bytes
unfolding hex_value
query_unescape [] = some []
query_unescape (c ∷ []) = if nat_beq c b'%' then none else plain c (some [])
query_unescape (c ∷ a ∷ []) =
    let rest = query_unescape (a ∷ []) in if nat_beq c b'%' then none else plain c rest
query_unescape (c ∷ a ∷ b ∷ r) =
    let escaped = hex_pair (hex_value a) (hex_value b) (query_unescape r) in
    let rest = query_unescape (a ∷ b ∷ r) in if nat_beq c b'%' then escaped else plain c rest

-- `strings.HasPrefix`
unfoldable pub has_prefix : Bytes → Bytes → Bool
has_prefix s [] = true
has_prefix [] (p ∷ ps) = false
has_prefix (c ∷ s) (p ∷ ps) = nat_beq c p && has_prefix s ps

-- `hmac.Equal`
unfoldable pub bytes_eq : Bytes → Bytes → Bool
bytes_eq [] [] = true
bytes_eq [] (b ∷ bs) = false
bytes_eq (a ∷ as') [] = false
bytes_eq (a ∷ as') (b ∷ bs) = nat_beq a b && bytes_eq as' bs

-- "payload="
abbrev pub payload_prefix : Bytes
payload_prefix = b'p' ∷ b'a' ∷ b'y' ∷ b'l' ∷ b'o' ∷ b'a' ∷ b'd' ∷ b'=' ∷ []

-- "sha256="
abbrev pub sha256_prefix : Bytes
sha256_prefix = b's' ∷ b'h' ∷ b'a' ∷ b'2' ∷ b'5' ∷ b'6' ∷ b'=' ∷ []

abbrev pub append_text : String → String → String
append_text s t = String.◌++◌ s t

digit_text : ℕ → String
digit_text d =
    if nat_beq d 0
    then "0"
    else (if nat_beq d 1
        then "1"
        else (if nat_beq d 2
            then "2"
            else (if nat_beq d 3
                then "3"
                else (if nat_beq d 4
                    then "4"
                    else (if nat_beq d 5
                        then "5"
                        else (if nat_beq d 6
                            then "6"
                            else (if nat_beq d 7
                                then "7"
                                else (if nat_beq d 8 then "8" else "9"))))))))

decimal_from : ℕ → ℕ → String
decimal_from zero n = ""
decimal_from (suc fuel) n =
    let higher = decimal_from fuel (n / 10) in
    if ltb n 10 then digit_text n else append_text higher (digit_text (n % 10))

-- `fmt.Sprintf("%d", n)`: n + 1 rounds are more than the digits of n.
unfoldable pub decimal : ℕ → String
unfolding decimal_from digit_text
decimal n = decimal_from (suc n) n
