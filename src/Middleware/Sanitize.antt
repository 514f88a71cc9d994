-- ===== src/Middleware/Sanitize.antt =====
-- internal/middleware/errors.go: sanitizeErrorMessage and getSanitizedHeaders, on ASCII texts.
use live_actions.Base.{
  ℕ, zero, suc, ◌+◌, ◌-◌, String, ◌&&◌, List, [], ◌∷◌, ◌++◌, take, length, ltb, leb, string_eq,
  if◌then◌else◌,
}
use live_actions.Base.Table.{Table}
use live_actions.Base.Text.{codes, starts}
use live_actions.Models.{Bytes}

abbrev lower : ℕ → ℕ
lower c = if leb b'A' c && leb c b'Z' then c + 32 else c

-- `strings.ToLower`
unfoldable pub to_lower : Bytes → Bytes
to_lower [] = []
to_lower (c ∷ cs) = lower c ∷ to_lower cs

-- The rest of the text, of which the first `matched` bytes are replaced already.
unfoldable pub replace_from : Bytes → Bytes → ℕ → Bytes → Bytes
unfolding starts
replace_from pattern replacement matched [] = []
replace_from pattern replacement (suc matched) (c ∷ cs) =
    replace_from pattern replacement matched cs
replace_from pattern replacement zero (c ∷ cs) =
    let after_match = replace_from pattern replacement (length pattern - 1) cs in
    let after_byte = replace_from pattern replacement 0 cs in
    if starts (c ∷ cs) pattern then replacement ++ after_match else c ∷ after_byte

-- `strings.ReplaceAll` for a pattern that is not empty.
abbrev replace_all : String → String → Bytes → Bytes
replace_all pattern replacement text = replace_from (codes pattern) (codes replacement) 0 text

abbrev pub sensitive_patterns : List (String × String)
sensitive_patterns =
    ("database", "storage")
    ∷ ("sql", "query")
    ∷ ("postgres", "database")
    ∷ ("password", "[REDACTED]")
    ∷ ("secret", "[REDACTED]")
    ∷ ("key", "[REDACTED]")
    ∷ ("token", "[REDACTED]")
    ∷ []

unfoldable pub replace_each : List (String × String) → Bytes → Bytes
unfolding replace_from
replace_each [] text = text
replace_each ((pattern, replacement) ∷ patterns) text =
    replace_each patterns (replace_all pattern replacement text)

-- A text that is longer than `limit` is cut, with three dots at its end.
abbrev shortened : ℕ → Bytes → Bytes
shortened limit text =
    if ltb limit (length text) then take (limit - 3) text ++ codes "..." else text

-- `patterns` is the order in which Go's `range` goes over the map: some order of `sensitive_patterns`.
unfoldable pub sanitize_error_message : List (String × String) → Bytes → Bytes
unfolding to_lower replace_each
sanitize_error_message patterns message = shortened 100 (replace_each patterns (to_lower message))

abbrev relevant_headers : List String
relevant_headers =
    "User-Agent" ∷ "Referer" ∷ "X-Forwarded-For" ∷ "X-Real-IP" ∷ "X-Forwarded-Proto"
    ∷ "Content-Type" ∷ "Accept" ∷ []

abbrev kept : String → Bytes → Table String Bytes → Table String Bytes
kept name [] rest = rest
kept name (c ∷ cs) rest = (name, shortened 200 (c ∷ cs)) ∷ rest

-- `get` gives the value of a header, empty where there is none.
unfoldable pub sanitized_headers : (String → Bytes) → List String → Table String Bytes
sanitized_headers get [] = []
sanitized_headers get (name ∷ names) = kept name (get name) (sanitized_headers get names)

unfoldable pub get_sanitized_headers : (String → Bytes) → Table String Bytes
unfolding sanitized_headers
get_sanitized_headers get = sanitized_headers get relevant_headers
