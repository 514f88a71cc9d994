-- ===== src/Logger.antt =====
-- pkg/logger/logger.go: the level, and the encoders of an entry's level, time and caller. zap's
-- order of levels and its names of them are parameters.
use live_actions.Base.{
  ℕ, zero, suc, ◌+◌, ◌-◌, ◌≡◌, String, Bool, Option, none, some, [], ◌∷◌, ◌++◌, length,
  length-append, leb, arith, string_eq, if◌then◌else◌,
}
use live_actions.Base.Table.{Table, lookup}
use live_actions.Base.Text.{codes}
use live_actions.Models.{Bytes}
use Prim.Native.Nat.{max}

-- The levels that the code names, and any other.
pub data Level : Type 0 where
  debug info warn error : Level
  another : ℕ → Level

abbrev log_levels : Table String Level
log_levels = ("debug", debug) ∷ ("info", info) ∷ ("warn", warn) ∷ ("error", error) ∷ []

abbrev or_info : Option Level → Level
or_info none = info
or_info (some l) = l

-- `initLogger`, as the level of the core that it makes.
unfoldable pub init_level : String → Level
unfolding lookup
init_level level = or_info (lookup level log_levels)

-- `InitLogger`: only the first call makes a logger.
unfoldable pub init_logger : String → Option Level → Option Level
unfolding init_level
init_logger level none = some (init_level level)
init_logger level (some l) = some l

-- An escape sequence: "\033[", a number, and "m".
abbrev escape : String → Bytes
escape number = 27 ∷ (codes "[" ++ (codes number ++ codes "m"))

abbrev color_reset : Bytes
color_reset = escape "0"

abbrev bracketed : Bytes → Bytes
bracketed text = b'[' ∷ (text ++ b']' ∷ [])

abbrev colored : String → Bytes → Bytes
colored number text = escape number ++ (bracketed text ++ color_reset)

unfoldable pub custom_time_encoder : Bytes → Bytes
custom_time_encoder formatted = colored "34" formatted

-- So many spaces behind a text.
unfoldable pub pad : ℕ → Bytes → Bytes
pad zero text = text
pad (suc padding) text = pad padding (text ++ 32 ∷ [])

unfoldable pub pad_right : Bytes → ℕ → Bytes
unfolding pad
pad_right text width = if leb width (length text) then text else pad (width - length text) text

-- `capital` is CapitalString, and `enabled l` says whether a core of a level lets `l` through.
module _ (capital : Level → Bytes) (enabled : Level → Level → Bool) where
  unfoldable pub custom_level_encoder : Level → Bytes
  custom_level_encoder info = colored "34" (capital info)
  custom_level_encoder warn = colored "33" (capital warn)
  custom_level_encoder error = colored "31" (capital error)
  custom_level_encoder debug = colored "32" (capital debug)
  custom_level_encoder (another n) = bracketed (capital (another n))

  -- Nothing is appended unless the logger lets debug entries through.
  unfoldable pub custom_caller_encoder : Level → Bytes → Option Bytes
  unfolding pad_right
  custom_caller_encoder logger path =
      if enabled logger debug then some (escape "2" ++ (pad_right path 30 ++ color_reset)) else none

length-pad : (n : ℕ) (text : Bytes) → length (pad n text) ≡ n + length text
unfolding pad
length-pad zero text = omega arith
length-pad (suc n) text =
    omega (arith, length-pad n (text ++ 32 ∷ []), length-append text (32 ∷ []))

-- A padded text has the width, or its own length where that is more.
length-pad_right :
    (text : Bytes) (width : ℕ) → length (pad_right text width) ≡ max width (length text)
unfolding pad_right
length-pad_right text width = ground (arith, length-pad (width - length text) text)
