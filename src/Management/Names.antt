-- ===== src/Management/Names.antt =====
-- validID of internal/core/management.go.
use qgramm.Common.{ℕ, String, Bool, true, ◌&&◌, ◌||◌, ltb, leb, ◌==◌, str_len}
use Prim.Native.Char.{code}

-- a-z, A-Z, 0-9, '-', '_' and '.'
abbrev pub safe_char : ℕ → Bool
safe_char c =
    (leb 97 c && leb c 122)
    || (leb 65 c && leb c 90)
    || (leb 48 c && leb c 57)
    || (c == 45)
    || (c == 95)
    || (c == 46)

abbrev all_safe : String → Bool
all_safe String.[] = true
all_safe (String.◌∷◌ c s) = safe_char (code c) && all_safe s

-- len(v) counts bytes.
unfoldable pub valid_id : String → Bool
valid_id v = ltb 0 (str_len v) && leb (str_len v) 128 && all_safe v
