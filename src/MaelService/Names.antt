-- ===== src/MaelService/Names.antt =====
-- The names that the service takes, pkg/maelstrom/mael_svc.go: how they are brought into form and which
-- are refused.
pub mod Valid
use Prim.Native.Char.{Char, code}
use Prim.Native.String.{String, len, char_at, ◌++◌ as ◌<>◌}
use text.Mathlib.Text.{starts_with}
use maelstrom.Prelude.{
  ℕ, zero, suc, ◌-◌, ◌/◌, ◌%◌, Bool, true, false, ◌&&◌, ◌||◌, leb, ltb, ◌==◌, ◌=s=◌, if◌then◌else◌,
}
use maelstrom.Prelude.Int.{ℤ, pos}
use maelstrom.MaelService.{Rpc, replied, refused}

-- `unicode.IsSpace`
pub is_space : ℕ → Bool
is_space n =
    leb 9 n && leb n 13
    || n == 32
    || n == 133
    || n == 160
    || n == 5760
    || leb 8192 n && leb n 8202
    || n == 8232
    || n == 8233
    || n == 8239
    || n == 8287
    || n == 12288

trim_left : String → String
unfolding is_space
trim_left String.[] = ""
trim_left (String.◌∷◌ c s) =
    let rest = trim_left s in if is_space (code c) then rest else String.◌∷◌ c s

trim_right : String → String
unfolding is_space
trim_right String.[] = ""
trim_right (String.◌∷◌ c s) =
    let rest = trim_right s in if is_space (code c) && rest =s= "" then "" else String.◌∷◌ c rest

-- `strings.TrimSpace`
unfoldable pub trim_space : String → String
unfolding trim_left trim_right
trim_space s = trim_right (trim_left s)

lower_char : Char → Char
lower_char c =
    if leb 65 (code c) && leb (code c) 90
    then char_at "abcdefghijklmnopqrstuvwxyz" (code c - 65)
    else if code c == 304
    then char_at "i" 0
    else if code c == 8490
    then char_at "k" 0
    else c

-- `strings.ToLower`. Of the letters beyond ASCII, those that become ASCII are lowered, and the others
-- stay as they are: no valid name has one, in either case. The project of a component, which is not checked,
-- can have one.
unfoldable pub to_lower : String → String
unfolding lower_char
to_lower String.[] = ""
to_lower (String.◌∷◌ c s) = String.◌∷◌ (lower_char c) (to_lower s)

-- `[a-zA-Z0-9_-]`
pub is_name_char : ℕ → Bool
is_name_char n =
    leb 97 n && leb n 122 || leb 65 n && leb n 90 || leb 48 n && leb n 57 || n == 95 || n == 45

pub all_name_chars : String → Bool
unfolding is_name_char
all_name_chars String.[] = true
all_name_chars (String.◌∷◌ c s) = let rest = all_name_chars s in is_name_char (code c) && rest

-- `nameRE.MatchString`
pub name_re_matches : String → Bool
unfolding all_name_chars
name_re_matches s = if s =s= "" then false else all_name_chars s

digits : ℕ → ℕ → String → String
digits zero n after = after
digits (suc fuel) n after =
    let rest = digits fuel (n / 10) (String.◌∷◌ (char_at "0123456789" (n % 10)) after) in
    if ltb n 10 then String.◌∷◌ (char_at "0123456789" n) after else rest

-- `%d`: a number has no more digits than it counts.
unfoldable pub decimal : ℕ → String
unfolding digits
decimal n = digits (suc n) n ""

unfoldable pub name_valid : String → String → ℕ → Rpc String
unfolding trim_space name_re_matches decimal
name_valid err_prefix name max_len =
    let trimmed = trim_space name in
    if trimmed =s= ""
    then refused (pos 1001) (err_prefix <> " is required")
    else if ltb max_len (len trimmed)
    then refused (pos 1001) (err_prefix <> " exceeds max length of " <> decimal max_len <> " bytes")
    else if name_re_matches trimmed
    then replied trimmed
    else refused (pos 1001) (err_prefix <> " is invalid (only alpha-numeric chars, _ - are valid)")

unfoldable pub component_name_valid : String → String → Rpc String
unfolding name_valid
component_name_valid err_prefix name = name_valid err_prefix name 60

unfoldable pub event_source_name_valid : String → String → Rpc String
unfolding name_valid
event_source_name_valid err_prefix name = name_valid err_prefix name 60

unfoldable pub project_name_valid : String → String → Rpc String
unfolding name_valid
project_name_valid err_prefix name = name_valid err_prefix name 20

unfoldable pub ensure_starts_with : String → String → String
ensure_starts_with prefix s = if starts_with s prefix then s else prefix <> s
