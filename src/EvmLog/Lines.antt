-- ===== src/EvmLog/Lines.antt =====
-- How `_decode_mnemonic` of proxy/common_neon/utils/evm_log_decoder.py reads a line of the log. base64
-- is the parameter `b64decode`, how bytes are read as a text `utf8`; both are total here.
use Prim.Native.String.{◌∷◌ as ◌⊳◌}
use Prim.Native.Char.{Char, code}
use proxy_model_py.Base.{
  ℕ, String, Bool, Option, none, some, List, [], ◌∷◌, ◌||◌, ◌&&◌, ◌==◌, nat_eq, leb, map,
  if◌then◌else◌, string_eq,
}
use proxy_model_py.EvmLog.{Bytes}

abbrev between : ℕ → ℕ → ℕ → Bool
between low high n = leb low n && leb n high

-- str.isspace
unfoldable pub is_space : Char → Bool
is_space c =
    let n = code c in
    between 9 13 n
    || between 28 32 n
    || n == 133
    || n == 160
    || n == 5760
    || between 8192 8202 n
    || between 8232 8233 n
    || n == 8239
    || n == 8287
    || n == 12288

-- What follows the prefix, if the text begins with it.
abbrev pub strip_prefix : String → String → Option String
strip_prefix String.[] line = some line
strip_prefix (c ⊳ prefix) String.[] = none
strip_prefix (c ⊳ prefix) (d ⊳ line) = if code c == code d then strip_prefix prefix line else none

abbrev on_some : {A B : Type 0} → (A → Option B) → Option A → Option B
on_some next none = none
on_some next (some x) = next x

-- `(.+)$`: what stands before the end of the line, which may be a last newline.
abbrev pub data_tail : String → Option String
data_tail String.[] = some ""
data_tail (c ⊳ line) =
    let rest = data_tail line in
    if code c == 10
    then (if line == "" then some "" else none)
    else on_some (λ tail. some (c ⊳ tail)) rest

abbrev pub filled : String → Option String
filled String.[] = none
filled (c ⊳ tail) = some (c ⊳ tail)

-- `_re_data.match`, with its group.
abbrev pub match_data : String → Option String
match_data line =
    on_some (λ rest. on_some filled (data_tail rest)) (strip_prefix "Program data: " line)

-- A word that is not empty, and those after it.
abbrev pub add_word : String → List String → List String
add_word String.[] words = words
add_word (c ⊳ word) words = (c ⊳ word) ∷ words

-- The word a text begins with, empty before a space, and the words after it.
abbrev pub split_first : String → String × List String
split_first String.[] = ("", [])
split_first (c ⊳ s) =
    let rest = split_first s in
    if is_space c then ("", add_word rest.0 rest.1) else (c ⊳ rest.0, rest.1)

-- str.split
abbrev pub split : String → List String
split s = add_word (split_first s).0 (split_first s).1

module _ (b64decode : String → Bytes) (utf8 : Bytes → String) where
  abbrev pub mnemonic_of : List String → String × List Bytes
  mnemonic_of [] = ("", [])
  mnemonic_of (word ∷ []) = ("", [])
  mnemonic_of (name ∷ word ∷ words) = (utf8 (b64decode name), map b64decode (word ∷ words))

  abbrev mnemonic_in : Option String → String × List Bytes
  mnemonic_in none = ("", [])
  mnemonic_in (some tail) = mnemonic_of (split tail)

  unfoldable pub decode_mnemonic : String → String × List Bytes
  decode_mnemonic line = mnemonic_in (match_data line)
