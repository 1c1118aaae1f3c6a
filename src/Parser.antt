-- ===== src/Parser.antt =====
-- Utils/Parser.h: the configuration files of the servers. A text is the list of its characters up
-- to the terminating 0, so that its end stands for `*ptr == 0`.
pub mod Print
pub mod Bounds
mod Tests
use iocpnet_module_mono_repo.Prelude.{
  ℕ, zero, suc, ◌+◌, ◌-◌, List, [], ◌∷◌, ◌++◌, Bool, true, false, not, ◌&&◌, ◌||◌, Option, none,
  some, ◌==◌, if◌then◌else◌, take, length,
}

-- `MAX_PAIRS`, `MAX_KEY_LEN` and `MAX_VAL_LEN`
abbrev pub max_pairs : ℕ
max_pairs = 30

abbrev pub max_key_len : ℕ
max_key_len = 32

abbrev pub max_val_len : ℕ
max_val_len = 64

abbrev pub quote : ℕ
quote = 34

abbrev pub colon : ℕ
colon = 58

pub record Pair : Type 0 where
  pub key : List ℕ
  pub value : List ℕ

-- `while (*ptr && *ptr != c) ptr++; if (!*ptr) break;` and one character more
unfoldable pub skip_past : ℕ → List ℕ → Option (List ℕ)
skip_past c [] = none
skip_past c (x ∷ xs) = if x == c then some xs else skip_past c xs

-- `strchr` for a character: what stands before it and behind it
unfoldable pub split_at : ℕ → List ℕ → Option (List ℕ × List ℕ)
split_at c [] = none
split_at c (x ∷ xs) =
    if x == c
    then some ([], xs)
    else elim (split_at c xs) [ none ↦ none | some (before, behind) ↦ some (x ∷ before, behind) ]

abbrev pub is_blank : ℕ → Bool
is_blank x = (x == 32) || (x == 10) || (x == 13)

unfoldable pub skip_blanks : List ℕ → List ℕ
skip_blanks [] = []
skip_blanks (x ∷ xs) = let rest = skip_blanks xs in if is_blank x then rest else x ∷ xs

-- `while (*ptr && (*ptr == ',' || ...)) ptr++`
unfoldable pub skip_separators : List ℕ → List ℕ
skip_separators [] = []
skip_separators (x ∷ xs) =
    let rest = skip_separators xs in if (x == 44) || is_blank x then rest else x ∷ xs

-- a value without quotes: up to a comma, a closing brace, the end of the line or of the text
unfoldable pub bare_value : List ℕ → List ℕ × List ℕ
bare_value [] = ([], [])
bare_value (x ∷ xs) =
    let (value, rest) = bare_value xs in
    if (x == 44) || (x == 125) || (x == 10) then ([], x ∷ xs) else (x ∷ value, rest)

-- the value behind the colon and its blanks, and what follows it
unfoldable pub read_value : List ℕ → Option (List ℕ × List ℕ)
read_value [] = some ([], [])
read_value (x ∷ xs) = if x == quote then split_at quote xs else some (bare_value (x ∷ xs))

-- One round of the loop of `parse`, up to `count++`; `none` is a `break`.
unfoldable pub read_pair : List ℕ → Option (Pair × List ℕ)
read_pair text = elim (skip_past quote text) [
  | none ↦ none
  | some at_key ↦ elim (split_at quote at_key) [
    | none ↦ none
    | some (key, behind_key) ↦ elim (skip_past colon behind_key) [
      | none ↦ none
      | some at_value ↦ elim (read_value (skip_blanks at_value)) [
        | none ↦ none
        | some (value, rest) ↦ some (
          record { key = take (max_key_len - 1) key; value = take (max_val_len - 1) value },
          rest,
        )
      ]
    ]
  ]
]

-- the loop of `parse`, with the number of pairs that there is room for
unfoldable pub parse_from : ℕ → List ℕ → List Pair
parse_from zero text = []
parse_from (suc room) text = elim (read_pair text) [
  | none ↦ []
  | some (pair, rest) ↦ pair ∷ parse_from room (skip_separators rest)
]

-- `parse(json)`
unfoldable pub parse : List ℕ → List Pair
parse text = parse_from max_pairs text

-- `strcmp(a, b) == 0`
unfoldable pub same_text : List ℕ → List ℕ → Bool
same_text [] [] = true
same_text [] (b ∷ bs) = false
same_text (a ∷ as') [] = false
same_text (a ∷ as') (b ∷ bs) = (a == b) && same_text as' bs

-- `GetString(key)`
unfoldable pub get_string : List ℕ → List Pair → Option (List ℕ)
get_string key [] = none
get_string key (p ∷ ps) = if same_text p.key key then some p.value else get_string key ps

-- `HasKey(key)`
unfoldable pub has_key : List ℕ → List Pair → Bool
has_key key [] = false
has_key key (p ∷ ps) = if same_text p.key key then true else has_key key ps

-- `GetBool(key)`
unfoldable pub get_bool : List ℕ → List Pair → Bool
get_bool key ps = elim (get_string key ps) [
  | none ↦ false
  | some value ↦ same_text value (116 ∷ 114 ∷ 117 ∷ 101 ∷ []) || same_text value (49 ∷ [])
]

unfoldable pub zeros : ℕ → List ℕ
zeros zero = []
zeros (suc n) = 0 ∷ zeros n

-- `CopyString(key, buffer, bufferSize)`: the bytes of the buffer afterwards, where it is written
unfoldable pub copy_string : List ℕ → ℕ → List Pair → Option (List ℕ)
copy_string key size ps = elim (get_string key ps) [
  | none ↦ none
  | some value ↦
      if size == 0
      then none
      else some (take (size - 1) value ++ zeros (size - length (take (size - 1) value)))
]
