-- ===== src/Parser/Print.antt =====
-- A configuration file as it is written by hand, one quoted pair to a line, and its parse.
use iocpnet_module_mono_repo.Prelude.{
  ℕ, zero, suc, ◌≤◌, ◌<◌, ◌≡◌, ◌≢◌, refl, ap, ◌∙◌, List, [], ◌∷◌, ◌++◌, false, some, ◌==◌, take,
  length, arith, All, ne→==,
}
use iocpnet_module_mono_repo.Parser.{
  Pair, quote, max_pairs, skip_past, split_at, skip_blanks, skip_separators, read_value, read_pair,
  parse_from, parse,
}

-- `"key": "value",` and the end of the line
abbrev pub line : Pair → List ℕ → List ℕ
line p rest = 34 ∷ (p.key ++ 34 ∷ 58 ∷ 32 ∷ 34 ∷ (p.value ++ 34 ∷ 44 ∷ 10 ∷ rest))

abbrev pub lines : List Pair → List ℕ
lines [] = 125 ∷ []
lines (p ∷ ps) = line p (lines ps)

-- the file: the lines between braces
abbrev pub file : List Pair → List ℕ
file ps = 123 ∷ 10 ∷ lines ps

abbrev pub IsUnquoted : List ℕ → Type 0
IsUnquoted text = All (λ c. c ≢ quote) text

-- A pair that fits the parser's arrays.
abbrev pub IsWritable : Pair → Type 0
IsWritable p = IsUnquoted p.key × IsUnquoted p.value × (length p.key < 32) × (length p.value < 64)

split_at-append :
    (text rest : List ℕ)
    → IsUnquoted text
    → split_at quote (text ++ quote ∷ rest) ≡ some (text, rest)
unfolding split_at
split_at-append [] rest h = refl
split_at-append (c ∷ text) rest h =
    let other : (c == quote) ≡ false = ne→== c quote h.0 in
    rw (other, split_at-append text rest h.1) refl

take_all {ℓ} : {A : Type ℓ} (n : ℕ) (xs : List A) → length xs ≤ n → take n xs ≡ xs
take_all zero [] h = refl
take_all zero (x ∷ xs) h = absurd (omega arith)
take_all (suc n) [] h = refl
take_all (suc n) (x ∷ xs) h = ap (λ t. x ∷ t) (take_all n xs (omega arith))

read_pair-line :
    (p : Pair) (rest : List ℕ) → IsWritable p → read_pair (line p rest) ≡ some (p, 44 ∷ 10 ∷ rest)
unfolding read_pair skip_past skip_blanks read_value
read_pair-line p rest (key, value, short_key, short_value) =
    rw
      (
        read_pair,
        split_at-append p.key (58 ∷ 32 ∷ 34 ∷ (p.value ++ 34 ∷ 44 ∷ 10 ∷ rest)) key,
        split_at-append p.value (44 ∷ 10 ∷ rest) value,
        take_all 31 p.key (omega arith),
        take_all 63 p.value (omega arith),
      )
      refl

separators-lines : (ps : List Pair) → skip_separators (44 ∷ 10 ∷ lines ps) ≡ lines ps
unfolding skip_separators
separators-lines [] = refl
separators-lines (p ∷ ps) = refl

parse_from-lines :
    (room : ℕ) (ps : List Pair)
    → All IsWritable ps
    → length ps ≤ room
    → parse_from room (lines ps) ≡ ps
unfolding parse_from read_pair skip_past
parse_from-lines zero [] h fits = refl
parse_from-lines (suc room) [] h fits = refl
parse_from-lines zero (p ∷ ps) h fits = absurd (omega arith)
parse_from-lines (suc room) (p ∷ ps) h fits =
    rw
      (
        parse_from,
        read_pair-line p (lines ps) h.0,
        separators-lines ps,
        parse_from-lines room ps h.1 (omega arith),
      )
      refl

-- the opening brace and the end of its line are passed over
leading :
    (room : ℕ) (text : List ℕ)
    → parse_from (suc room) (123 ∷ 10 ∷ text) ≡ parse_from (suc room) text
unfolding parse_from read_pair skip_past
leading room text = refl

-- A file of at most 30 pairs, quoted and one to a line, with keys of at most 31 and values of at
-- most 63 characters, parses to just these pairs, in order.
pub parse-file : (ps : List Pair) → All IsWritable ps → length ps ≤ max_pairs → parse (file ps) ≡ ps
unfolding parse
parse-file ps h fits = leading 29 (lines ps) ∙ parse_from-lines max_pairs ps h fits
