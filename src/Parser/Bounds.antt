-- ===== src/Parser/Bounds.antt =====
-- What every text leads to: arrays that are not overrun, and what is looked up and copied.
use iocpnet_module_mono_repo.Prelude.{
  ℕ, zero, suc, ◌+◌, ◌-◌, ◌≤◌, ◌<◌, ◌≡◌, ◌≢◌, refl, ap, List, [], ◌∷◌, ◌++◌, true, false, Option,
  none, some, ◌==◌, take, length, length-take, length-append, min, arith, All, ◌⊎◌, inl, inr,
  Option-cases, Bool-cases, subst,
}
use iocpnet_module_mono_repo.Parser.{
  Pair, max_pairs, max_key_len, max_val_len, skip_past, split_at, read_value, read_pair,
  skip_blanks, skip_separators, parse_from, parse, get_string, has_key, same_text, zeros,
  copy_string, quote, colon,
}

-- A pair that leaves room for the terminating 0 in both arrays.
abbrev pub IsTerminated : Pair → Type 0
IsTerminated p = (length p.key < max_key_len) × (length p.value < max_val_len)

abbrev AllRead : Option (Pair × List ℕ) → Type 0
AllRead none = Unit
AllRead (some (p, rest)) = IsTerminated p

cut_short : (text : List ℕ) (n : ℕ) → length (take n text) < n + 1
cut_short text n = omega (arith, length-take n text)

read_pair-IsTerminated : (text : List ℕ) → AllRead (read_pair text)
unfolding read_pair
read_pair-IsTerminated text = elim (Option-cases (skip_past quote text)) [
  | inl e ↦ rw (AllRead, read_pair, e) tt
  | inr (at_key, e) ↦ elim (Option-cases (split_at quote at_key)) [
    | inl f ↦ rw (AllRead, read_pair, e, f) tt
    | inr (found, f) ↦ elim (Option-cases (skip_past colon found.1)) [
      | inl g ↦ rw (AllRead, read_pair, e, f, g) tt
      | inr (at_value, g) ↦ elim (Option-cases (read_value (skip_blanks at_value))) [
        | inl h ↦ rw (AllRead, read_pair, e, f, g, h) tt
        | inr (read, h) ↦
            rw (AllRead, read_pair, e, f, g, h) (cut_short found.0 31, cut_short read.0 63)
      ]
    ]
  ]
]

parse_from-IsTerminated :
    (room : ℕ) (text : List ℕ)
    → All IsTerminated (parse_from room text) × (length (parse_from room text) ≤ room)
unfolding parse_from
parse_from-IsTerminated zero text = (tt, omega arith)
parse_from-IsTerminated (suc room) text = elim (Option-cases (read_pair text)) [
  | inl e ↦ rw (All, parse_from, e) (tt, omega arith)
  | inr (found, e) ↦
      let one : AllRead (some found) = subst AllRead e (read_pair-IsTerminated text) in
      let (all, few) = parse_from-IsTerminated room (skip_separators found.1) in
      rw (All, parse_from, e) ((one, all), omega arith)
]

-- Whatever the text is, `parse` keeps at most 30 pairs, and each key and each value leaves room
-- for its terminating 0.
pub parse-IsTerminated :
    (text : List ℕ) → All IsTerminated (parse text) × (length (parse text) ≤ max_pairs)
unfolding parse
parse-IsTerminated text = parse_from-IsTerminated max_pairs text

length-zeros : (n : ℕ) → length (zeros n) ≡ n
unfolding zeros
length-zeros zero = refl
length-zeros (suc n) = ap suc (length-zeros n)

has_key-get_string :
    (key : List ℕ) (ps : List Pair)
    → ((has_key key ps ≡ false) × (get_string key ps ≡ none))
      ⊎ ((has_key key ps ≡ true) × (value : List ℕ) × (get_string key ps ≡ some value))
unfolding has_key get_string
has_key-get_string key [] = inl (refl, refl)
has_key-get_string key (p ∷ ps) = elim (Bool-cases (same_text p.key key)) [
  | inl e ↦ rw e (inr (refl, p.value, refl))
  | inr e ↦ rw e (has_key-get_string key ps)
]

-- `CopyString` fills the caller's buffer to its size and no further, with the value cut to one
-- byte less and zeros behind it, if the key is there and the buffer has room; else it writes
-- nothing. `HasKey` tells which.
pub copy_string_lem :
    (key : List ℕ) (size : ℕ) (ps : List Pair)
    → ((has_key key ps ≡ false) × (copy_string key size ps ≡ none))
      ⊎ ((has_key key ps ≡ true)
          × (((size ≡ 0) × (copy_string key size ps ≡ none))
              ⊎ ((value : List ℕ) × (buffer : List ℕ) × (get_string key ps ≡ some value)
                  × (copy_string key size ps ≡ some buffer)
                  × (length buffer ≡ size)
                  × ((padding : ℕ) × (0 < padding)
                      × (buffer ≡ take (size - 1) value ++ zeros padding)))))
unfolding copy_string
copy_string_lem key size ps = elim (has_key-get_string key ps) [
  | inl (missing, e) ↦ inl (missing, rw (copy_string, e) refl)
  | inr (there, value, e) ↦ elim (Bool-cases (size == 0)) [
    | inl empty ↦ inr (there, inl (ground arith, rw (copy_string, e, empty) refl))
    | inr room ↦
        let some_room : size ≢ 0 = ground arith in
        let cut : List ℕ = take (size - 1) value in
        let short : length cut ≡ min (size - 1) (length value) = length-take (size - 1) value in
        let total : length (cut ++ zeros (size - length cut)) ≡ size = omega (
          arith,
          length-append cut (zeros (size - length cut)),
          length-zeros (size - length cut),
        ) in
        inr (
          there,
          inr (
            value,
            cut ++ zeros (size - length cut),
            e,
            rw (copy_string, e, room) refl,
            total,
            (size - length cut, omega (arith, short), refl),
          ),
        )
  ]
]
