-- ===== src/Parser/Tests.antt =====
-- Short configuration texts, and the theorems at them.
use iocpnet_module_mono_repo.Prelude.{◌≤◌, ◌≡◌, refl, List, [], ◌∷◌, length, arith, All}
use iocpnet_module_mono_repo.Parser.{
  Pair, parse, parse_from, read_pair, skip_past, split_at, skip_blanks, skip_separators, read_value,
  bare_value, max_pairs,
}
use iocpnet_module_mono_repo.Parser.Print.{file, IsWritable, parse-file}
use iocpnet_module_mono_repo.Parser.Bounds.{IsTerminated, parse-IsTerminated}

-- `ip` is `10`, and `on` is `1`.
abbrev pairs : List Pair
pairs =
    record { key = 105 ∷ 112 ∷ []; value = 49 ∷ 48 ∷ [] }
    ∷ record { key = 111 ∷ 110 ∷ []; value = 49 ∷ [] }
    ∷ []

-- `{"on": 1}`, without quotes around the value
parse-bare :
    parse (123 ∷ 34 ∷ 111 ∷ 110 ∷ 34 ∷ 58 ∷ 32 ∷ 49 ∷ 125 ∷ [])
    ≡ record { key = 111 ∷ 110 ∷ []; value = 49 ∷ [] } ∷ []
unfolding parse parse_from read_pair skip_past split_at skip_blanks skip_separators read_value
    bare_value
parse-bare = refl

pairs-IsWritable : All IsWritable pairs
pairs-IsWritable = ground arith

parse-file_example : parse (file pairs) ≡ pairs
parse-file_example = parse-file pairs pairs-IsWritable (omega arith)

parse-IsTerminated_example :
    All IsTerminated (parse (file pairs)) × (length (parse (file pairs)) ≤ max_pairs)
parse-IsTerminated_example = parse-IsTerminated (file pairs)
