-- ===== src/Pool/Tests.antt =====
-- Two threads that share a pool with chunks of two objects.
use iocpnet_module_mono_repo.Prelude.{List, [], ◌∷◌}
use iocpnet_module_mono_repo.Pool.{make}
use iocpnet_module_mono_repo.Pool.Sound.{Usage, Call, alloc_by, free_by}

abbrev unused : Usage
unused = record { pool = make 2; held = λ y. 0 }

-- The first thread allocates two objects and frees both; the second allocates two.
abbrev exchange : List Call
exchange =
    alloc_by 0 ∷ alloc_by 0 ∷ free_by 0 1 ∷ free_by 0 2 ∷ alloc_by 1 ∷ alloc_by 1 ∷ free_by 1 2 ∷ []
