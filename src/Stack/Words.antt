-- ===== src/Stack/Words.antt =====
-- The tagged pointers of Utils/LockFreeStack.h.
use iocpnet_module_mono_repo.Prelude.{ℕ, ◌<◌, ◌≡◌, arith}
use iocpnet_module_mono_repo.Stack.{adr_range, count_range, adr, get_count, set_count}

pub adr-set_count : (a c : ℕ) → a < adr_range → adr (set_count a c) ≡ a
unfolding adr set_count
adr-set_count a c h = omega arith

pub get_count-set_count : (a c : ℕ) → c < count_range → get_count (set_count a c) ≡ c
unfolding get_count set_count
get_count-set_count a c h = omega arith
