-- ===== src/Pool/Sound.antt =====
-- The pool of Utils/TLSObjectPool.h hands out every object to one user at a time.
use iocpnet_module_mono_repo.Prelude.{
  ℕ, ◌+◌, ◌-◌, ◌<◌, ◌≤◌, ◌≡◌, ◌⊎◌, List, [], ◌∷◌, ◌==◌, if◌then◌else◌,
}
use iocpnet_module_mono_repo.Pool.{TlsObjectPool, alloc, free}
use iocpnet_module_mono_repo.Pool.Places.{places}

-- The pool with what its users hold: `held x` is how often `Alloc` returned `x` and no `Free` gave
-- it back.
pub record Usage : Type 0 where
  pub pool : TlsObjectPool
  pub held : ℕ → ℕ

pub data Call : Type 0 where
  alloc_by : ℕ → Call
  free_by : ℕ → ℕ → Call

unfoldable pub call : Call → Usage → Usage
call (alloc_by t) u =
    let (x, pool) = alloc t u.pool in
    record { pool = pool; held = λ y. u.held y + (if y == x then 1 else 0) }
call (free_by t x) u = record {
  pool = free t x u.pool;
  held = λ y. u.held y - (if y == x then 1 else 0);
}

unfoldable pub calls : List Call → Usage → Usage
calls [] u = u
calls (c ∷ cs) u = calls cs (call c u)

-- Only one of the first `n` threads calls, and it frees only what a user holds.
abbrev pub IsFair : ℕ → Call → Usage → Type 0
IsFair n (alloc_by t) u = t < n
IsFair n (free_by t x) u = (t < n) × (0 < u.held x)

unfoldable pub AreFair : ℕ → List Call → Usage → Type 0
AreFair n [] u = Unit
AreFair n (c ∷ cs) u = IsFair n c u × AreFair n cs (call c u)

-- An object is in one place of the pool, or held once, or not made yet.
pub record IsSound (n : ℕ) (u : Usage) : Type 0 where
  pub once : (y : ℕ) → places n y u.pool + u.held y ≤ 1
  pub unmade : (y : ℕ) → u.pool.fresh ≤ y → places n y u.pool + u.held y ≡ 0

-- what `Alloc` does to the places of each object
abbrev Allocated : ℕ → ℕ → TlsObjectPool → ℕ × TlsObjectPool → Type 0
Allocated n y p r =
    ((r.0 ≡ p.fresh) × (r.1.fresh ≡ p.fresh + 1) × (places n y r.1 ≡ places n y p))
    ⊎ ((r.1.fresh ≡ p.fresh) × (places n y r.1 + (if y == r.0 then 1 else 0) ≡ places n y p))
