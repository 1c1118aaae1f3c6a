-- ===== src/Session/Counting.antt =====
-- The atomic steps that the threads take on one session's count between two `Connect`s, in any
-- order: entering (`InterlockedIncrement16`), leaving (`InterlockedDecrement16`), and the
-- exchange at the head of `ReleaseSession`, which the thread that counted down to 0 makes later.
use iocpnet_module_mono_repo.Prelude.{
  ℕ, ◌+◌, ◌-◌, ◌≤◌, ◌<◌, ◌≡◌, refl, arith, ◌==◌, if◌then◌else◌, inl, inr, ◌⊎◌,
}
use iocpnet_module_mono_repo.Session.{up, down, decode_io_count, release_io_count}

-- The count with what the threads know: how many entered and have not left, how many saw 0 and
-- have yet to try the release, how many were refused (FindSession does not take their increment
-- back), and how often the session was released.
pub record Counter : Type 0 where
  pub io : ℕ
  pub inside : ℕ
  pub releasing : ℕ
  pub refused : ℕ
  pub releases : ℕ

-- `Increment_IOCount`, whose result decides whether the thread is in
unfoldable pub enter : Counter → Counter
enter c =
    let io = up c.io in
    if (decode_io_count io).0 == 0
    then record c { io = io; inside = c.inside + 1 }
    else record c { io = io; refused = c.refused + 1 }

-- `Decrement_IOCount`, up to the call of `ReleaseSession`
unfoldable pub leave : Counter → Counter
leave c =
    let io = down c.io in
    if io == 0
    then record c { io = io; inside = c.inside - 1; releasing = c.releasing + 1 }
    else record c { io = io; inside = c.inside - 1 }

-- `InterlockedCompareExchange16(&session->IOCount, RELEASE_IOCOUNT, 0)`
unfoldable pub try_release : Counter → Counter
try_release c =
    if c.io == 0
    then record c { io = release_io_count; releasing = c.releasing - 1; releases = c.releases + 1 }
    else record c { releasing = c.releasing - 1 }

-- One step of some thread.
pub data Step : Counter → Counter → Type 0 where
  enters : (c : Counter) → Step c (enter c)
  leaves : (c : Counter) → 0 < c.inside → Step c (leave c)
  releases_it : (c : Counter) → 0 < c.releasing → Step c (try_release c)

-- The steps from `Connect`, which sets the count to 1 for the thread that works on the session.
pub data Reachable : Counter → Type 0 where
  connected : Reachable (record { io = 1; inside = 1; releasing = 0; refused = 0; releases = 0 })
  step : {c d : Counter} → Reachable c → Step c d → Reachable d

-- In a run no thread enters where 255 are inside, so that the count stays in its byte, or where
-- 4607 were refused, so that it does not wrap.
abbrev pub IsRoomy : (c : Counter) → Reachable c → Type 0
IsRoomy _ connected = Unit
IsRoomy _ (step {c} before (enters _)) = (c.inside < 255) × (c.refused < 4607) × IsRoomy c before
IsRoomy _ (step {c} before (leaves _ more)) = IsRoomy c before
IsRoomy _ (step {c} before (releases_it _ pending)) = IsRoomy c before

-- Before the release the count is the number of threads inside, and no thread was refused; after
-- it none is inside, and the count is the mark of the release with the refused ones.
abbrev pub IsCounted : Counter → Type 0
IsCounted c =
    ((c.releases ≡ 0) × (c.io ≡ c.inside) × (c.inside ≤ 255) × (c.refused ≡ 0))
    ⊎ ((c.releases ≡ 1)
        × (c.io ≡ release_io_count + c.refused)
        × (c.inside ≡ 0)
        × (c.refused ≤ 4607))

enter-IsCounted :
    (c : Counter) → c.inside < 255 → c.refused < 4607 → IsCounted c → IsCounted (enter c)
unfolding enter decode_io_count
enter-IsCounted c few some_left h = ground arith

leave-IsCounted : (c : Counter) → 0 < c.inside → IsCounted c → IsCounted (leave c)
unfolding leave
leave-IsCounted c more h = ground arith

release-IsCounted : (c : Counter) → IsCounted c → IsCounted (try_release c)
unfolding try_release
release-IsCounted c h = ground arith

-- Whatever the threads do, in whatever order, with at most 255 of them inside and at most 4607
-- refused: a session is released at most once, never while a thread is inside, and up to then the
-- count is the number of threads inside.
pub Reachable-IsCounted : (c : Counter) (run : Reachable c) → IsRoomy c run → IsCounted c
Reachable-IsCounted _ connected roomy = inl (refl, refl, omega arith, refl)
Reachable-IsCounted _ (step {c} before (enters _)) (few, left, roomy) =
    enter-IsCounted c few left (Reachable-IsCounted c before roomy)
Reachable-IsCounted _ (step {c} before (leaves _ more)) roomy =
    leave-IsCounted c more (Reachable-IsCounted c before roomy)
Reachable-IsCounted _ (step {c} before (releases_it _ pending)) roomy =
    release-IsCounted c (Reachable-IsCounted c before roomy)

-- A refused thread leaves its increment behind: the session stays closed for 4607 of them, and the
-- next one brings the count to 0 and is let into the released session.
pub enter-released :
    (c : Counter)
    → c.io ≡ release_io_count + c.refused
    → c.refused ≤ 4607
    → ((c.refused < 4607) × ((enter c).inside ≡ c.inside) × ((enter c).io ≡ c.io + 1))
      ⊎ ((c.refused ≡ 4607) × ((enter c).inside ≡ c.inside + 1) × ((enter c).io ≡ 0))
unfolding enter decode_io_count
enter-released c h k = ground arith

-- released, or some thread is inside or about to release
abbrev IsAttended : Counter → Type 0
IsAttended c = (0 < c.releases) ⊎ ((0 < c.inside) ⊎ (0 < c.releasing))

enter-IsAttended :
    (c : Counter)
    → c.inside < 255
    → c.refused < 4607
    → IsCounted c
    → IsAttended c
    → IsAttended (enter c)
unfolding enter decode_io_count
enter-IsAttended c few some_left h k = ground arith

leave-IsAttended : (c : Counter) → 0 < c.inside → IsCounted c → IsAttended c → IsAttended (leave c)
unfolding leave
leave-IsAttended c more h k = ground arith

release-IsAttended : (c : Counter) → IsCounted c → IsAttended c → IsAttended (try_release c)
unfolding try_release
release-IsAttended c h k = ground arith

Reachable-IsAttended : (c : Counter) (run : Reachable c) → IsRoomy c run → IsAttended c
Reachable-IsAttended _ connected roomy = inr (inl (omega arith))
Reachable-IsAttended _ (step {c} before (enters _)) (few, left, roomy) =
    enter-IsAttended c few left (Reachable-IsCounted c before roomy)
      (Reachable-IsAttended c before roomy)
Reachable-IsAttended _ (step {c} before (leaves _ more)) roomy =
    leave-IsAttended c more (Reachable-IsCounted c before roomy)
      (Reachable-IsAttended c before roomy)
Reachable-IsAttended _ (step {c} before (releases_it _ pending)) roomy =
    release-IsAttended c (Reachable-IsCounted c before roomy) (Reachable-IsAttended c before roomy)

-- No session is forgotten: whenever no thread is inside and the session has not been released, some
-- thread that counted down to 0 has its exchange still before it, and that exchange, made now,
-- releases the session. The run before is one in which at most 255 threads were inside and at most
-- 4607 refused.
pub Reachable-released :
    (c : Counter) (run : Reachable c)
    → IsRoomy c run
    → c.releases ≡ 0
    → c.inside ≡ 0
    → (0 < c.releasing) × ((try_release c).releases ≡ 1) × ((try_release c).io ≡ release_io_count)
unfolding try_release
Reachable-released c run roomy open_still nobody =
    let counted : IsCounted c = Reachable-IsCounted c run roomy in
    let attended : IsAttended c = Reachable-IsAttended c run roomy in
    (ground arith, ground arith, ground arith)
