-- ===== src/Monitor/Samples.antt =====
-- The samples of ClientContentThread in MonitorServer/main.cpp. A value is its 32 bits; the minimum
-- and the maximum are kept as the number of values below them, which orders signed numbers.
use iocpnet_module_mono_repo.Prelude.{
  ℕ, ◌+◌, ◌-◌, ◌%◌, ◌^◌, ◌<◌, ◌≡◌, refl, sym, subst, ap, ◌∙◌, arith, List, [], ◌∷◌, ◌==◌, ltb,
  if◌then◌else◌, min, length, Bool-cases, inl, inr,
}
use iocpnet_module_mono_repo.Monitor.{MonitorData, Client}

-- `MonitorDataSample`
pub record MonitorDataSample : Type 0 where
  pub total : ℕ
  pub count : ℕ
  pub min_up : ℕ
  pub max_up : ℕ

-- how many `int`s are below the one with these bits
abbrev pub up_of : ℕ → ℕ
up_of bits = (bits + 2 ^ 31) % 2 ^ 32

-- `Total = 0`, `Count = 0`, `Max = INT_MIN` and `Min = INT_MAX`
abbrev pub empty_sample : MonitorDataSample
empty_sample = record { total = 0; count = 0; min_up = 2 ^ 32 - 1; max_up = 0 }

-- one value of the loop over a client's queue
unfoldable pub add_value : ℕ → MonitorDataSample → MonitorDataSample
add_value value sample = record {
  total = (sample.total + value) % 2 ^ 32;
  count = (sample.count + 1) % 2 ^ 32;
  min_up = if ltb (up_of value) sample.min_up then up_of value else sample.min_up;
  max_up =
      if ltb (up_of value) sample.min_up
      then sample.max_up
      else if ltb sample.max_up (up_of value)
      then up_of value
      else sample.max_up;
}

-- the loop over a client's queue; `samples` is the array by type
unfoldable pub take_samples : List MonitorData → (ℕ → MonitorDataSample) → ℕ → MonitorDataSample
take_samples [] samples = samples
take_samples (d ∷ ds) samples =
    take_samples ds (λ i. if i == d.data_type then add_value d.value (samples i) else samples i)

-- the loop over the clients, whose queues are emptied
unfoldable pub collect_samples :
    List (ℕ × Client) → (ℕ → MonitorDataSample) → List (ℕ × Client) × (ℕ → MonitorDataSample)
collect_samples [] samples = ([], samples)
collect_samples ((handle, client) ∷ clients) samples =
    let (rest, filled) = collect_samples clients (take_samples client.sample_queue samples) in
    ((handle, record client { sample_queue = [] }) ∷ rest, filled)

-- what is left of a sample once its row is written; one with a total of 0 is passed over
unfoldable pub written_sample : MonitorDataSample → MonitorDataSample
written_sample sample = if sample.total == 0 then sample else empty_sample

-- the samples after the round that writes to the database, from type 1 on
unfoldable pub written_samples : (ℕ → MonitorDataSample) → ℕ → MonitorDataSample
written_samples samples i =
    if ltb 0 i then (if ltb i 50 then written_sample (samples i) else samples i) else samples i

-- the values of one type, in order, added to its sample
abbrev pub add_all : List ℕ → MonitorDataSample → MonitorDataSample
add_all [] sample = sample
add_all (v ∷ vs) sample = add_all vs (add_value v sample)

-- the values of the type `i` among what is queued
abbrev pub values_of : ℕ → List MonitorData → List ℕ
values_of i [] = []
values_of i (d ∷ ds) = if i == d.data_type then d.value ∷ values_of i ds else values_of i ds

-- the least of the values and `m`, and their sum
abbrev pub least : ℕ → List ℕ → ℕ
least m [] = m
least m (v ∷ vs) = min (up_of v) (least m vs)

abbrev pub sum : List ℕ → ℕ
sum [] = 0
sum (v ∷ vs) = v + sum vs

-- every value is below `m` and below those before it
abbrev pub Falls : ℕ → List ℕ → Type 0
Falls m [] = Unit
Falls m (v ∷ vs) = (up_of v < m) × Falls (up_of v) vs

take_samples_lem :
    (i : ℕ) (ds : List MonitorData) (samples : ℕ → MonitorDataSample)
    → take_samples ds samples i ≡ add_all (values_of i ds) (samples i)
unfolding take_samples
take_samples_lem i [] samples = refl
take_samples_lem i (d ∷ ds) samples =
    let next : ℕ → MonitorDataSample =
      λ j. if j == d.data_type then add_value d.value (samples j) else samples j in
    let ih = take_samples_lem i ds next in
    elim (Bool-cases (i == d.data_type)) [
      | inl same ↦ rw same (
          ih
          ∙ ap
              (λ b.
                add_all (values_of i ds) (if b then add_value d.value (samples i) else samples i))
              same)
      | inr other ↦ rw other (
          ih
          ∙ ap
              (λ b.
                add_all (values_of i ds) (if b then add_value d.value (samples i) else samples i))
              other)
    ]

least-min : (a m : ℕ) (vs : List ℕ) → least (min a m) vs ≡ min a (least m vs)
least-min a m [] = refl
least-min a m (v ∷ vs) = let ih = least-min a m vs in omega arith

add_value-min_up :
    (v : ℕ) (sample : MonitorDataSample) → (add_value v sample).min_up ≡ min (up_of v) sample.min_up
unfolding add_value
add_value-min_up v sample = ground arith

add_all_lem :
    (vs : List ℕ) (sample : MonitorDataSample)
    → sample.total < 2 ^ 32
    → sample.count < 2 ^ 32
    → let after = add_all vs sample in
      (after.min_up ≡ least sample.min_up vs)
      × (after.total ≡ (sample.total + sum vs) % 2 ^ 32)
      × (after.count ≡ (sample.count + length vs) % 2 ^ 32)
add_all_lem [] sample word word' = (refl, omega arith, omega arith)
add_all_lem (v ∷ vs) sample word word' =
    let one = add_value v sample in
    let total : one.total ≡ (sample.total + v) % 2 ^ 32 = unfold add_value in refl in
    let count : one.count ≡ (sample.count + 1) % 2 ^ 32 = unfold add_value in refl in
    let (low, sums, counts) = add_all_lem vs one (omega (arith, total)) (omega (arith, count)) in
    (
      low ∙ ap (λ m. least m vs) (add_value-min_up v sample) ∙ least-min (up_of v) sample.min_up vs,
      omega (arith, sums, total),
      omega (arith, counts, count),
    )

add_value_falls :
    (v : ℕ) (sample : MonitorDataSample)
    → up_of v < sample.min_up
    → ((add_value v sample).max_up ≡ sample.max_up) × ((add_value v sample).min_up ≡ up_of v)
unfolding add_value
add_value_falls v sample below = ground arith

falls_lem :
    (vs : List ℕ) (sample : MonitorDataSample)
    → Falls sample.min_up vs
    → (add_all vs sample).max_up ≡ sample.max_up
falls_lem [] sample falls = refl
falls_lem (v ∷ vs) sample (below, falls) =
    let (high, low) = add_value_falls v sample below in
    falls_lem vs (add_value v sample) (subst (λ m. Falls m vs) (sym low) falls) ∙ high

-- For every type, after the queue of a client was taken in: the minimum is the least of the
-- values and the one before, the total is the sum and the count the number, both of 32 bits; but
-- where every value is below the minimum and the values before it, the maximum has not changed,
-- so that the one of a fresh sample stays `INT_MIN`. The total and the count before are of 32 bits.
pub take_samples-Falls :
    (i : ℕ) (ds : List MonitorData) (samples : ℕ → MonitorDataSample)
    → (samples i).total < 2 ^ 32
    → (samples i).count < 2 ^ 32
    → let after = take_samples ds samples i in
      let vs = values_of i ds in
      (after.min_up ≡ least (samples i).min_up vs)
      × (after.total ≡ ((samples i).total + sum vs) % 2 ^ 32)
      × (after.count ≡ ((samples i).count + length vs) % 2 ^ 32)
      × (Falls (samples i).min_up vs → after.max_up ≡ (samples i).max_up)
take_samples-Falls i ds samples word word' =
    let e = take_samples_lem i ds samples in
    let (low, total, count) = add_all_lem (values_of i ds) (samples i) word word' in
    (
      ap (λ t. t.min_up) e ∙ low,
      ap (λ t. t.total) e ∙ total,
      ap (λ t. t.count) e ∙ count,
      λ falls. ap (λ t. t.max_up) e ∙ falls_lem (values_of i ds) (samples i) falls,
    )
