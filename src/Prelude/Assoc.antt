-- ===== src/Prelude/Assoc.antt =====
-- The hash maps of the servers, as lists of keys and values.
use Prim.Native.Nat.{ℕ}
use mathlib.Core.Path.{◌≡◌, refl, sym, subst, ◌∙◌}
use mathlib.Core.Bool.{false}
use mathlib.Core.Logic.{◌≢◌, ◌⊎◌, inl, inr}
use mathlib.Core.List.{List, [], ◌∷◌}
use mathlib.Core.Option.{Option, none, some}
use iocpnet_module_mono_repo.Prelude.Tests.{◌==◌, if◌then◌else◌, Bool-cases, eq→==, ne→==, eq-or-ne}
use native.Mathlib.Omega.{arith}

module _ {ℓ} {V : Type ℓ} where
  -- `find(key)`
  unfoldable pub find : ℕ → List (ℕ × V) → Option V
  find k [] = none
  find k (e ∷ m) = if k == e.0 then some e.1 else find k m

  -- `erase` of the entry that `find(key)` finds
  unfoldable pub erase : ℕ → List (ℕ × V) → List (ℕ × V)
  erase k [] = []
  erase k (e ∷ m) = let rest = erase k m in if k == e.0 then rest else e ∷ rest

  -- `map[key] = value`
  unfoldable pub put : ℕ → V → List (ℕ × V) → List (ℕ × V)
  put k v m = (k, v) ∷ erase k m

  pub find-erase :
      (j k : ℕ) (m : List (ℕ × V)) → find j (erase k m) ≡ (if j == k then none else find j m)
  unfolding find erase
  find-erase j k [] = elim (Bool-cases (j == k)) [ inl e ↦ rw e refl | inr e ↦ rw e refl ]
  find-erase j k (e ∷ m) =
      let ih = find-erase j k m in
      elim (Bool-cases (k == e.0)) [
        | inl here ↦ rw here (elim (Bool-cases (j == k)) [
          | inl same ↦ rw same (rw same at ih)
          | inr other ↦
              let away : (j == e.0) ≡ false = ground arith in rw (other, away) (rw other at ih)
        ])
        | inr there ↦ rw there (elim (Bool-cases (j == e.0)) [
          | inl same ↦ let away : (j == k) ≡ false = ground arith in rw (same, away) refl
          | inr other ↦ rw other ih
        ])
      ]

  pub find-put :
      (j k : ℕ) (v : V) (m : List (ℕ × V))
      → find j (put k v m) ≡ (if j == k then some v else find j m)
  unfolding find put
  find-put j k v m =
      let gone : find j (erase k m) ≡ (if j == k then none else find j m) = find-erase j k m in
      elim (Bool-cases (j == k)) [ inl e ↦ rw e refl | inr e ↦ rw e (rw e at gone) ]

  pub find-put_self : (k : ℕ) (v : V) (m : List (ℕ × V)) → find k (put k v m) ≡ some v
  find-put_self k v m =
      let at_key : find k (put k v m) ≡ (if k == k then some v else find k m) = find-put k k v m in
      rw (eq→== k k refl) at at_key

  pub find-put_other : (j k : ℕ) (v : V) (m : List (ℕ × V)) → j ≢ k → find j (put k v m) ≡ find j m
  find-put_other j k v m h =
      let at_key : find j (put k v m) ≡ (if j == k then some v else find j m) = find-put j k v m in
      rw (ne→== j k h) at at_key

  pub find-erase_self : (k : ℕ) (m : List (ℕ × V)) → find k (erase k m) ≡ none
  find-erase_self k m =
      let at_key : find k (erase k m) ≡ (if k == k then none else find k m) = find-erase k k m in
      rw (eq→== k k refl) at at_key

  pub find-erase_other : (j k : ℕ) (m : List (ℕ × V)) → j ≢ k → find j (erase k m) ≡ find j m
  find-erase_other j k m h =
      let at_key : find j (erase k m) ≡ (if j == k then none else find j m) = find-erase j k m in
      rw (ne→== j k h) at at_key

  pub some_inj : (v w : V) → Path (Option V) (some v) (some w) → v ≡ w
  some_inj v w e = ground arith

  pub none-some : (w : V) → ¬ (Path (Option V) none (some w))
  none-some w e = ground arith

  -- What is found after an assignment is the new value or was found before.
  pub put-cases :
      (j k : ℕ) (v w : V) (m : List (ℕ × V))
      → find j (put k v m) ≡ some w
      → ((j ≡ k) × (v ≡ w)) ⊎ ((j ≢ k) × (find j m ≡ some w))
  put-cases j k v w m e = elim (eq-or-ne j k) [
    | inl same ↦
        let there : find j (put k v m) ≡ some v =
          subst (λ i. find i (put k v m) ≡ some v) (sym same) (find-put_self k v m) in
        inl (same, some_inj v w (sym there ∙ e))
    | inr other ↦ inr (other, sym (find-put_other j k v m other) ∙ e)
  ]

  -- What is found after an erasure was found before, under another key.
  pub erase-cases :
      (j k : ℕ) (w : V) (m : List (ℕ × V))
      → find j (erase k m) ≡ some w
      → (j ≢ k) × (find j m ≡ some w)
  erase-cases j k w m e = elim (eq-or-ne j k) [
    | inl same ↦
        let gone : find j (erase k m) ≡ none =
          subst (λ i. find i (erase k m) ≡ none) (sym same) (find-erase_self k m) in
        absurd (none-some w (sym gone ∙ e))
    | inr other ↦ (other, sym (find-erase_other j k m other) ∙ e)
  ]
