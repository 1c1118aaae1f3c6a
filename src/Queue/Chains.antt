-- ===== src/Queue/Chains.antt =====
-- The nodes of the queue in Utils/LockFreeQueue.h, linked from the head on.
use iocpnet_module_mono_repo.Prelude.{
  ℕ, ◌≡◌, ◌≢◌, inl, inr, refl, sym, ap, ◌∙◌, List, [], ◌∷◌, ◌++◌, All,
}
use iocpnet_module_mono_repo.Stack.{adr, assign}
use iocpnet_module_mono_repo.Stack.Invariant.{AreApart, Among, All-at, assign_same, assign_other}

-- The words `ws` follow the word `w`, each in the `next` of the one before.
abbrev pub Follows : (ℕ → ℕ) → ℕ → List ℕ → Type 0
Follows next w [] = Unit
Follows next w (v ∷ vs) = (next (adr w) ≡ v) × (adr v ≢ 0) × Follows next v vs

-- the last of the words `w ∷ ws`
abbrev pub last : ℕ → List ℕ → ℕ
last w [] = w
last w (v ∷ vs) = last v vs

pub last-append : (w : ℕ) (us vs : List ℕ) → last w (us ++ vs) ≡ last (last w us) vs
last-append w [] vs = refl
last-append w (u ∷ us) vs = last-append u us vs

pub last-Among : (w : ℕ) (ws : List ℕ) → Among (last w ws) (w ∷ ws)
last-Among w [] = inl refl
last-Among w (v ∷ vs) = inr (last-Among v vs)

pub last-append-Among : (w : ℕ) (us vs : List ℕ) → Among (last w us) (w ∷ (us ++ vs))
last-append-Among w [] vs = inl refl
last-append-Among w (u ∷ us) vs = inr (last-append-Among u us vs)

-- Nothing changes for a chain whose nodes are not written to.
pub Follows-frame :
    (next : ℕ → ℕ) (a word w : ℕ) (ws : List ℕ)
    → All (λ v. adr v ≢ a) (w ∷ ws)
    → Follows next w ws
    → Follows (assign a word next) w ws
Follows-frame next a word w [] apart f = tt
Follows-frame next a word w (v ∷ vs) apart f = (
  assign_other a word next (adr w) apart.0 ∙ f.0,
  f.1,
  Follows-frame next a word v vs apart.1 f.2,
)

-- a word is linked behind the last one
pub Follows-snoc :
    (next : ℕ → ℕ) (word w : ℕ) (ws : List ℕ)
    → adr word ≢ 0
    → AreApart (w ∷ ws)
    → Follows next w ws
    → Follows (assign (adr (last w ws)) word next) w (ws ++ (word ∷ []))
Follows-snoc next word w [] real apart f = (assign_same (adr w) word next, real, tt)
Follows-snoc next word w (v ∷ vs) real apart f =
    let a : ℕ = adr (last v vs) in
    let away : adr w ≢ a =
      λ e. All-at (λ u. adr u ≢ adr w) (last v vs) (v ∷ vs) (last-Among v vs) apart.0 (sym e) in
    (assign_other a word next (adr w) away ∙ f.0, f.1, Follows-snoc next word v vs real apart.1 f.2)

-- the first part of a chain, and the word behind it
pub Follows-split :
    (next : ℕ → ℕ) (w : ℕ) (us vs : List ℕ)
    → Follows next w (us ++ vs)
    → Follows next (last w us) vs
Follows-split next w [] vs f = f
Follows-split next w (u ∷ us) vs f = Follows-split next u us vs f.2

All-snoc : (P : ℕ → Type 0) (word : ℕ) (ws : List ℕ) → P word → All P ws → All P (ws ++ (word ∷ []))
All-snoc P word [] p h = (p, tt)
All-snoc P word (w ∷ ws) p h = (h.0, All-snoc P word ws p h.1)

pub AreApart-snoc :
    (word : ℕ) (ws : List ℕ)
    → All (λ v. adr v ≢ adr word) ws
    → AreApart ws
    → AreApart (ws ++ (word ∷ []))
AreApart-snoc word [] away h = (tt, tt)
AreApart-snoc word (w ∷ ws) away h = (
  All-snoc (λ v. adr v ≢ adr w) word ws (λ e. away.0 (sym e)) h.0,
  AreApart-snoc word ws away.1 h.1,
)

-- the values of the words, from `data_of`
abbrev pub values : (ℕ → ℕ) → List ℕ → List ℕ
values data_of [] = []
values data_of (w ∷ ws) = data_of (adr w) ∷ values data_of ws

pub values-append :
    (data_of : ℕ → ℕ) (us vs : List ℕ)
    → values data_of (us ++ vs) ≡ values data_of us ++ values data_of vs
values-append data_of [] vs = refl
values-append data_of (u ∷ us) vs = ap (◌∷◌ (data_of (adr u))) (values-append data_of us vs)

pub values-frame :
    (data_of : ℕ → ℕ) (a value : ℕ) (ws : List ℕ)
    → All (λ v. adr v ≢ a) ws
    → values (assign a value data_of) ws ≡ values data_of ws
values-frame data_of a value [] apart = refl
values-frame data_of a value (w ∷ ws) apart =
    rw (assign_other a value data_of (adr w) apart.0, values-frame data_of a value ws apart.1) refl
