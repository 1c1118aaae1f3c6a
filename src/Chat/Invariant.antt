-- ===== src/Chat/Invariant.antt =====
-- What the tables of the chat server in ChatServer/main.cpp have to say of one session, and
-- the changes that keep them in agreement.
use iocpnet_module_mono_repo.Prelude.{
  ℕ, ◌≡◌, ◌≢◌, ◌⊎◌, inl, inr, refl, sym, subst, ap, ◌∙◌, List, not, ◌&&◌, ◌==◌, if◌then◌else◌,
  Option, none, some, eq-or-ne, eq→==, ne→==, Option-cases, Bool-cases, ◌-◌,
}
use iocpnet_module_mono_repo.Prelude.Assoc.{
  find, erase, put, put-cases, erase-cases, find-put_self, find-put_other, some_inj, none-some,
}
use iocpnet_module_mono_repo.Sector.Order.{count}
use iocpnet_module_mono_repo.Chat.{Chat, Player, WaitingSession, void_sector}

-- how often a session with this player stands in the list of sector `s`
unfoldable pub standing : ℕ → Option Player → ℕ
standing s none = 0
standing s (some p) = if (p.cur_sector == s) && not (s == void_sector) then 1 else 0

-- A session that waits has no player; a player is filed under its own session; an account leads
-- to a session whose player has it; and a player stands once in the list of its sector and in
-- no other, the void sector's list being empty.
pub record Agree (waiting : List (ℕ × WaitingSession)) (players : List (ℕ × Player))
    (accounts : List (ℕ × ℕ)) (lists : ℕ → List ℕ) : Type 0 where
  pub apart : (h : ℕ) (w : WaitingSession) → find h waiting ≡ some w → find h players ≡ none
  pub own : (h : ℕ) (p : Player) → find h players ≡ some p → p.session_handle ≡ h
  pub account :
      (a h : ℕ)
      → find a accounts ≡ some h
      → (p : Player) × (find h players ≡ some p) × (p.acc_no ≡ a)
  pub placed : (h s : ℕ) → count h (lists s) ≡ standing s (find h players)

abbrev pub IsConsistent : Chat → Type 0
IsConsistent c = Agree c.waiting c.players c.sessions_acc_no c.sector_players

-- Two tables hold players for the same sessions, with the same accounts, at the same places.
abbrev pub Alike : List (ℕ × Player) → List (ℕ × Player) → Type 0
Alike m n =
    (h : ℕ)
    → ((find h m ≡ none) × (find h n ≡ none))
      ⊎ ((p : Player) × (q : Player) × (find h m ≡ some p)
          × (find h n ≡ some q)
          × (q.session_handle ≡ p.session_handle)
          × (q.acc_no ≡ p.acc_no)
          × (q.cur_sector ≡ p.cur_sector))

pub put-Alike :
    (h : ℕ) (p q : Player) (m : List (ℕ × Player))
    → find h m ≡ some p
    → q.session_handle ≡ p.session_handle
    → q.acc_no ≡ p.acc_no
    → q.cur_sector ≡ p.cur_sector
    → Alike m (put h q m)
put-Alike h p q m here eh ea es j = elim (eq-or-ne j h) [
  | inl same ↦ inr (
    p,
    q,
    subst (λ i. find i m ≡ some p) (sym same) here,
    subst (λ i. find i (put h q m) ≡ some q) (sym same) (find-put_self h q m),
    eh,
    ea,
    es,
  )
  | inr other ↦ elim (Option-cases (find j m)) [
    | inl e ↦ inl (e, find-put_other j h q m other ∙ e)
    | inr (r, e) ↦ inr (r, r, e, find-put_other j h q m other ∙ e, refl, refl, refl)
  ]
]

standing_cong :
    (s : ℕ) (p q : Player) → q.cur_sector ≡ p.cur_sector → standing s (some p) ≡ standing s (some q)
unfolding standing
standing_cong s p q e = ap (λ t. if (t == s) && not (s == void_sector) then 1 else 0) (sym e)

-- A player stands in its sector, if that is of the array, and nowhere else.
pub standing_here :
    (s : ℕ) (p : Player) → p.cur_sector ≡ s → s ≢ void_sector → standing s (some p) ≡ 1
unfolding standing
standing_here s p e inside = rw (eq→== p.cur_sector s e, ne→== s void_sector inside) refl

pub standing_away : (s : ℕ) (p : Player) → p.cur_sector ≢ s → standing s (some p) ≡ 0
unfolding standing
standing_away s p e = rw (ne→== p.cur_sector s e) refl

pub standing-none : (s : ℕ) → standing s none ≡ 0
unfolding standing
standing-none s = refl

pub standing_at_most_one : (s : ℕ) (o : Option Player) → standing s o - 1 ≡ 0
unfolding standing
standing_at_most_one s none = refl
standing_at_most_one s (some p) =
    elim (Bool-cases ((p.cur_sector == s) && not (s == void_sector))) [
      | inl e ↦ rw e refl
      | inr e ↦ rw e refl
    ]

module _ (w : List (ℕ × WaitingSession)) (m : List (ℕ × Player)) (a : List (ℕ × ℕ))
    (lists : ℕ → List ℕ) (v : Agree w m a lists) where
  pub join-Agree : (h : ℕ) (new : WaitingSession) → find h m ≡ none → Agree (put h new w) m a lists
  join-Agree h new fresh = record {
    apart = λ j x e. elim (put-cases j h new x w e) [
      | inl same ↦ subst (λ i. find i m ≡ none) (sym same.0) fresh
      | inr other ↦ v.apart j x other.1
    ];
    own = v.own;
    account = v.account;
    placed = v.placed;
  }

  pub erase-Agree : (h : ℕ) → Agree (erase h w) m a lists
  erase-Agree h = record {
    apart = λ j x e. v.apart j x (erase-cases j h x w e).1;
    own = v.own;
    account = v.account;
    placed = v.placed;
  }

  -- players that are changed, but not in their session, account or sector
  pub Alike-Agree : (n : List (ℕ × Player)) → Alike m n → Agree w n a lists
  Alike-Agree n alike = record {
    apart = λ j x e. elim (alike j) [
      | inl gone ↦ gone.1
      | inr (p, q, at_m, at_n, same, same_acc, there) ↦
          absurd (none-some p (sym (v.apart j x e) ∙ at_m))
    ];
    own = λ j r e. elim (alike j) [
      | inl gone ↦ absurd (none-some r (sym gone.1 ∙ e))
      | inr (p, q, at_m, at_n, same, same_acc, there) ↦
          ap (λ t. t.session_handle) (some_inj r q (sym e ∙ at_n)) ∙ same ∙ v.own j p at_m
    ];
    account = λ b j e.
        let (p, at_p, has) = v.account b j e in
        elim (alike j) [
          | inl gone ↦ absurd (none-some p (sym gone.0 ∙ at_p))
          | inr (p', q, at_m, at_n, same, same_acc, there) ↦
              (q, at_n, same_acc ∙ ap (λ t. t.acc_no) (some_inj p' p (sym at_m ∙ at_p)) ∙ has)
        ];
    placed = λ j s. elim (alike j) [
      | inl gone ↦ v.placed j s ∙ ap (standing s) (gone.0 ∙ sym gone.1)
      | inr (p, q, at_m, at_n, same, same_acc, there) ↦
          v.placed j s
          ∙ ap (standing s) at_m
          ∙ standing_cong s p q there
          ∙ ap (standing s) (sym at_n)
    ];
  }
