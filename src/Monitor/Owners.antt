-- ===== src/Monitor/Owners.antt =====
-- Which session of MonitorServer/main.cpp reports for a server, over any run of its handlers.
use iocpnet_module_mono_repo.Prelude.{
  ℕ, ◌≡◌, ◌≢◌, inl, inr, sym, subst, ap, ◌∙◌, List, none, some, eq-or-ne, Option-cases,
}
use iocpnet_module_mono_repo.Prelude.Assoc.{
  find, erase, put, put-cases, erase-cases, find-put_self, find-put_other, find-erase_other,
  some_inj, none-some,
}
use iocpnet_module_mono_repo.Chat.{WaitingSession}
use iocpnet_module_mono_repo.Monitor.{MonitorServer, Client}

-- A session that waits is no client, and the session on record for a server is a client with
-- that server's number.
pub record Owned (waiting : List (ℕ × WaitingSession)) (clients : List (ℕ × Client))
    (owners : List (ℕ × ℕ)) : Type 0 where
  pub apart : (h : ℕ) (w : WaitingSession) → find h waiting ≡ some w → find h clients ≡ none
  pub owner :
      (n h : ℕ)
      → find n owners ≡ some h
      → (c : Client) × (find h clients ≡ some c) × (c.server_no ≡ n)

abbrev pub IsOwned : MonitorServer → Type 0
IsOwned s = Owned s.waiting s.clients s.sessions_server_no

module _ {waiting : List (ℕ × WaitingSession)} {clients : List (ℕ × Client)}
    {owners : List (ℕ × ℕ)} where
  pub erase_waiting :
      (h : ℕ) → Owned waiting clients owners → Owned (erase h waiting) clients owners
  erase_waiting h i = record {
    apart = λ j w e. i.apart j w (erase-cases j h w waiting e).1;
    owner = i.owner;
  }

  pub put_waiting :
      (h : ℕ) (w : WaitingSession)
      → find h clients ≡ none
      → Owned waiting clients owners
      → Owned (put h w waiting) clients owners
  put_waiting h w new i = record {
    apart = λ j v e. elim (put-cases j h w v waiting e) [
      | inl (same, _) ↦ subst (λ k. find k clients ≡ none) (sym same) new
      | inr (_, there) ↦ i.apart j v there
    ];
    owner = i.owner;
  }

  -- a client's record changes, its number stays
  pub put_client :
      (h : ℕ) (c d : Client)
      → find h clients ≡ some c
      → d.server_no ≡ c.server_no
      → Owned waiting clients owners
      → Owned waiting (put h d clients) owners
  put_client h c d here keeps i = record {
    apart = λ j w e. elim (eq-or-ne j h) [
      | inl same ↦
          let gone : find h clients ≡ none =
            subst (λ k. find k clients ≡ none) same (i.apart j w e) in
          absurd (none-some c (sym gone ∙ here))
      | inr other ↦ find-put_other j h d clients other ∙ i.apart j w e
    ];
    owner = λ n j e.
        let (b, at, is) = i.owner n j e in
        elim (eq-or-ne j h) [
          | inl same ↦
              let equal : b ≡ c = some_inj b c (sym at ∙ ap (λ k. find k clients) same ∙ here) in
              (
                d,
                ap (λ k. find k (put h d clients)) same ∙ find-put_self h d clients,
                keeps ∙ sym (ap (λ x. x.server_no) equal) ∙ is,
              )
          | inr other ↦ (b, find-put_other j h d clients other ∙ at, is)
        ];
  }

  -- a session that does not wait and is no client becomes the owner of a number
  pub new_owner :
      (h n : ℕ) (c : Client)
      → find h waiting ≡ none
      → find h clients ≡ none
      → c.server_no ≡ n
      → Owned waiting clients owners
      → Owned waiting (put h c clients) (put n h owners)
  new_owner h n c waits_not new is i = record {
    apart = λ j w e. elim (eq-or-ne j h) [
      | inl same ↦ absurd (none-some w (sym waits_not ∙ ap (λ k. find k waiting) (sym same) ∙ e))
      | inr other ↦ find-put_other j h c clients other ∙ i.apart j w e
    ];
    owner = λ m j e. elim (put-cases m n h j owners e) [
      | inl (same, self) ↦ (
        c,
        ap (λ k. find k (put h c clients)) (sym self) ∙ find-put_self h c clients,
        is ∙ sym same,
      )
      | inr (_, there) ↦
          let (b, at, of_m) = i.owner m j there in
          let other : j ≢ h =
            λ same. none-some b (sym new ∙ ap (λ k. find k clients) (sym same) ∙ at) in
          (b, find-put_other j h c clients other ∙ at, of_m)
    ];
  }

  -- a client goes, and with it the record of its number
  pub drop_client :
      (h : ℕ) (c : Client)
      → find h clients ≡ some c
      → Owned waiting clients owners
      → Owned waiting (erase h clients) (erase c.server_no owners)
  drop_client h c here i = record {
    apart = λ j w e. elim (Option-cases (find j (erase h clients))) [
      | inl none_left ↦ none_left
      | inr (b, at) ↦ absurd (none-some b (sym (i.apart j w e) ∙ (erase-cases j h b clients at).1))
    ];
    owner = λ n j e.
        let (other, there) = erase-cases n c.server_no j owners e in
        let (b, at, is) = i.owner n j there in
        let moved : j ≢ h = λ same. other (
          sym is
          ∙ ap (λ x. x.server_no) (some_inj b c (sym at ∙ ap (λ k. find k clients) same ∙ here))) in
        (b, find-erase_other j h clients moved ∙ at, is);
  }
