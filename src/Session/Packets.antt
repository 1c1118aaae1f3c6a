-- ===== src/Session/Packets.antt =====
-- The reference counts of the packets that ClearSendPackets and ClearSendBuffer give back.
use iocpnet_module_mono_repo.Prelude.{
  ℕ, ◌+◌, ◌-◌, ◌%◌, ◌^◌, ◌≤◌, ◌<◌, ◌≡◌, ◌≢◌, refl, arith, List, [], ◌∷◌, ◌++◌, ◌==◌, if◌then◌else◌,
  inl, inr, ◌⊎◌, Bool-cases,
}
use iocpnet_module_mono_repo.Session.{Shared, drop_packet, drop_packets}

-- how often a packet stands in a list
abbrev pub occurrences : ℕ → List ℕ → ℕ
occurrences p [] = 0
occurrences p (q ∷ qs) = if p == q then occurrences p qs + 1 else occurrences p qs

pub occurrences-snoc :
    (p q : ℕ) (qs : List ℕ)
    → occurrences p (qs ++ (q ∷ [])) ≡ occurrences p qs + occurrences p (q ∷ [])
occurrences-snoc p q [] = ground arith
occurrences-snoc p q (x ∷ xs) = let ih = occurrences-snoc p q xs in ground arith

-- What one reference given back does to the packet `p`.
pub drop_packet_lem :
    (p q : ℕ) (w : Shared)
    → 0 < w.ref_count p
    → w.ref_count p < 2 ^ 32
    → let w' = drop_packet q w in
      ((p ≡ q)
        × (w'.ref_count p ≡ w.ref_count p - 1)
        × (((w.ref_count p ≡ 1) × (occurrences p w'.freed ≡ occurrences p w.freed + 1))
            ⊎ ((1 < w.ref_count p) × (occurrences p w'.freed ≡ occurrences p w.freed))))
      ⊎ ((p ≢ q)
          × (w'.ref_count p ≡ w.ref_count p)
          × (occurrences p w'.freed ≡ occurrences p w.freed))
unfolding drop_packet
drop_packet_lem p q w some_left word =
    elim (Bool-cases ((w.ref_count q + (2 ^ 32 - 1)) % 2 ^ 32 == 0)) [
      | inl last ↦ rw last (ground (arith, occurrences-snoc p q w.freed))
      | inr more ↦ rw more (ground arith)
    ]

drop_other :
    (p q : ℕ) (w : Shared)
    → p ≢ q
    → ((drop_packet q w).ref_count p ≡ w.ref_count p)
      × (occurrences p (drop_packet q w).freed ≡ occurrences p w.freed)
unfolding drop_packet
drop_other p q w apart = elim (Bool-cases ((w.ref_count q + (2 ^ 32 - 1)) % 2 ^ 32 == 0)) [
  | inl last ↦ rw last (ground (arith, occurrences-snoc p q w.freed))
  | inr more ↦ rw more (ground arith)
]

-- Of a packet with as many references as it stands in the list, or more: each place in the list
-- gives one back, and the packet goes back to the pool just once if they were all of them, else
-- not at all.
pub drop_packets_lem :
    (p : ℕ) (ps : List ℕ) (w : Shared)
    → occurrences p ps ≤ w.ref_count p
    → w.ref_count p < 2 ^ 32
    → let w' = drop_packets ps w in
      (w'.ref_count p ≡ w.ref_count p - occurrences p ps)
      × (((0 < occurrences p ps)
            × (occurrences p ps ≡ w.ref_count p)
            × (occurrences p w'.freed ≡ occurrences p w.freed + 1))
          ⊎ (((occurrences p ps ≡ 0) ⊎ (occurrences p ps < w.ref_count p))
              × (occurrences p w'.freed ≡ occurrences p w.freed)))
unfolding drop_packets
drop_packets_lem p [] w enough word = (omega arith, inr (inl refl, refl))
drop_packets_lem p (q ∷ qs) w enough word = elim (Bool-cases (p == q)) [
  | inl same ↦
      let count : occurrences p (q ∷ qs) ≡ occurrences p qs + 1 = rw same refl in
      let equal : p ≡ q = ground arith in
      let here = drop_packet_lem p q w (omega arith) word in
      let ih = drop_packets_lem p qs (drop_packet q w) (ground arith) (ground arith) in
      rw same (ground arith)
  | inr other ↦
      let count : occurrences p (q ∷ qs) ≡ occurrences p qs = rw other refl in
      let here = drop_other p q w (ground arith) in
      let ih = drop_packets_lem p qs (drop_packet q w) (omega arith) (omega arith) in
      rw other (ground arith)
]
