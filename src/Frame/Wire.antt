-- ===== src/Frame/Wire.antt =====
-- What a packet looks like on the wire, as a list of bytes, and how such a list lies in a ring.
use iocpnet_module_mono_repo.Prelude.{
  ℕ, ◌+◌, ◌/◌, ◌%◌, ◌≡◌, sym, ap, ◌∙◌, List, ◌∷◌, ◌++◌, arith, length, length-append, append_inj,
  subst, if◌then◌else◌,
}
use iocpnet_module_mono_repo.Encoder.{encode_from, calculate_checksum}
use iocpnet_module_mono_repo.Ring.{RingBuffer, use_size, peek, move_front, dequeue}
use iocpnet_module_mono_repo.Ring.Contents.{IsValid, contents, length-contents}
use iocpnet_module_mono_repo.Ring.Dequeue.{dequeue_lem, dequeue-peek-move_front}
use iocpnet_module_mono_repo.Frame.{NetConfig}

-- checksum and payload as they are sent; without encryption the checksum's byte is `unset`
abbrev pub sealed_part : NetConfig → ℕ → ℕ → List ℕ → List ℕ
sealed_part c rk unset payload =
    if c.encryption
    then encode_from c.fixed_key rk 0 0 0 (calculate_checksum payload ∷ payload)
    else unset ∷ payload

-- the bytes of a packet whose random key is `rk`
abbrev pub wire : NetConfig → ℕ → ℕ → List ℕ → List ℕ
wire c rk unset payload =
    c.header_code % 256
    ∷ length payload % 256
    ∷ length payload / 256
    ∷ rk
    ∷ sealed_part c rk unset payload

module _ (r : RingBuffer) (first rest : List ℕ) (v : IsValid r)
    (e : contents r ≡ first ++ rest) where
  pub use_size_split : use_size r ≡ length first + length rest
  use_size_split = sym (length-contents r) ∙ ap length e ∙ length-append first rest

  -- A ring that begins with `first` gives just that to a `Dequeue` of its length.
  pub dequeue_split :
      let (n, out, r') = dequeue (length first) r in
      (out ≡ first) × (contents r' ≡ rest) × IsValid r'
  dequeue_split =
      let (count, len, split, valid) = dequeue_lem (length first) r v in
      let size : use_size r ≡ length first + length rest = use_size_split in
      let same : length (dequeue (length first) r).1 ≡ length first = omega arith in
      let (a, b) = append_inj (dequeue (length first) r).1 first _ rest same (sym split ∙ e) in
      (a, b, valid)

  pub peek_split :
      ((peek (length first) r).1 ≡ first)
      × (contents (move_front (length first) r).1 ≡ rest)
      × IsValid (move_front (length first) r).1
  peek_split =
      let (a, b, c) = dequeue_split in
      let whole = (dequeue-peek-move_front (length first) r).0 in
      (
        sym (ap (λ t. t.1) whole) ∙ a,
        sym (ap (λ t. contents t.2) whole) ∙ b,
        subst (λ t. IsValid t.2) whole c,
      )
