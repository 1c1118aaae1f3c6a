-- ===== src/Session/Handles.antt =====
-- The handle of a session: the index of its place above the number of the connection.
use iocpnet_module_mono_repo.Prelude.{
  ℕ, ◌+◌, ◌*◌, ◌/◌, ◌%◌, ◌^◌, ◌<◌, ◌≡◌, ap, ◌∙◌, sym, refl, arith,
}
use iocpnet_module_mono_repo.Prelude.Bits.{bit_or_fields}
use iocpnet_module_mono_repo.Session.{create_session_handle, decode_session_handle}

-- A handle decodes to the index and the low 48 bits of the number it was made of, and fits into
-- 64 bits for an index of 16 bits.
pub decode-create :
    (index id : ℕ)
    → index < 2 ^ 16
    → (decode_session_handle (create_session_handle index id) ≡ (index, id % 2 ^ 48))
      × (create_session_handle index id < 2 ^ 64)
unfolding decode_session_handle create_session_handle
decode-create index id h =
    let e = bit_or_fields 48 index (id % 2 ^ 48) (omega arith) in
    let upper : (index * 2 ^ 48 + id % 2 ^ 48) / 2 ^ 48 ≡ index = omega arith in
    let lower : (index * 2 ^ 48 + id % 2 ^ 48) % 2 ^ 48 ≡ id % 2 ^ 48 = omega arith in
    (rw (e, upper, lower) refl, rw e (omega arith))

low_id : (id : ℕ) → id < 2 ^ 48 → id % 2 ^ 48 ≡ id
low_id id h = omega arith

-- Sessions of different places or, up to 48 bits, of different connections have different
-- handles.
pub create_inj :
    (index id index' id' : ℕ)
    → index < 2 ^ 16
    → index' < 2 ^ 16
    → id < 2 ^ 48
    → id' < 2 ^ 48
    → create_session_handle index id ≡ create_session_handle index' id'
    → (index ≡ index') × (id ≡ id')
create_inj index id index' id' h h' k k' e =
    let same : (index, id % 2 ^ 48) ≡ (index', id' % 2 ^ 48) =
      sym (decode-create index id h).0
      ∙ ap decode_session_handle e
      ∙ (decode-create index' id' h').0 in
    let ids : id % 2 ^ 48 ≡ id' % 2 ^ 48 = ap (λ t. t.1) same in
    (ap (λ t. t.0) same, sym (low_id id k) ∙ ids ∙ low_id id' k')
