-- ===== src/Packet/Fields.antt =====
-- Messages as sequences of typed fields: what is written by a chain of `<<` is read by the chain
-- of `>>` of the same types.
use iocpnet_module_mono_repo.Prelude.{
  ℕ, ◌+◌, ◌^◌, ◌≤◌, ◌<◌, ◌≡◌, refl, sym, ap, ap₂, ◌∙◌, List, [], ◌∷◌, ◌++◌, map, arith, length,
  length-append, append_inj, append-nil, append_assoc, All,
}
use iocpnet_module_mono_repo.Prelude.Memory.{length-read, read}
use iocpnet_module_mono_repo.Packet.{
  SerializeBuffer, bytes_of, value_of, write_scalar, read_scalar, shl_unsigned_char, shl_char,
  shl_short, shl_unsigned_short, shl_int, shl_float, shl_int64, shl_double, shl_unsigned_long_long,
  shl_dword, shr_byte, shr_char, shr_short, shr_word, shr_int, shr_dword, shr_float, shr_int64,
  shr_unsigned_long_long, shr_double,
}
use iocpnet_module_mono_repo.Packet.Contents.{
  IsValid, contents, length-bytes_of, value_of-bytes_of, write_scalar_lem, write_fits,
  read_scalar_lem, read_enough,
}

-- The types that have both operators; `long` has no `operator >>`.
pub data FieldType : Type 0 where
  unsigned_char char short unsigned_short int dword float int64 unsigned_long_long double :
      FieldType

abbrev pub width : FieldType → ℕ
width unsigned_char = 1
width char = 1
width short = 2
width unsigned_short = 2
width int = 4
width dword = 4
width float = 4
width int64 = 8
width unsigned_long_long = 8
width double = 8

unfoldable pub shl : FieldType → ℕ → SerializeBuffer → SerializeBuffer
shl unsigned_char = shl_unsigned_char
shl char = shl_char
shl short = shl_short
shl unsigned_short = shl_unsigned_short
shl int = shl_int
shl dword = shl_dword
shl float = shl_float
shl int64 = shl_int64
shl unsigned_long_long = shl_unsigned_long_long
shl double = shl_double

unfoldable pub shr : FieldType → ℕ → SerializeBuffer → ℕ × SerializeBuffer
shr unsigned_char = shr_byte
shr char = shr_char
shr short = shr_short
shr unsigned_short = shr_word
shr int = shr_int
shr dword = shr_dword
shr float = shr_float
shr int64 = shr_int64
shr unsigned_long_long = shr_unsigned_long_long
shr double = shr_double

shl-write_scalar :
    (t : FieldType) (v : ℕ) (s : SerializeBuffer) → shl t v s ≡ write_scalar (width t) v s
unfolding shl shl_unsigned_char shl_char shl_short shl_unsigned_short shl_int shl_float shl_int64
    shl_double shl_unsigned_long_long shl_dword
shl-write_scalar unsigned_char v s = refl
shl-write_scalar _ v s = refl

shr-read_scalar :
    (t : FieldType) (old : ℕ) (s : SerializeBuffer) → shr t old s ≡ read_scalar (width t) old s
unfolding shr shr_byte shr_char shr_short shr_word shr_int shr_dword shr_float shr_int64
    shr_unsigned_long_long shr_double
shr-read_scalar unsigned_char old s = refl
shr-read_scalar _ old s = refl

abbrev pub Field : Type 0
Field = FieldType × ℕ

-- `s << v1 << v2 << ...`
unfoldable pub shl_all : List Field → SerializeBuffer → SerializeBuffer
shl_all [] s = s
shl_all ((t, v) ∷ fs) s = shl_all fs (shl t v s)

-- `s >> x1 >> x2 >> ...` into fresh variables, with what they hold afterwards
unfoldable pub shr_all : List FieldType → SerializeBuffer → List ℕ × SerializeBuffer
shr_all [] s = ([], s)
shr_all (t ∷ ts) s = let (v, s') = shr t 0 s in let (vs, s'') = shr_all ts s' in (v ∷ vs, s'')

-- The bytes of a message.
unfoldable pub encoding : List Field → List ℕ
encoding [] = []
encoding ((t, v) ∷ fs) = bytes_of (width t) v ++ encoding fs

abbrev pub Fits : Field → Type 0
Fits (t, v) = v < 256 ^ width t

abbrev type_of : Field → FieldType
type_of (t, v) = t

abbrev number_of : Field → ℕ
number_of (t, v) = v

length-encoding :
    (t : FieldType) (v : ℕ) (fs : List Field)
    → length (encoding ((t, v) ∷ fs)) ≡ width t + length (encoding fs)
unfolding encoding
length-encoding t v fs =
    length-append (bytes_of (width t) v) (encoding fs)
    ∙ ap (λ n. n + length (encoding fs)) (length-bytes_of (width t) v)

rear-write :
    (w v : ℕ) (s : SerializeBuffer)
    → s.rear + w ≤ s.buffer_end
    → ((write_scalar w v s).rear ≡ s.rear + w) × ((write_scalar w v s).buffer_size ≡ s.buffer_size)
unfolding write_scalar
rear-write w v s fits = ground arith

-- One `<<` that fits.
shl_lem :
    (t : FieldType) (v : ℕ) (s : SerializeBuffer)
    → IsValid s
    → s.rear + width t ≤ s.buffer_size
    → IsValid (shl t v s)
      × (contents (shl t v s) ≡ contents s ++ bytes_of (width t) v)
      × ((shl t v s).rear ≡ s.rear + width t)
      × ((shl t v s).buffer_size ≡ s.buffer_size)
shl_lem t v s h fits =
    let wrote = write_scalar_lem (width t) v s h in
    let moved = rear-write (width t) v s (omega arith) in
    rw (shl-write_scalar t v s) (wrote.0, write_fits (width t) v s h fits, moved.0, moved.1)

-- One `>>` with enough bytes held.
shr_lem :
    (t : FieldType) (s : SerializeBuffer)
    → IsValid s
    → width t ≤ s.data_size
    → IsValid (shr t 0 s).1
      × (bs : List ℕ) × (length bs ≡ width t)
      × ((shr t 0 s).0 ≡ value_of bs)
      × (contents s ≡ bs ++ contents (shr t 0 s).1)
shr_lem t s h enough =
    let (bs, count, value, taken) = read_enough (width t) 0 s enough in
    rw (shr-read_scalar t 0 s) ((read_scalar_lem (width t) 0 s h).0, bs, count, value, taken)

-- A chain of `<<` that fits behind the rear appends the bytes of the message.
pub shl_all_lem :
    (fs : List Field) (s : SerializeBuffer)
    → IsValid s
    → s.rear + length (encoding fs) ≤ s.buffer_size
    → IsValid (shl_all fs s) × (contents (shl_all fs s) ≡ contents s ++ encoding fs)
unfolding shl_all encoding
shl_all_lem [] s h room = (h, sym (append-nil (contents s)))
shl_all_lem ((t, v) ∷ fs) s h room =
    let count = length-encoding t v fs in
    let (valid, grown, moved, size) = shl_lem t v s h (omega (arith, count)) in
    let rest = shl_all_lem fs (shl t v s) valid (omega (arith, count, moved, size)) in
    (
      rest.0,
      rest.1
          ∙ ap (λ bs. bs ++ encoding fs) grown
          ∙ append_assoc (contents s) (bytes_of (width t) v) (encoding fs),
    )

-- A chain of `>>` takes a message off the front and leaves what stands behind it.
pub shr_all_lem :
    (fs : List Field) (rest : List ℕ) (s : SerializeBuffer)
    → IsValid s
    → All Fits fs
    → contents s ≡ encoding fs ++ rest
    → let (vs, s') = shr_all (map type_of fs) s in
      (vs ≡ map number_of fs) × (contents s' ≡ rest) × IsValid s'
unfolding shr_all
shr_all_lem [] rest s h ok e = unfold encoding in (refl, e, h)
shr_all_lem ((t, v) ∷ fs) rest s h ok e =
    let count = length-encoding t v fs in
    let held : s.data_size ≡ length (encoding ((t, v) ∷ fs)) + length rest =
      sym (length-read s.memory s.front s.data_size)
      ∙ ap length e
      ∙ length-append (encoding ((t, v) ∷ fs)) rest in
    let (valid, bs, bs_length, value, taken) = shr_lem t s h (omega (arith, held, count)) in
    let split =
      append_inj bs (bytes_of (width t) v) (contents (shr t 0 s).1) (encoding fs ++ rest)
        (bs_length ∙ sym (length-bytes_of (width t) v))
        (unfold encoding in
          sym taken ∙ e ∙ append_assoc (bytes_of (width t) v) (encoding fs) rest) in
    let number : (shr t 0 s).0 ≡ v =
      value ∙ ap value_of split.0 ∙ value_of-bytes_of (width t) v ok.0 in
    let below = shr_all_lem fs rest (shr t 0 s).1 valid ok.1 split.1 in
    (ap₂ ◌∷◌ number below.0, below.1, below.2)

-- A message written to an empty valid buffer with room for it is read back field by field, with
-- every value as it was, and the buffer is empty again.
pub message_round_trip :
    (fs : List Field) (s : SerializeBuffer)
    → IsValid s
    → s.data_size ≡ 0
    → All Fits fs
    → s.rear + length (encoding fs) ≤ s.buffer_size
    → let (vs, s') = shr_all (map type_of fs) (shl_all fs s) in
      (vs ≡ map number_of fs) × (contents s' ≡ []) × IsValid s'
message_round_trip fs s h empty ok room =
    let wrote = shl_all_lem fs s h room in
    let none_held : contents s ≡ [] = unfold read in ap (read s.memory s.front) empty in
    shr_all_lem fs [] (shl_all fs s) wrote.0 ok
      (wrote.1 ∙ ap (λ bs. bs ++ encoding fs) none_held ∙ sym (append-nil (encoding fs)))
