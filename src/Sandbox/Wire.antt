-- ===== src/Sandbox/Wire.antt =====
-- crates/sandbox/src/pipe_proto.rs: what is encoded is decoded.
use rage.Prelude.{
  All, Bool, List, Option, [], ap, arith, false, if◌then◌else◌, length, length-append, ltb, none,
  refl, some, true, ℕ, ◌%◌, ◌*◌, ◌++◌, ◌+◌, ◌/◌, ◌<◌, ◌^◌, ◌∙◌, ◌∷◌, ◌≡◌, ◌≤◌,
}
use rage.Sandbox.{
  Units, AccessEvent, read_event, write_event, op_read, op_write, header_len, encode_units,
  encode_parts, encode_event, decode_units, event_of, with_total, decode_event,
}

abbrev pub path_of : AccessEvent → Units
path_of (read_event path pid) = path
path_of (write_event path pid) = path

abbrev pub pid_of : AccessEvent → ℕ
pid_of (read_event path pid) = pid
pid_of (write_event path pid) = pid

length-encode_units : (us : Units) → length (encode_units us) ≡ length us * 2
unfolding encode_units
length-encode_units [] = omega arith
length-encode_units (u ∷ us) = omega (arith, length-encode_units us)

decode_units-encode_units :
    (us : Units) (rest : List ℕ)
    → All (λ u. u < 65536) us
    → decode_units (length us) (encode_units us ++ rest) ≡ us
unfolding decode_units encode_units
decode_units-encode_units [] rest h = refl
decode_units-encode_units (u ∷ us) rest h =
    let unit : u % 256 + 256 * (u / 256 % 256) ≡ u = omega (arith, h.0) in
    ap (λ x. x ∷ decode_units (length us) (encode_units us ++ rest)) unit
    ∙ ap (λ l. u ∷ l) (decode_units-encode_units us rest h.1)

u32-back :
    (n : ℕ)
    → n < 4294967296
    → n % 256 + 256 * (n / 256 % 256) + 65536 * (n / 65536 % 256) + 16777216 * (n / 16777216 % 256)
      ≡ n
u32-back n h = omega (arith, h)

abbrev decode_body : ℕ → List ℕ → ℕ → ℕ → Option (AccessEvent × ℕ)
decode_body op bytes words pid =
    if ltb (length bytes) (words * 2)
    then none
    else with_total (header_len + words * 2) (event_of op (decode_units words bytes) pid)

decode_parts :
    (op : ℕ) (path : Units) (pid : ℕ) (rest : List ℕ)
    → All (λ u. u < 65536) path
    → length path < 65536
    → pid < 4294967296
    → decode_event (encode_parts op path pid ++ rest)
      ≡ with_total (header_len + length path * 2) (event_of op path pid)
unfolding decode_event
decode_parts op path pid rest units short pid_fits =
    let bytes = encode_units path ++ rest in
    let words : length path % 2 ^ 16 % 256 + 256 * (length path % 2 ^ 16 / 256 % 256)
        ≡ length path =
      omega (arith, short) in
    let enough : ltb (length bytes) (length path * 2) ≡ false =
      ground (arith, length-append (encode_units path) rest, length-encode_units path) in
    ap
      (λ w. decode_body op bytes w (
        pid % 256
        + 256 * (pid / 256 % 256)
        + 65536 * (pid / 65536 % 256)
        + 16777216 * (pid / 16777216 % 256)))
      words
    ∙ ap (decode_body op bytes (length path)) (u32-back pid pid_fits)
    ∙ ap
        (λ b.
          if b
          then none
          else with_total (header_len + length path * 2)
              (event_of op (decode_units (length path) bytes) pid))
        enough
    ∙ ap (λ us. with_total (header_len + length path * 2) (event_of op us pid))
        (decode_units-encode_units path rest units)

-- Decoding what was encoded gives the event back, and the number of bytes that it took, whatever
-- follows in the buffer, if the path has fewer than 65536 units.
pub decode_event-encode_event :
    (e : AccessEvent) (rest : List ℕ)
    → All (λ u. u < 65536) (path_of e)
    → length (path_of e) < 65536
    → pid_of e < 4294967296
    → decode_event (encode_event e ++ rest) ≡ some (e, header_len + length (path_of e) * 2)
unfolding encode_event
decode_event-encode_event (read_event path pid) rest units short fits =
    decode_parts op_read path pid rest units short fits
decode_event-encode_event (write_event path pid) rest units short fits =
    decode_parts op_write path pid rest units short fits

-- What is decoded, if anything, lies within the buffer: at least the header is taken, and no more
-- than there is.
pub decode_event-bounds :
    (buf : List ℕ) (e : AccessEvent) (total : ℕ)
    → decode_event buf ≡ some (e, total)
    → (header_len ≤ total) × (total ≤ length buf)
unfolding decode_event
decode_event-bounds (op ∷ a ∷ b ∷ c ∷ d ∷ l ∷ h ∷ rest) e total q =
    go (ltb (length rest) ((l + 256 * h) * 2)) refl
      (event_of op (decode_units (l + 256 * h) rest) (a + 256 * b + 65536 * c + 16777216 * d)) q
  where
    go :
        (t : Bool)
        → ltb (length rest) ((l + 256 * h) * 2) ≡ t
        → (o : Option AccessEvent)
        → (if t then none else with_total (header_len + (l + 256 * h) * 2) o) ≡ some (e, total)
        → (header_len ≤ total) × (total ≤ length (op ∷ a ∷ b ∷ c ∷ d ∷ l ∷ h ∷ rest))
    go true k o r = absurd (cc)
    go false k none r = absurd (cc)
    go false k (some x) r =
        let same : header_len + (l + 256 * h) * 2 ≡ total =
          ap (λ y. elim y [ none ↦ total | some z ↦ z.1 ]) r in
        (omega (arith, same), ground (arith, same, k))
decode_event-bounds [] e total q = absurd (cc)
decode_event-bounds (a ∷ []) e total q = absurd (cc)
decode_event-bounds (a ∷ b ∷ []) e total q = absurd (cc)
decode_event-bounds (a ∷ b ∷ c ∷ []) e total q = absurd (cc)
decode_event-bounds (a ∷ b ∷ c ∷ d ∷ []) e total q = absurd (cc)
decode_event-bounds (a ∷ b ∷ c ∷ d ∷ f ∷ []) e total q = absurd (cc)
decode_event-bounds (a ∷ b ∷ c ∷ d ∷ f ∷ g ∷ []) e total q = absurd (cc)
