-- ===== src/Kiroproto/Headers/RoundTrip.antt =====
-- internal/kiroproto/frame.go: headers whose values are strings, encoded and read again.
use kiroxy.Prelude.{
  ℕ, zero, suc, ◌+◌, ◌*◌, ◌/◌, ◌%◌, ◌≤◌, ◌<◌, ◌≡◌, refl, false, inl, inr, ◌||◌, Bool-cases,
  if◌then◌else◌, ltb, List, [], ◌∷◌, ◌++◌, some, length, length-append, append_assoc, arith, All,
}
use kiroxy.Prelude.Bytes.{Bytes, codes, beq, beq_iff}
use kiroxy.Kiroproto.Frame.Encoding.{take_at, drop_at}
use kiroxy.Kiroproto.Headers.{
  Header, header_value_size, value_length, read_value, read_header, note_header, walk_headers,
  extract_frame_headers,
}

-- A header with a string value: the length of its name in a byte, its name, its type, and its value
-- behind the value's length in two bytes.
abbrev pub text_header : Bytes × Bytes → Bytes
text_header (name, value) =
    (length name % 256 ∷ name) ++ (7 ∷ length value / 256 % 256 ∷ length value % 256 ∷ value)

abbrev pub text_headers : List (Bytes × Bytes) → Bytes
text_headers [] = []
text_headers (h ∷ hs) = text_header h ++ text_headers hs

-- The lengths have room in one byte and in two.
abbrev pub Fits : Bytes × Bytes → Type 0
Fits (name, value) = (length name < 256) × (length value < 65536)

abbrev pub as_header : Bytes × Bytes → Header
as_header (name, value) = record { name = name; value_type = 7; value = value }

-- The value of the last header with one of two names, or what there was without one.
abbrev pub last_value : Bytes → Bytes → List (Bytes × Bytes) → Bytes → Bytes
last_value a b [] v = v
last_value a b ((name, w) ∷ hs) v = last_value a b hs (if beq name a || beq name b then w else v)

abbrev pub message_type_name : Bytes
message_type_name = codes ":message-type"

abbrev pub event_type_name : Bytes
event_type_name = codes ":event-type"

abbrev pub exception_type_name : Bytes
exception_type_name = codes ":exception-type"

abbrev noted : Bytes × Bytes → Bytes × Bytes → Bytes × Bytes
noted (name, w) (msg, event) = (
  if beq name message_type_name || beq name message_type_name then w else msg,
  if beq name event_type_name || beq name exception_type_name then w else event,
)

-- No header has two of the names.
note_header-noted : (h types : Bytes × Bytes) → note_header (as_header h) types ≡ noted h types
unfolding note_header
note_header-noted (name, w) (msg, event) = elim (Bool-cases (beq name message_type_name)) [
  | inl e ↦
      let same : name ≡ message_type_name = (beq_iff name message_type_name).0 e in
      rw (note_header, same) (unfold beq in refl)
  | inr e ↦ elim (Bool-cases (beq name event_type_name || beq name exception_type_name)) [
    | inl f ↦ rw (note_header, e, f) refl
    | inr f ↦ rw (note_header, e, f) refl
  ]
]

read_header-text :
    (name value rest : Bytes)
    → Fits (name, value)
    → read_header (text_header (name, value) ++ rest) ≡ some (as_header (name, value), rest)
unfolding read_header read_value header_value_size value_length
read_header-text name value rest (fn, fv) =
    let size = 7 ∷ length value / 256 % 256 ∷ length value % 256 ∷ value in
    let behind = size ++ rest in
    let k : length name % 256 ≡ length name = omega (arith, fn) in
    let n : ltb (length (name ++ behind)) (length name) ≡ false =
      ground (arith, length-append name behind) in
    let v : ltb (length (value ++ rest)) (length value) ≡ false =
      ground (arith, length-append value rest) in
    let l : length value / 256 % 256 * 256 + length value % 256 ≡ length value =
      omega (arith, fv) in
    rw
      (
        append_assoc name size rest,
        read_header,
        k,
        n,
        take_at (length name) name behind refl,
        drop_at (length name) name behind refl,
        l,
        v,
        take_at (length value) value rest refl,
        drop_at (length value) value rest refl,
      )
      refl

walk_headers-text :
    (fuel : ℕ) (hs : List (Bytes × Bytes)) (msg event : Bytes)
    → All Fits hs
    → length hs ≤ fuel
    → walk_headers fuel (text_headers hs) (msg, event) ≡ (
      last_value message_type_name message_type_name hs msg,
      last_value event_type_name exception_type_name hs event,
    )
unfolding walk_headers read_header
walk_headers-text zero [] msg event fits k = refl
walk_headers-text zero (h ∷ hs) msg event fits k = absurd (omega (arith, k))
walk_headers-text (suc fuel) [] msg event fits k = refl
walk_headers-text (suc fuel) ((name, value) ∷ hs) msg event fits k =
    let next = noted (name, value) (msg, event) in
    rw
      (
        walk_headers,
        read_header-text name value (text_headers hs) fits.0,
        note_header-noted (name, value) (msg, event),
      )
      (walk_headers-text fuel hs next.0 next.1 fits.1 (omega (arith, k)))

text_headers-length : (hs : List (Bytes × Bytes)) → length hs ≤ length (text_headers hs)
text_headers-length [] = omega arith
text_headers-length (h ∷ hs) =
    omega (arith, text_headers-length hs, length-append (text_header h) (text_headers hs))

-- If the names and the values fit their lengths, then of any headers whose values are strings, encoded
-- one behind the other, the message type that is read is the value of the last `:message-type`, and
-- the event type that of the last `:event-type` or `:exception-type`; a type without a header is empty.
pub extract_frame_headers-text :
    (hs : List (Bytes × Bytes))
    → All Fits hs
    → extract_frame_headers (text_headers hs) ≡ (
      last_value message_type_name message_type_name hs [],
      last_value event_type_name exception_type_name hs [],
    )
unfolding extract_frame_headers
extract_frame_headers-text hs fits =
    walk_headers-text (length (text_headers hs)) hs [] [] fits (text_headers-length hs)
