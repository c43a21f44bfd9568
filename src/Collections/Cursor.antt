-- ===== src/Collections/Cursor.antt =====
-- `EncodeCursor` and `DecodeCursor` of apps/api/internal/collections/model.go. The text of a UUID is
-- that of the package google/uuid, which is an argument: `String` and `Parse`.
use stream_analysis_tools.Base.{
  ℕ, ◌^◌, ◌≤◌, ◌<◌, ℤ, ◌≡◌, refl, ◌∙◌, ◌≢◌, false, List, [], ◌∷◌, ◌++◌, Option, none, some, All,
  All-append, arith, Bytes, length, length-append, ltb, ◌==◌, if◌then◌else◌,
}
use stream_analysis_tools.Collections.Model.{Cursor}
use stream_analysis_tools.Errors.{Result, ok, err, invalid_request}
use stream_analysis_tools.Go.Base64
use stream_analysis_tools.Go.Base64.{IsByte}
use stream_analysis_tools.Go.Strconv.{
  format_int, parse_int, IsInt64, parse_int-format_int, length-format_int, format_int_plain,
}
use stream_analysis_tools.Go.Strings.{split, split-two}

-- What the package uuid says of its texts: `Parse` reads what `String` writes, which has 36 bytes
-- of ASCII, none of them a colon.
pub record UuidText (uuid_string : ℕ → Bytes) (uuid_parse : Bytes → Option ℕ) : Type 0 where
  pub read_back : (id : ℕ) → id < 2 ^ 128 → uuid_parse (uuid_string id) ≡ some id
  pub short : (id : ℕ) → id < 2 ^ 128 → length (uuid_string id) ≤ 36
  pub plain : (id : ℕ) → id < 2 ^ 128 → All (λ c. (c < 128) × ((c == 58) ≡ false)) (uuid_string id)

-- A cursor as the database's types bound it.
abbrev pub InRange : Cursor → Type 0
InRange c = IsInt64 c.offset_milliseconds × (c.id < 2 ^ 128)

module _ (uuid_string : ℕ → Bytes) where
  -- strconv.FormatInt(cursor.OffsetMilliseconds, 10) + ":" + cursor.ID.String()
  abbrev payload_of : Cursor → Bytes
  payload_of c = format_int c.offset_milliseconds ++ 58 ∷ uuid_string c.id

  -- `EncodeCursor`
  unfoldable pub encode_cursor : Cursor → Bytes
  encode_cursor c = Base64.encode (payload_of c)

module _ (uuid_parse : Bytes → Option ℕ) where
  abbrev both_parts : Option ℤ → Option ℕ → Result (Option Cursor)
  both_parts none id = err invalid_request
  both_parts (some offset) none = err invalid_request
  both_parts (some offset) (some id) = ok (some (record { offset_milliseconds = offset; id = id }))

  abbrev read_parts : List Bytes → Result (Option Cursor)
  read_parts (offset ∷ id ∷ []) = both_parts (parse_int offset) (uuid_parse id)
  read_parts _ = err invalid_request

  abbrev read_payload : Option Bytes → Result (Option Cursor)
  read_payload none = err invalid_request
  read_payload (some payload) = read_parts (split 58 payload)

  -- `DecodeCursor`; no cursor is the start.
  unfoldable pub decode_cursor : Bytes → Result (Option Cursor)
  decode_cursor [] = ok none
  decode_cursor (c ∷ s) =
      if ltb 256 (length (c ∷ s)) then err invalid_request else read_payload (Base64.decode (c ∷ s))

abbrev Plain : Bytes → Type 0
Plain = All (λ c. (c < 128) × ((c == 58) ≡ false))

bytes : (s : Bytes) → Plain s → All IsByte s
bytes [] h = tt
bytes (c ∷ s) h = (omega (arith, h.0.0), bytes s h.1)

colons : (s : Bytes) → Plain s → All (λ c. (c == 58) ≡ false) s
colons [] h = tt
colons (c ∷ s) h = (h.0.1, colons s h.1)

nonempty : (s : Bytes) (t : Bytes) → s ++ 58 ∷ t ≢ []
nonempty [] t = λ e. cc
nonempty (c ∷ s) t = λ e. cc

module _ (uuid_string : ℕ → Bytes) (uuid_parse : Bytes → Option ℕ)
    (uuid : UuidText uuid_string uuid_parse) where
  decode_some :
      (s : Bytes)
      → s ≢ []
      → length s ≤ 256
      → decode_cursor uuid_parse s ≡ read_payload uuid_parse (Base64.decode s)
  unfolding decode_cursor
  decode_some [] h l = absurd (h refl)
  decode_some (c ∷ s) h l = ground (arith, l)

  -- A cursor whose offset is an int64 and whose identifier has 128 bits is read back from its text.
  pub decode_cursor-encode_cursor :
      (c : Cursor)
      → InRange c
      → decode_cursor uuid_parse (encode_cursor uuid_string c) ≡ ok (some c)
  unfolding encode_cursor
  decode_cursor-encode_cursor c (offset, id) =
      let left : Plain (format_int c.offset_milliseconds) =
        format_int_plain c.offset_milliseconds in
      let right : Plain (uuid_string c.id) = uuid.plain c.id id in
      decode_some _ (Base64.encode-ne-nil _ (nonempty (format_int c.offset_milliseconds) _)) (
        omega (
          arith,
          Base64.length-encode (payload_of uuid_string c),
          length-append (format_int c.offset_milliseconds) (58 ∷ uuid_string c.id),
          length-format_int c.offset_milliseconds,
          uuid.short c.id id,
        ))
      ∙ rw
          (Base64.decode-encode (payload_of uuid_string c)
            (All-append IsByte _ _ (bytes _ left) (omega arith, bytes _ right)))
          (rw
            (split-two 58 (format_int c.offset_milliseconds) (uuid_string c.id) (colons _ left)
              (colons _ right))
            (rw (parse_int-format_int c.offset_milliseconds offset)
              (rw (uuid.read_back c.id id) refl)))
