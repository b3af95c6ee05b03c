-- ===== src/Handles/Pagination/Cursors.antt =====
-- A cursor that internal/handles/postsPagination.go gave out, when it comes back.
use text.Mathlib.Text.{◌==◌ as str_eq}
use blog_go.Prelude.{ℕ, ◌≡◌, refl, String, Text, true, false, Option, none, some, arith, inl, inr}
use blog_go.Action.{ok}
use blog_go.Action.Laws.{Result-cases}
use blog_go.Models.{PostPaginationCursor}
use blog_go.Models.Validators.{has_required}
use blog_go.Handles.Context.{Request, default_query}
use blog_go.Handles.Pagination.{
  CursorCodec, read_cursor, decode_cursor, encode_cursor, get_cursor_and_limit,
}

-- JSON reads back what it wrote, base64 decodes what it encoded, and the text of a JSON object is not
-- empty.
pub record IsCodec (codec : CursorCodec) : Type 0 where
  pub unmarshal-marshal :
      (c : PostPaginationCursor) (bytes : Text)
      → codec.marshal c ≡ ok bytes
      → codec.unmarshal bytes ≡ ok c
  pub decode-encode : (bytes : Text) → codec.decode_string (codec.encode_to_string bytes) ≡ ok bytes
  pub encoded_not_empty :
      (c : PostPaginationCursor) (bytes : Text)
      → codec.marshal c ≡ ok bytes
      → str_eq (codec.encode_to_string bytes) "" ≡ false

module _ (codec : CursorCodec) (laws : IsCodec codec) where
  -- The validator lets the cursor pass; no cursor needs nothing.
  abbrev pub IsValid : Option PostPaginationCursor → Type 0
  IsValid none = Unit
  IsValid (some c) = has_required c ≡ true

  -- A request with the text of a cursor is read as that cursor, and one with the empty text, which
  -- stands for the last page, as one without a cursor; the limit is its number, or 10. The cursor has
  -- an identifier that is not all zeros, and the libraries read back what they wrote.
  pub get_cursor_and_limit-encode_cursor :
      (c : Option PostPaginationCursor) (text : String) (req : Request) (limit : ℕ)
      → IsValid c
      → encode_cursor codec c ≡ ok text
      → req.query "cursor" ≡ some text
      → codec.atoi (default_query req "limit" "10") ≡ ok limit
      → get_cursor_and_limit codec req ≡ ok (c, limit)
  unfolding get_cursor_and_limit encode_cursor decode_cursor read_cursor
  get_cursor_and_limit-encode_cursor none text req limit valid encoded sent asked =
      let empty : text ≡ "" = ground arith in
      let none_sent : str_eq text "" ≡ true = rw empty refl in ground arith
  get_cursor_and_limit-encode_cursor (some c) text req limit valid encoded sent asked =
      elim (Result-cases (codec.marshal c)) [
        | inr (e, failed) ↦ absurd (ground arith)
        | inl (bytes, made) ↦ ground (
          arith,
          laws.unmarshal-marshal c bytes made,
          laws.decode-encode bytes,
          laws.encoded_not_empty c bytes made,
        )
      ]
