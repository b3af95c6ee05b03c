-- ===== src/Handles/Pagination.antt =====
-- internal/handles/postsPagination.go. JSON, base64 and `strconv.Atoi` are parameters.
pub mod Cursors
use text.Mathlib.Text.{◌==◌ as str_eq}
use blog_go.Prelude.{ℕ, String, Text, Option, none, some, if◌then◌else◌}
use blog_go.Errs.{Error, http_error, wrap}
use blog_go.Action.{Result, ok, err}
use blog_go.Models.{PostPaginationCursor}
use blog_go.Models.Validators.{has_required}
use blog_go.Handles.Context.{Request, default_query}

-- A text of JSON is a list of bytes; an `int` is a 64-bit pattern.
pub record CursorCodec : Type 0 where
  pub marshal : PostPaginationCursor → Result Text
  pub unmarshal : Text → Result PostPaginationCursor
  pub encode_to_string : Text → String
  pub decode_string : String → Result Text
  pub atoi : String → Result ℕ

abbrev pub err_wrong_cursor_format : Error
err_wrong_cursor_format =
    http_error
      (record { code = 400; error_tag = "invalid_cursor"; message = "Invalid cursor format" })

abbrev pub err_limit_must_be_number : Error
err_limit_must_be_number = http_error (record {
  code = 400;
  error_tag = "invalid_limit";
  message = "Limit must be a positive number";
})

module _ (codec : CursorCodec) where
  -- `json.Unmarshal` and the validator.
  read_cursor : Text → Result (Option PostPaginationCursor)
  unfolding has_required
  read_cursor data_bytes = elim (codec.unmarshal data_bytes) [
    | err e ↦ err err_wrong_cursor_format
    | ok cursor ↦ if has_required cursor then ok (some cursor) else err err_wrong_cursor_format
  ]

  unfoldable pub decode_cursor : String → Result (Option PostPaginationCursor)
  unfolding read_cursor
  decode_cursor encoded =
      if str_eq encoded "" then ok none else elim (codec.decode_string encoded) [
        | err e ↦ err err_wrong_cursor_format
        | ok decoded ↦ read_cursor decoded
      ]

  unfoldable pub encode_cursor : Option PostPaginationCursor → Result String
  encode_cursor none = ok ""
  encode_cursor (some cursor) = elim (codec.marshal cursor) [
    | err e ↦ err (wrap "could not marshal cursor" e)
    | ok bytes ↦ ok (codec.encode_to_string bytes)
  ]

  unfoldable pub get_cursor_and_limit : Request → Result (Option PostPaginationCursor × ℕ)
  unfolding decode_cursor
  get_cursor_and_limit req = elim (codec.atoi (default_query req "limit" "10")) [
    | err e ↦ err err_limit_must_be_number
    | ok limit ↦
        let encoded = default_query req "cursor" "" in
        if str_eq encoded ""
        then ok (none, limit)
        else elim (decode_cursor encoded) [ err e ↦ err e | ok cursor ↦ ok (cursor, limit) ]
  ]
