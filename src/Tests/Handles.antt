-- ===== src/Tests/Handles.antt =====
-- The cursor of internal/handles/postsPagination.go with a codec that writes the identifier only, and
-- logins of internal/handles/authHandler.go.
use blog_go.Prelude.{
  ℕ, zero, suc, ◌+◌, ap, ◌≡◌, refl, Bool, Bool-cases, inl, inr, ◌⊎◌, String, Text, true, false,
  none, some, [], ◌∷◌, ◌&&◌, ◌==◌, if◌then◌else◌, arith,
}
use Prim.Native.Char.{code}
use text.Mathlib.Text.{◌==◌ as str_eq}
use text.Mathlib.TextEquality.{eq_iff}
use blog_go.Errs.{other, validation_errors}
use blog_go.Action.{Result, ok, err, pure, ◌>>=◌, map_err}
use blog_go.Models.{PostPaginationCursor, UserLoginInfo}
use blog_go.Models.Validators.{has_required}
use blog_go.Repositories.Users.{user_repository}
use blog_go.Repositories.Tokens.{token_repository}
use blog_go.Services.Auth.{authenticate_user, sign_jwt}
use blog_go.Handles.Context.{Request, Binding, reply, token_pair}
use blog_go.Handles.Errors.{process_auth_service_errors}
use blog_go.Handles.Auth.{login}
use blog_go.Handles.Auth.Nameless.{IsNameless, missing_names, login-cases}
use blog_go.Handles.Pagination.{CursorCodec, get_cursor_and_limit, encode_cursor}
use blog_go.Handles.Pagination.Cursors.{IsCodec, get_cursor_and_limit-encode_cursor}
use blog_go.Tests.Fixtures.{uuid_text, runtime, start_db}

-- A number of JSON's is a byte here, and base64 writes a byte in unary.
abbrev unary : ℕ → String → String
unary zero s = String.◌∷◌ "y" s
unary (suc n) s = String.◌∷◌ "x" (unary n s)

abbrev encode : Text → String
encode [] = String.[]
encode (n ∷ ns) = unary n (encode ns)

abbrev decode : ℕ → String → Text
decode k String.[] = []
decode k (String.◌∷◌ c s) =
    let more = decode (suc k) s in
    let rest = decode 0 s in if code c == b'x' then more else k ∷ rest

decode-unary : (n k : ℕ) (s : String) → decode k (unary n s) ≡ (k + n) ∷ decode 0 s
decode-unary zero k s = ground arith
decode-unary (suc n) k s = ground (arith, decode-unary n (suc k) s)

decode-encode : (ns : Text) → decode 0 (encode ns) ≡ ns
decode-encode [] = refl
decode-encode (n ∷ ns) = ground (arith, decode-unary n 0 (encode ns), decode-encode ns)

abbrev is_empty : String → Bool
is_empty String.[] = true
is_empty (String.◌∷◌ c s) = false

is_empty-unary : (n : ℕ) (s : String) → is_empty (unary n s) ≡ false
is_empty-unary zero s = refl
is_empty-unary (suc n) s = refl

not_empty : (n : ℕ) (s : String) → str_eq (unary n s) "" ≡ false
not_empty n s = elim (Bool-cases (str_eq (unary n s) "")) [
  | inr differ ↦ differ
  | inl same ↦
      absurd (ground (arith, is_empty-unary n s, ap is_empty ((eq_iff (unary n s) "").0 same)))
]

abbrev read : Text → Result PostPaginationCursor
read (id ∷ time ∷ []) = ok (record { last_id = id; last_time = time })
read _ = err (other "unexpected end of JSON input")

abbrev codec : CursorCodec
codec = record {
  marshal = λ c. ok (c.last_id ∷ c.last_time ∷ []);
  unmarshal = read;
  encode_to_string = encode;
  decode_string = λ s. ok (decode 0 s);
  atoi = λ s. ok 10;
}

codec-IsCodec : IsCodec codec
codec-IsCodec = record {
  unmarshal-marshal = λ c bytes h. ground (arith, h);
  decode-encode = λ bytes. ap ok (decode-encode bytes);
  encoded_not_empty =
      λ c bytes h. ground (arith, h, not_empty c.last_id (encode (c.last_time ∷ [])));
}

abbrev cursor : PostPaginationCursor
cursor = record { last_id = 3; last_time = 2 }

abbrev next_request : Request
next_request = record {
  user_id = none;
  refresh_jti = none;
  param = λ name. "";
  query = λ name. if str_eq name "cursor" then some "xxxyxxy" else none;
  body = "";
}

get_cursor_and_limit-encode_cursor_example :
    get_cursor_and_limit codec next_request ≡ ok (some cursor, 10)
unfolding encode_cursor has_required
get_cursor_and_limit-encode_cursor_example =
    get_cursor_and_limit-encode_cursor codec codec-IsCodec (some cursor) "xxxyxxy" next_request 10
      refl refl refl refl

abbrev nobody : UserLoginInfo
nobody = record { login = ""; email = ""; password = "h" }

abbrev binding : Binding
binding = record {
  register_info = λ body. err (other "EOF");
  login_info = λ body. ok nobody;
  post_request = λ body. err (other "EOF");
}

login-cases_example :
    ((login uuid_text runtime user_repository token_repository binding next_request start_db
        ≡ (err (validation_errors missing_names), start_db))
      × IsNameless nobody)
    ⊎ (((str_eq nobody.login "" && str_eq nobody.email "") ≡ false)
        × (login uuid_text runtime user_repository token_repository binding next_request start_db
            ≡ (map_err process_auth_service_errors
                    (authenticate_user runtime user_repository nobody)
                  >>= λ user.
                      map_err process_auth_service_errors
                        (sign_jwt uuid_text runtime token_repository user.id)
                      >>= λ pair. pure (reply 200 (token_pair pair)))
                start_db))
login-cases_example =
    login-cases uuid_text runtime user_repository token_repository binding next_request start_db
      nobody refl
