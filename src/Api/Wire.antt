-- ===== src/Api/Wire.antt =====
-- The cursor codec of api/src/models.py. base64, JSON and ISO timestamps are a parameter, with the
-- round trips that their documentation states.
use payments_data_platform.Base.{
  ℕ, String, ◌≡◌, Option, none, some, List, [], ◌∷◌, Result, ok, err, ◌>>=◌, str_eq, if◌then◌else◌,
}
use payments_data_platform.Api.Queries.{Scalar, null, num, text, other_json, Cursor}

-- A decoded JSON document: an object, or anything else.
pub data Document : Type 0 where
  object : List (String × Scalar) → Document
  other : Document

pub record Codec : Type 1 where
  pub Token : Type 0
  -- `base64.urlsafe_b64encode(json.dumps(...))`, and its inverse with every error as `none`
  pub dumps : Document → Token
  pub loads : Token → Option Document
  pub isoformat : ℕ → String
  pub fromisoformat : String → Option ℕ
  pub loads-dumps : (d : Document) → loads (dumps d) ≡ some d
  pub fromisoformat-isoformat : (t : ℕ) → fromisoformat (isoformat t) ≡ some t

-- The exceptions that `decode_cursor` catches, all of them mapped to `CursorError`.
pub data CursorError : Type 0 where
  malformed : CursorError

-- `payload[name]`, a KeyError where it is missing and a TypeError where it is no object
pub item : Document → String → Result CursorError Scalar
item other name = err malformed
item (object []) name = err malformed
item (object ((k, v) ∷ fs)) name = if str_eq k name then ok v else item (object fs) name

module _ (c : Codec) where
  open c use {Token, dumps, loads, isoformat, fromisoformat, loads-dumps, fromisoformat-isoformat}

  pub encode_cursor : Cursor → Token
  encode_cursor cursor = dumps (
      object (
        ("h", text (isoformat cursor.payment_hour))
        ∷ ("c", cursor.country_code)
        ∷ ("m", cursor.payment_method)
        ∷ []))

  abbrev document : Option Document → Result CursorError Document
  document none = err malformed
  document (some d) = ok d

  abbrev hour : Option ℕ → Result CursorError ℕ
  hour none = err malformed
  hour (some t) = ok t

  -- A TypeError for what is no text, a ValueError for a text that is no timestamp.
  parse_hour : Scalar → Result CursorError ℕ
  parse_hour (text s) = hour (fromisoformat s)
  parse_hour null = err malformed
  parse_hour (num n) = err malformed
  parse_hour (other_json s) = err malformed

  pub decode_cursor : Token → Result CursorError Cursor
  unfolding item parse_hour
  decode_cursor token = do
    payload ← document (loads token)
    h ← item payload "h"
    t ← parse_hour h
    country ← item payload "c"
    method ← item payload "m"
    ok (record { payment_hour = t; country_code = country; payment_method = method })

  -- Every cursor is read back from its token.
  pub decode-encode : (cursor : Cursor) → decode_cursor (encode_cursor cursor) ≡ ok cursor
  unfolding decode_cursor encode_cursor
  decode-encode cursor = simp (loads-dumps, fromisoformat-isoformat)
