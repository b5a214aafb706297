-- ===== src/Server/Response.antt =====
-- internal/server/error.go: what is written to an http.ResponseWriter for an error. The messages
-- of errors and the static images are parameters. A header is a map of lists, as http.Header is.
pub mod Errors
pub mod Tests
use tilegroxy.Base.{
  ℕ, Bool, List, [], ◌∷◌, ◌++◌, Option, none, some, if◌then◌else◌, ◌||◌, Text, codes, lookup,
  insert,
}
use tilegroxy.Errors.{Error, TypeOfError, other, type_of, error_vars, is_canceled, says_canceled}

abbrev pub Header : Type 0
Header = List (Text × List Text)

-- Header.Set
unfoldable pub set_header : Text → Text → Header → Header
set_header k v h = insert k (v ∷ []) h

-- Header.Add
unfoldable pub add_header : Text → Text → Header → Header
add_header k v h = elim (lookup k h) [
  | none ↦ insert k (v ∷ []) h
  | some vs ↦ insert k (vs ++ (v ∷ [])) h
]

-- Header.Get
unfoldable pub get_header : Text → Header → Text
get_header k h = elim (lookup k h) [ some (v ∷ vs) ↦ v | _ ↦ [] ]

pub record Response : Type 0 where
  pub status : ℕ
  pub header : Header
  pub body : Text

pub data ErrorMode : Type 0 where
  plain_text image image_header none_mode : ErrorMode

-- config.ErrorConfig, with the message of an error and the image of a type of error
pub record ErrorConfig : Type 0 where
  pub mode : ErrorMode
  pub always_ok : Bool
  pub external : Error → Text
  pub static_image : TypeOfError → Option Text

image_error : Option Text → ℕ → Header → Response
unfolding set_header
image_error none status h = record { status = status; header = h; body = [] }
image_error (some img) status h = record {
  status = status;
  header = set_header (codes "Content-Type") (codes "image/png") h;
  body = img;
}

-- The switch on the mode.
write_mode : ErrorMode → Option Text → Text → ℕ → Header → Response
unfolding image_error set_header add_header
write_mode plain_text img message status h = record {
  status = status;
  header = set_header (codes "Content-Type") (codes "text/plain; charset=utf-8") h;
  body = message;
}
write_mode image img message status h = image_error img status h
write_mode image_header img message status h =
    image_error img status (add_header (codes "X-Error-Message") message h)
write_mode none_mode img message status h = record { status = status; header = h; body = [] }

unfoldable pub write_error_message : ErrorConfig → TypeOfError → Text → Header → Response
unfolding write_mode set_header
write_error_message c t message h =
    write_mode c.mode (c.static_image t) message (error_vars c.always_ok t).0
      (set_header (codes "Cache-Control") (codes "no-store") h)

unfoldable pub write_error : ErrorConfig → Error → Header → Response
unfolding write_error_message
write_error c e h = elim (type_of e) [
  | some t ↦ write_error_message c t (c.external e) h
  | none ↦
      if is_canceled e || says_canceled e
      then record { status = 499; header = h; body = [] }
      else write_error_message c other (c.external e) h
]
