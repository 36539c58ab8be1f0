-- ===== src/Middleware/Http.antt =====
-- Requests and responses as the middlewares see them. The crate `http` is the parameter `Http`: a
-- map of headers with one value for each name, and the two conversions of a value. A body is the
-- script of its frames.
use tork_framework.Base.{ℕ, ◌≡◌, ◌≢◌, Option, none, some, List, Text}
use tork_framework.Error.{Error, Result}

pub record Http : Type 1 where
  pub Headers : Type 0
  pub empty : Headers
  pub get : Text → Headers → Option Text
  pub insert : Text → Text → Headers → Headers
  -- `HeaderValue::to_str` and `HeaderValue::from_str`.
  pub to_str : Text → Option Text
  pub from_str : Text → Option Text
  pub get-insert_self : (n v : Text) (h : Headers) → get n (insert n v h) ≡ some v
  pub get-insert_ne : (n v k : Text) (h : Headers) → n ≢ k → get k (insert n v h) ≡ get k h
  pub get-empty : (n : Text) → get n empty ≡ none

-- A frame: data, trailers, or a failure with the error that the body carried, if it did.
pub data Frame : Type 0 where
  chunk : Text → Frame
  trailers : Frame
  failure : Option Error → Frame

pub data RequestScheme : Type 0 where
  http_scheme https_scheme : RequestScheme

module _ (h : Http) where
  -- The fields that the middlewares read; `peer` and `scheme` are extensions of the request.
  pub record Request : Type 0 where
    pub method : Text
    pub uri_scheme : Option Text
    pub path_and_query : Option Text
    pub headers : h.Headers
    pub peer : Option Text
    pub scheme : Option RequestScheme
    pub frames : List Frame

  pub record Response : Type 0 where
    pub status : ℕ
    pub headers : h.Headers
    pub content : Text

  -- What stands behind a middleware, over a state `S` that the handlers share.
  abbrev pub Handler : Type 0 → Type 0
  Handler S = Request → S → S × Result Response
