-- ===== src/Error/Status.antt =====
-- Kinds and status codes, and what an explicit status renders to.
use tork_framework.Base.{ℕ, ◌≤◌, ◌<◌, ◌≡◌, ◌↔◌, ◌⊎◌, some, Text, arith}
use tork_framework.Error.{
  ErrorKind, bad_request, internal, unauthorized, forbidden, not_found, method_not_allowed,
  conflict, payload_too_large, unprocessable, too_many_requests, service_unavailable,
  gateway_timeout, status, from_status, StatusApi, http, response_status,
}

-- `from_status` finds a kind exactly at that kind's own status code.
pub from_status_iff : (n : ℕ) (k : ErrorKind) → (from_status n ≡ some k) ↔ (n ≡ status k)
unfolding from_status status
from_status_iff n bad_request = ground arith
from_status_iff n unauthorized = ground arith
from_status_iff n forbidden = ground arith
from_status_iff n not_found = ground arith
from_status_iff n method_not_allowed = ground arith
from_status_iff n conflict = ground arith
from_status_iff n payload_too_large = ground arith
from_status_iff n unprocessable = ground arith
from_status_iff n too_many_requests = ground arith
from_status_iff n internal = ground arith
from_status_iff n service_unavailable = ground arith
from_status_iff n gateway_timeout = ground arith

module _ (h : StatusApi) where
  -- An explicit status from 100 to 999 is the response's status.
  pub http_in_range : (n : ℕ) (m : Text) → 100 ≤ n → n < 1000 → response_status h (http h n m) ≡ n
  unfolding http
  http_in_range n m lo hi = ground (arith, h.from_u16_lem n)

  -- An explicit status below 100 or from 1000 on falls back to 500, with the kind for it.
  pub http_out_of_range :
      (n : ℕ) (m : Text)
      → (n < 100) ⊎ (1000 ≤ n)
      → (response_status h (http h n m) ≡ 500) × ((http h n m).kind ≡ internal)
  unfolding http from_status
  http_out_of_range n m out = ground (arith, h.from_u16_lem n)
