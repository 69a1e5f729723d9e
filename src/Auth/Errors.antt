-- ===== src/Auth/Errors.antt =====
-- The error values of internal/auth (auth.go and service.go), and those of the calls that make a key.
pub data AuthError : Type 0 where
  invalid_credential expired revoked version_mismatch scope_denied header_conflict : AuthError
  query_credential cache_unavailable last_admin_token rate_limited : AuthError
  model_denied not_found already_bootstrapped : AuthError
  no_key_id no_public_id no_secret : AuthError
