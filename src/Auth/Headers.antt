-- ===== src/Auth/Headers.antt =====
-- `ParseHeaders` of internal/auth/auth.go: the one credential that a request's headers carry. Headers
-- and query values are association lists; `range` visits a map in any order.
pub mod Chosen
pub mod Order
use urbino.Base.{
  ℕ, zero, suc, ◌+◌, ◌≡◌, Bool, true, false, ◌&&◌, ◌||◌, not, List, [], ◌∷◌, ◌++◌, leb, ◌==◌,
  if◌then◌else◌,
}
use urbino.Base.Text.{Text, codes, text_eq, is_empty, has_prefix, cons_first}
use urbino.Base.Space.{space_width, trim_space, to_lower}
use urbino.Base.Result.{Result, ok, err, ◌>>=◌}
use urbino.Auth.Errors.{AuthError, invalid_credential, header_conflict, query_credential}
use urbino.Auth.Credential.{public_prefix, admin_prefix}

pub data ListenerMode : Type 0 where
  public_listener admin_listener : ListenerMode
  other : ℕ → ListenerMode

pub data CredentialKind : Type 0 where
  gateway_credential admin_credential : CredentialKind

pub record HeaderCredential : Type 0 where
  pub kind : CredentialKind
  pub value : Text

-- `http.Header` and `url.Values`.
abbrev pub Values : Type 0
Values = List (Text × List Text)

-- Text for `strings.EqualFold` against ASCII text: U+017F folds to s and U+212A to k, and no other
-- character outside ASCII folds into it.
unfoldable pub fold_case : Text → Text
fold_case [] = []
fold_case (c ∷ []) = (if leb b'A' c && leb c b'Z' then c + 32 else c) ∷ []
fold_case (c ∷ d ∷ []) =
    let one = fold_case (d ∷ []) in
    if c == 0xc5 && d == 0xbf
    then b's' ∷ []
    else (if leb b'A' c && leb c b'Z' then c + 32 else c) ∷ one
fold_case (c ∷ d ∷ e ∷ s) =
    let one = fold_case (d ∷ e ∷ s) in
    let two = fold_case (e ∷ s) in
    let three = fold_case s in
    if c == 0xc5 && d == 0xbf
    then b's' ∷ two
    else if c == 0xe2 && d == 0x84 && e == 0xaa
    then b'k' ∷ three
    else (if leb b'A' c && leb c b'Z' then c + 32 else c) ∷ one

unfoldable pub equal_fold : Text → Text → Bool
unfolding fold_case
equal_fold s t = text_eq (fold_case s) (fold_case t)

-- `strings.Fields`: the pieces between white space that are not empty.
pieces : ℕ → Text → List Text
pieces k [] = [] ∷ []
pieces (suc k) (c ∷ s) = pieces k s
pieces zero (c ∷ s) = elim (space_width c s) [
  | zero ↦ cons_first c (pieces zero s)
  | suc k ↦ [] ∷ pieces k s
]

not_empty : List Text → List Text
not_empty [] = []
not_empty (s ∷ ss) = let rest = not_empty ss in if is_empty s then rest else s ∷ rest

unfoldable pub fields : Text → List Text
unfolding pieces not_empty
fields s = not_empty (pieces 0 s)

unfoldable pub header_values : Values → Text → List Text
header_values [] name = []
header_values ((key, values) ∷ headers) name =
    let rest = header_values headers name in if equal_fold key name then values ++ rest else rest

abbrev pub is_credential_key : Text → Bool
is_credential_key k =
    text_eq k (codes "key")
    || text_eq k (codes "api_key")
    || text_eq k (codes "apikey")
    || text_eq k (codes "api-key")
    || text_eq k (codes "token")
    || text_eq k (codes "access_token")
    || text_eq k (codes "x-api-key")
    || text_eq k (codes "x-goog-api-key")

unfoldable pub has_query_credential : Values → Bool
has_query_credential [] = false
has_query_credential ((key, values) ∷ query) =
    is_credential_key (to_lower (trim_space key)) || has_query_credential query

-- The candidate of the header Authorization.
abbrev pub bearer : List Text → Result AuthError (List HeaderCredential)
bearer (scheme ∷ token ∷ []) =
    if not (equal_fold scheme (codes "bearer")) || is_empty token
    then err invalid_credential
    else ok (
        record {
          kind = if has_prefix token admin_prefix then admin_credential else gateway_credential;
          value = token;
        }
        ∷ [])
bearer _ = err invalid_credential

unfoldable pub authorization_candidate : List Text → Result AuthError (List HeaderCredential)
authorization_candidate [] = ok []
authorization_candidate (v ∷ []) =
    if is_empty (trim_space v) then ok [] else bearer (fields (trim_space v))
authorization_candidate (_ ∷ _ ∷ _) = err header_conflict

-- The candidate of a header that holds a key alone.
unfoldable pub key_candidate : List Text → Result AuthError (List HeaderCredential)
key_candidate [] = ok []
key_candidate (v ∷ []) =
    if is_empty (trim_space v)
    then ok []
    else ok (record { kind = gateway_credential; value = trim_space v } ∷ [])
key_candidate (_ ∷ _ ∷ _) = err header_conflict

abbrev is_gateway : CredentialKind → Bool
is_gateway gateway_credential = true
is_gateway admin_credential = false

abbrev refuses : ListenerMode → CredentialKind → Bool
refuses public_listener kind = not (is_gateway kind)
refuses admin_listener kind = is_gateway kind
refuses (other m) kind = false

-- The checks on the one candidate.
unfoldable pub choose : ListenerMode → List HeaderCredential → Result AuthError HeaderCredential
choose mode (c ∷ []) =
    if refuses mode c.kind
    then err invalid_credential
    else if is_gateway c.kind && not (has_prefix c.value public_prefix)
    then err invalid_credential
    else if not (is_gateway c.kind) && not (has_prefix c.value admin_prefix)
    then err invalid_credential
    else ok c
choose mode _ = err header_conflict

unfoldable pub parse_headers : Values → Values → ListenerMode → Result AuthError HeaderCredential
parse_headers headers query mode = if has_query_credential query then err query_credential else (do
  a ← authorization_candidate (header_values headers (codes "Authorization"))
  b ← key_candidate (header_values headers (codes "X-API-Key"))
  c ← key_candidate (header_values headers (codes "X-Goog-Api-Key"))
  choose mode (a ++ (b ++ c)))
