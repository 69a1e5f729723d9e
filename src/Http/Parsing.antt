-- ===== src/Http/Parsing.antt =====
-- internal/httpapi/admin.go: `parseLimit`, `parseIfMatchVersion`, `keyScopes`, `keyModels` and
-- `scopeFromQuery`.
use urbino.Base.{
  ℕ, ◌||◌, ◌==◌, List, [], ◌∷◌, Option, none, some, ltb, if◌then◌else◌, length, reverse,
}
use urbino.Base.Text.{Text, codes, text_eq, is_empty, trim_prefix}
use urbino.Base.Space.{trim_space}
use urbino.Base.Decimal.{parse_uint}
use urbino.Base.Result.{Result, ok, err, ◌>>=◌}
use urbino.Domain.Uuid.{Uuid, parse_uuid}
use urbino.Auth.Headers.{Values}
use urbino.Auth.Keys.{is_nil, is_public_scope}

-- The errors, by their texts.
pub data ParseError : Type 0 where
  limit_out_of_range if_match_required if_match_invalid : ParseError
  no_scopes bad_scope no_models bad_model : ParseError

abbrev first_of : List Text → Text
first_of [] = []
first_of (v ∷ vs) = v

-- `Get` of `url.Values`, and of `http.Header` for a canonical name.
unfoldable pub value_of : Text → Values → Text
value_of name [] = []
value_of name ((key, values) ∷ rest) =
    if text_eq key name then first_of values else value_of name rest

-- `strconv.Atoi` as far as a number from 1 to 100 is concerned: a sign may stand before it.
abbrev pub unsigned : Text → Text
unsigned [] = []
unsigned (c ∷ s) = if c == b'+' then s else c ∷ s

abbrev pub limit_of : Option ℕ → Result ParseError ℕ
limit_of none = err limit_out_of_range
limit_of (some n) = if (n == 0) || ltb 100 n then err limit_out_of_range else ok n

unfoldable pub parse_limit : Values → Result ParseError ℕ
parse_limit query =
    let raw = trim_space (value_of (codes "limit") query) in
    if is_empty raw then ok 50 else limit_of (parse_uint 63 (unsigned raw))

-- `strings.Trim(s, "\"")`.
unfoldable pub drop_quotes : Text → Text
drop_quotes [] = []
drop_quotes (c ∷ s) = if c == b'"' then drop_quotes s else c ∷ s

unfoldable pub trim_quotes : Text → Text
trim_quotes s = reverse (drop_quotes (reverse (drop_quotes s)))

abbrev pub version_of : Option ℕ → Result ParseError ℕ
version_of none = err if_match_invalid
version_of (some n) = if n == 0 then err if_match_invalid else ok n

unfoldable pub parse_if_match_version : Text → Result ParseError ℕ
parse_if_match_version value =
    let trimmed = trim_space value in
    if is_empty trimmed
    then err if_match_required
    else version_of (parse_uint 64 (trim_quotes (trim_prefix trimmed (codes "W/"))))

-- The loops stop at the first value that is refused.
unfoldable pub accepted_scopes : List Text → Result ParseError (List Text)
accepted_scopes [] = ok []
accepted_scopes (v ∷ vs) =
    let rest = accepted_scopes vs in
    if is_public_scope v then (rest >>= λ scopes. ok (v ∷ scopes)) else err bad_scope

unfoldable pub key_scopes : List Text → Result ParseError (List Text)
key_scopes values = if is_nil values then err no_scopes else accepted_scopes values

unfoldable pub accepted_models : List Text → Result ParseError (List Text)
accepted_models [] = ok []
accepted_models (v ∷ vs) =
    let rest = accepted_models vs in
    let model = trim_space v in
    if is_empty model || ltb 200 (length model)
    then err bad_model
    else rest >>= λ models. ok (model ∷ models)

unfoldable pub key_models : List Text → Result ParseError (List Text)
key_models values = if is_nil values then err no_models else accepted_models values

unfoldable pub scope_from_query : Values → Option (Uuid × Uuid)
scope_from_query query = elim (parse_uuid (trim_space (value_of (codes "tenant_id") query))) [
  | err e ↦ none
  | ok tenant ↦ elim (parse_uuid (trim_space (value_of (codes "project_id") query))) [
    | err e ↦ none
    | ok project ↦ some (tenant, project)
  ]
]
