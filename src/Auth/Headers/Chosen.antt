-- ===== src/Auth/Headers/Chosen.antt =====
-- What `ParseHeaders` of internal/auth/auth.go has established when it returns a credential.
use urbino.Base.{
  ℕ, suc, ◌+◌, ◌≤◌, ◌≡◌, ◌≢◌, refl, inl, inr, ◌⊎◌, true, false, List, [], ◌∷◌, ◌++◌, arith, length,
  length-append, if◌then◌else◌, Bool-cases,
}
use urbino.Base.Text.{All, Text, codes, is_empty, has_prefix, text_eq, text_eq_iff}
use urbino.Base.Space.{to_lower, trim_space}
use urbino.Base.Result.{◌>>=◌, ok, >>=-ok}
use urbino.Auth.Credential.{public_prefix, admin_prefix}
use urbino.Auth.Headers.{
  ListenerMode, public_listener, admin_listener, gateway_credential, admin_credential,
  HeaderCredential, Values, fields, header_values, has_query_credential, is_credential_key, bearer,
  authorization_candidate, key_candidate, choose, parse_headers,
}

-- The values of a header that are more than white space.
abbrev pub non_blank : List Text → ℕ
non_blank [] = 0
non_blank (v ∷ vs) = if is_empty (trim_space v) then non_blank vs else suc (non_blank vs)

bearer-length : (ws : List Text) (cs : List HeaderCredential) → bearer ws ≡ ok cs → length cs ≡ 1
bearer-length [] cs h = cc
bearer-length (a ∷ []) cs h = cc
bearer-length (a ∷ b ∷ []) cs h = ground arith
bearer-length (a ∷ b ∷ c ∷ ws) cs h = cc

authorization-length :
    (vs : List Text) (cs : List HeaderCredential)
    → authorization_candidate vs ≡ ok cs
    → (length cs ≡ non_blank vs) × (length vs ≤ 1)
unfolding authorization_candidate
authorization-length [] cs h = ground arith
authorization-length (v ∷ []) cs h = ground (arith, bearer-length (fields (trim_space v)) cs)
authorization-length (v ∷ w ∷ vs) cs h = cc

key-length :
    (vs : List Text) (cs : List HeaderCredential)
    → key_candidate vs ≡ ok cs
    → (length cs ≡ non_blank vs) × (length vs ≤ 1)
unfolding key_candidate
key-length [] cs h = ground arith
key-length (v ∷ []) cs h = ground arith
key-length (v ∷ w ∷ vs) cs h = cc

-- The credential behind its kind's prefix.
abbrev pub IsPrefixed : HeaderCredential → Type 0
IsPrefixed c =
    (c.kind ≡ gateway_credential) × (has_prefix c.value public_prefix ≡ true)
    ⊎ (c.kind ≡ admin_credential) × (has_prefix c.value admin_prefix ≡ true)

choose-ok :
    (mode : ListenerMode) (cs : List HeaderCredential) (c : HeaderCredential)
    → choose mode cs ≡ ok c
    → (length cs ≡ 1)
      × IsPrefixed c
      × (mode ≡ public_listener → c.kind ≡ gateway_credential)
      × (mode ≡ admin_listener → c.kind ≡ admin_credential)
unfolding choose
choose-ok mode [] c h = cc
choose-ok mode (d ∷ []) c h = (refl, ground arith, λ m. ground arith, λ m. ground arith)
choose-ok mode (d ∷ e ∷ cs) c h = cc

-- The names under which a client might send a credential in the query.
abbrev pub credential_names : List Text
credential_names =
    codes "key"
    ∷ codes "api_key"
    ∷ codes "apikey"
    ∷ codes "api-key"
    ∷ codes "token"
    ∷ codes "access_token"
    ∷ codes "x-api-key"
    ∷ codes "x-goog-api-key"
    ∷ []

-- A parameter with another name, whatever its case and the white space around it.
abbrev pub IsNeutral : Text × List Text → Type 0
IsNeutral (name, values) = All (λ n. to_lower (trim_space name) ≢ n) credential_names

neutral_name : (k : Text) → is_credential_key k ≡ false → All (λ n. k ≢ n) credential_names
neutral_name k h = (
  apart (codes "key") (ground (arith, h)),
  (
    apart (codes "api_key") (ground (arith, h)),
    (
      apart (codes "apikey") (ground (arith, h)),
      (
        apart (codes "api-key") (ground (arith, h)),
        (
          apart (codes "token") (ground (arith, h)),
          (
            apart (codes "access_token") (ground (arith, h)),
            (
              apart (codes "x-api-key") (ground (arith, h)),
              (apart (codes "x-goog-api-key") (ground (arith, h)), tt),
            ),
          ),
        ),
      ),
    ),
  ),
)
  where
    apart : (n : Text) → text_eq k n ≡ false → k ≢ n
    apart n f e = let t = text_eq_iff k n in cc (t.1 e)

query-IsNeutral : (query : Values) → has_query_credential query ≡ false → All IsNeutral query
unfolding has_query_credential
query-IsNeutral [] h = tt
query-IsNeutral ((name, values) ∷ query) h = (
  neutral_name (to_lower (trim_space name)) (ground (arith, h)),
  query-IsNeutral query (ground (arith, h)),
)

pub record IsChosen (headers query : Values) (mode : ListenerMode) (c : HeaderCredential)
    : Type 0 where
  pub no_query : All IsNeutral query
  pub prefixed : IsPrefixed c
  pub public_only : mode ≡ public_listener → c.kind ≡ gateway_credential
  pub admin_only : mode ≡ admin_listener → c.kind ≡ admin_credential
  pub single :
      non_blank (header_values headers (codes "Authorization"))
        + non_blank (header_values headers (codes "X-API-Key"))
        + non_blank (header_values headers (codes "X-Goog-Api-Key"))
      ≡ 1

chain_ok :
    (headers query : Values) (mode : ListenerMode) (c : HeaderCredential)
    → parse_headers headers query mode ≡ ok c
    → (has_query_credential query ≡ false)
      × ((authorization_candidate (header_values headers (codes "Authorization")) >>= λ a.
            key_candidate (header_values headers (codes "X-API-Key")) >>= λ b.
            key_candidate (header_values headers (codes "X-Goog-Api-Key")) >>= λ d.
            choose mode (a ++ (b ++ d)))
          ≡ ok c)
unfolding parse_headers
chain_ok headers query mode c h = elim (Bool-cases (has_query_credential query)) [
  | inl q ↦ absurd (cc (rw (q, parse_headers) at h))
  | inr q ↦ (q, rw (q, parse_headers) at h)
]

-- A credential is returned only if no query parameter has, in lower case and without the white space
-- around it, one of the eight names of a credential, exactly one value of the three headers is more than
-- white space, and the credential begins with the prefix of its kind. On the
-- public listener it is a gateway credential, on the management listener an administrator's.
pub parse_headers_sound :
    (headers query : Values) (mode : ListenerMode) (c : HeaderCredential)
    → parse_headers headers query mode ≡ ok c
    → IsChosen headers query mode c
parse_headers_sound headers query mode c h =
    let (q, chain) = chain_ok headers query mode c h in
    let (a, ea, ra) =
      >>=-ok (authorization_candidate (header_values headers (codes "Authorization"))) _ chain in
    let (b, eb, rb) = >>=-ok (key_candidate (header_values headers (codes "X-API-Key"))) _ ra in
    let (d, ed, rd) =
      >>=-ok (key_candidate (header_values headers (codes "X-Goog-Api-Key"))) _ rb in
    let (one, prefixed, public_only, admin_only) = choose-ok mode (a ++ (b ++ d)) c rd in
    record {
      no_query = query-IsNeutral query q;
      prefixed = prefixed;
      public_only = public_only;
      admin_only = admin_only;
      single = omega (
        arith,
        one,
        authorization-length _ a ea,
        key-length _ b eb,
        key-length _ d ed,
        length-append {A = HeaderCredential} a (b ++ d),
        length-append {A = HeaderCredential} b d,
      );
    }
