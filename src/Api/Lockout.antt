-- ===== src/Api/Lockout.antt =====
-- checkAuthLockout of internal/api/settings.go, over the settings and requests of internal/auth.
-- The prefixes of the network library, the token store and the discovery of an issuer are
-- parameters.
use speedtest_tracker.Base.{
  ℕ, zero, suc, String, Bool, true, false, not, ◌&&◌, ◌||◌, Option, none, some, List, [], ◌∷◌,
  str_eq, if◌then◌else◌, any,
}
use speedtest_tracker.Auth.Credentials.{Request, bearer_token}
use speedtest_tracker.Auth.Identify.{
  Mode, auth_mode_open, auth_mode_forward, auth_mode_token, auth_mode_oidc, other_mode,
  AuthSettings, Lookup, fault, missing, found,
}

-- The fields of settings.Auth that only this mode reads.
pub record OidcFields : Type 0 where
  pub issuer : String
  pub client_id : String
  pub client_secret : String

-- The identity that the request has under the current settings.
pub record Requester : Type 0 where
  pub is_admin : Bool
  pub is_token : Bool

pub data LockoutError : Type 0 where
  no_proxies no_address untrusted no_user_header : LockoutError
  count_failed no_tokens no_bearer verify_failed : LockoutError
  oidc_incomplete not_admin token_request no_discovery : LockoutError

unfoldable pub same_mode : Mode → Mode → Bool
same_mode auth_mode_open auth_mode_open = true
same_mode auth_mode_forward auth_mode_forward = true
same_mode auth_mode_token auth_mode_token = true
same_mode auth_mode_oidc auth_mode_oidc = true
same_mode (other_mode a) (other_mode b) = str_eq a b
same_mode a b = false

-- slices.Equal
unfoldable pub same_texts : List String → List String → Bool
same_texts [] [] = true
same_texts (a ∷ as_) (b ∷ bs) = str_eq a b && same_texts as_ bs
same_texts as_ bs = false

abbrev pub user_header_of : AuthSettings → String
user_header_of a = if str_eq a.user_header "" then "Remote-User" else a.user_header

-- A request that switches to the mode of tokens.
unfoldable pub check_token {κ} :
    {Peer : Type κ} → (String → Lookup ℕ) → Request Peer → Option LockoutError
check_token lookup_token r = elim (bearer_token r) [
  | none ↦ some no_bearer
  | some plain ↦ elim (lookup_token plain) [
    | fault ↦ some verify_failed
    | missing ↦ some no_bearer
    | found id ↦ none
  ]
]

unfoldable pub is_narrowed : AuthSettings → AuthSettings → Bool
unfolding same_texts
is_narrowed current resulting =
    not (same_texts resulting.trusted_proxies current.trusted_proxies)
    || not (str_eq resulting.user_header current.user_header)

module _ {ℓ κ} {Prefix : Type ℓ} {Peer : Type κ} where
  -- The loop over the proxies, which passes over what does not parse.
  unfoldable pub is_proxy :
      (String → Option Prefix) → (Prefix → Peer → Bool) → List String → Peer → Bool
  is_proxy parse_prefix contains raws peer =
      any (λ raw. elim (parse_prefix raw) [ none ↦ false | some p ↦ contains p peer ]) raws

  -- A request that switches to the mode of the proxies or narrows them.
  unfoldable pub check_forward :
      (String → Option Prefix)
      → (Prefix → Peer → Bool)
      → Request Peer
      → AuthSettings
      → Option LockoutError
  unfolding is_proxy
  check_forward parse_prefix contains r resulting = elim r.peer [
    | none ↦ some no_address
    | some peer ↦
        if not (is_proxy parse_prefix contains resulting.trusted_proxies peer)
        then some untrusted
        else if str_eq (r.header (user_header_of resulting)) ""
        then some no_user_header
        else none
  ]

  unfoldable pub check_auth_lockout :
      (String → Option Prefix)
      → (Prefix → Peer → Bool)
      → Option ℕ
      → (String → Lookup ℕ)
      → (String → Bool)
      → Requester
      → OidcFields
      → Request Peer
      → AuthSettings
      → AuthSettings
      → Option LockoutError
  unfolding check_forward check_token same_mode is_narrowed
  check_auth_lockout parse_prefix contains tokens lookup_token discovers who oidc r current
        resulting =
      elim resulting.mode [
        | auth_mode_open ↦ none
        | auth_mode_forward ↦ elim resulting.trusted_proxies [
          | [] ↦ some no_proxies
          | raw ∷ raws ↦
              if same_mode auth_mode_forward current.mode && not (is_narrowed current resulting)
              then none
              else check_forward parse_prefix contains r resulting
        ]
        | auth_mode_token ↦ elim tokens [
          | none ↦ some count_failed
          | some zero ↦ some no_tokens
          | some (suc n) ↦
              if same_mode auth_mode_token current.mode then none else check_token lookup_token r
        ]
        | auth_mode_oidc ↦
            if str_eq oidc.issuer "" || (str_eq oidc.client_id "" || str_eq oidc.client_secret "")
            then some oidc_incomplete
            else if same_mode auth_mode_oidc current.mode
            then none
            else if not who.is_admin
            then some not_admin
            else if who.is_token
            then some token_request
            else if discovers oidc.issuer
            then none
            else some no_discovery
        | other_mode m ↦ none
      ]
