-- ===== src/Auth/Identify.antt =====
-- Configure, Identify and what it calls in internal/auth/auth.go. The network library's prefixes,
-- the token hash, and the stores of tokens and sessions are parameters.
pub mod Evidence
pub mod Configured
use Prim.Native.String.{len, slice, ◌++◌}
use speedtest_tracker.Base.{
  ℕ, suc, ◌+◌, String, ◌≡◌, Bool, true, false, not, ◌&&◌, ◌||◌, Option, none, some, List, [], ◌∷◌,
  str_eq, ltb, leb, ◌==◌, if◌then◌else◌, any, length, select, map, update,
}
use speedtest_tracker.Auth.Credentials.{Request, bearer_token, credential_token, trim_space, split}

-- settings.Auth.Mode.
pub data Mode : Type 0 where
  auth_mode_open auth_mode_forward auth_mode_token auth_mode_oidc : Mode
  other_mode : String → Mode

pub data Source : Type 0 where
  source_open source_forward source_token source_oidc : Source

-- settings.Auth
pub record AuthSettings : Type 0 where
  pub mode : Mode
  pub user_header : String
  pub groups_header : String
  pub groups_separator : String
  pub admin_group : String
  pub trusted_proxies : List String
  pub allow_tokens : Bool

pub record Config {ℓ} (Prefix : Type ℓ) : Type ℓ where
  pub mode : Mode
  pub user_header : String
  pub groups_header : String
  pub groups_sep : String
  pub admin_group : String
  pub trusted : List Prefix
  pub allow_tokens : Bool

pub record Identity : Type 0 where
  pub mode : Mode
  pub user : String
  pub email : String
  pub name : String
  pub username : String
  pub groups : List String
  pub is_admin : Bool
  pub token_id : Option ℕ
  pub source : Source

pub record SessionInfo : Type 0 where
  pub subject : String
  pub email : String
  pub name : String
  pub username : String
  pub groups : List String
  pub is_admin : Bool

-- What a store answers to a lookup.
pub data Lookup {ℓ} (A : Type ℓ) : Type ℓ where
  fault missing : Lookup A
  found : A → Lookup A

pub data Answer : Type 0 where
  identified : Identity → Answer
  unauthorized token_lookup_failed session_lookup_failed : Answer

module _ {ℓ} {Prefix : Type ℓ} where
  unfoldable pub parse_all : (String → Option Prefix) → List String → Option (List Prefix)
  parse_all parse_prefix [] = some []
  parse_all parse_prefix (raw ∷ raws) = elim (parse_prefix raw) [
    | none ↦ none
    | some p ↦ elim (parse_all parse_prefix raws) [ none ↦ none | some ps ↦ some (p ∷ ps) ]
  ]

  -- Configure: the new configuration and whether it succeeded.
  unfoldable pub configure :
      (String → Option Prefix) → AuthSettings → Config Prefix → Config Prefix × Bool
  unfolding parse_all
  configure parse_prefix a cfg = elim (parse_all parse_prefix a.trusted_proxies) [
    | none ↦ (cfg, false)
    | some ps ↦ (
      record {
        mode = a.mode;
        user_header = a.user_header;
        groups_header = a.groups_header;
        groups_sep = a.groups_separator;
        admin_group = a.admin_group;
        trusted = ps;
        allow_tokens = a.allow_tokens;
      },
      true,
    )
  ]

-- The first 12 bytes of a token; a token is ASCII.
abbrev label : String → String
label plain = if ltb 12 (len plain) then slice plain 0 12 else plain

abbrev pub open_identity : Identity
open_identity = record {
  mode = auth_mode_open;
  user = "";
  email = "";
  name = "";
  username = "";
  groups = [];
  is_admin = true;
  token_id = none;
  source = source_open;
}

-- identifyToken, for what the store answers to the hash.
unfoldable pub identify_token : Mode → String → Lookup ℕ → Answer
identify_token mode plain fault = token_lookup_failed
identify_token mode plain missing = unauthorized
identify_token mode plain (found id) = identified (record {
  mode = mode;
  user = "token:" ++ label plain;
  email = "";
  name = "";
  username = "";
  groups = [];
  is_admin = true;
  token_id = some id;
  source = source_token;
})

-- identifySession, for what the session store answers; without one it is `missing`.
unfoldable pub identify_session : Lookup SessionInfo → Answer
identify_session fault = session_lookup_failed
identify_session missing = unauthorized
identify_session (found info) = identified (record {
  mode = auth_mode_oidc;
  user = if str_eq info.email "" then info.subject else info.email;
  email = info.email;
  name = info.name;
  username = info.username;
  groups = info.groups;
  is_admin = info.is_admin;
  token_id = none;
  source = source_oidc;
})

abbrev pub by_token : Mode → (String → Lookup ℕ) → Option String → Answer
by_token mode lookup_token none = unauthorized
by_token mode lookup_token (some plain) = identify_token mode plain (lookup_token plain)

abbrev pub allowed : Bool → Option String → Option String
allowed true token = token
allowed false token = none

-- A missing, unknown or expired session falls through to the bearer token.
after_session : Answer → Answer → Answer
after_session unauthorized rest = rest
after_session answer rest = answer

module _ {ℓ κ} {Prefix : Type ℓ} {Peer : Type κ} where
  -- The groups that the proxy names.
  unfoldable pub forward_groups : Config Prefix → Request Peer → List String
  forward_groups cfg r =
      if str_eq cfg.groups_header ""
      then []
      else let raw = r.header cfg.groups_header in
        if str_eq raw ""
        then []
        else let sep = if str_eq cfg.groups_sep "" then "," else cfg.groups_sep in
          select (λ g. not (str_eq g "")) (map trim_space (split raw sep))

  unfoldable pub is_trusted : (Prefix → Peer → Bool) → List Prefix → Option Peer → Bool
  is_trusted contains trusted none = false
  is_trusted contains trusted (some peer) = any (λ p. contains p peer) trusted

  -- identifyForward. With no trusted proxies no peer is trusted.
  unfoldable pub identify_forward : (Prefix → Peer → Bool) → Config Prefix → Request Peer → Answer
  unfolding is_trusted forward_groups
  identify_forward contains cfg r =
      if not (is_trusted contains cfg.trusted r.peer)
      then unauthorized
      else let user = r.header cfg.user_header in
        if str_eq user ""
        then unauthorized
        else let groups = forward_groups cfg r in
          identified (record {
            mode = auth_mode_forward;
            user = user;
            email = "";
            name = "";
            username = "";
            groups = groups;
            is_admin = str_eq cfg.admin_group "" || any (λ g. str_eq g cfg.admin_group) groups;
            token_id = none;
            source = source_forward;
          })

  -- A bearer token that the configuration allows goes before the headers of the proxy.
  unfoldable pub forward_bearer :
      (Prefix → Peer → Bool)
      → (String → Lookup ℕ)
      → Config Prefix
      → Request Peer
      → Option String
      → Answer
  unfolding identify_forward identify_token
  forward_bearer contains lookup_token cfg r none = identify_forward contains cfg r
  forward_bearer contains lookup_token cfg r (some plain) =
      identify_token auth_mode_forward plain (lookup_token plain)

  unfoldable pub identify_in :
      Mode
      → (Prefix → Peer → Bool)
      → (String → Lookup ℕ)
      → (String → Lookup SessionInfo)
      → Config Prefix
      → Request Peer
      → Answer
  unfolding identify_forward identify_token identify_session after_session forward_bearer
  identify_in auth_mode_open contains lookup_token lookup_session cfg r = identified open_identity
  identify_in auth_mode_forward contains lookup_token lookup_session cfg r =
      forward_bearer contains lookup_token cfg r (allowed cfg.allow_tokens (bearer_token r))
  identify_in auth_mode_token contains lookup_token lookup_session cfg r =
      by_token auth_mode_token lookup_token (credential_token r)
  identify_in auth_mode_oidc contains lookup_token lookup_session cfg r =
      let rest = by_token auth_mode_oidc lookup_token (allowed cfg.allow_tokens (bearer_token r)) in
      if str_eq r.session_cookie ""
      then rest
      else after_session (identify_session (lookup_session r.session_cookie)) rest
  identify_in (other_mode m) contains lookup_token lookup_session cfg r =
      by_token (other_mode m) lookup_token (credential_token r)

  -- Identify: the lookups take the plain texts and hash them first.
  unfoldable pub identify :
      (Prefix → Peer → Bool)
      → (String → Lookup ℕ)
      → (String → Lookup SessionInfo)
      → Config Prefix
      → Request Peer
      → Answer
  unfolding identify_in
  identify contains lookup_token lookup_session cfg r =
      identify_in cfg.mode contains lookup_token lookup_session cfg r
