-- ===== src/Auth/Identify/Evidence.antt =====
-- What stands behind an identity that Identify of internal/auth/auth.go reports.
use speedtest_tracker.Base.{
  ℕ, String, ◌≡◌, refl, sym, Bool, true, false, ◌||◌, Option, none, some, arith, inl, inr, str_eq,
  any, Bool-cases,
}
use speedtest_tracker.Auth.Credentials.{Request, bearer_token, credential_token}
use speedtest_tracker.Auth.Identify.{
  Mode, auth_mode_open, auth_mode_forward, auth_mode_token, auth_mode_oidc, other_mode, Source,
  source_open, source_forward, source_token, source_oidc, Config, Identity, SessionInfo, Lookup,
  fault, missing, found, Answer, identified, unauthorized, token_lookup_failed,
  session_lookup_failed, is_trusted, identify_forward, identify_token, identify_session, by_token,
  allowed, after_session, forward_bearer, identify_in, identify,
}

module _ {ℓ} {Prefix : Type ℓ} {Peer : Type 0} (contains : Prefix → Peer → Bool)
    (lookup_token : String → Lookup ℕ) (lookup_session : String → Lookup SessionInfo)
    (cfg : Config Prefix) (r : Request Peer) where
  -- The peer is inside one of the trusted proxies.
  abbrev pub FromProxy : Type 0
  FromProxy = (peer : Peer) × (r.peer ≡ some peer) × (any (λ p. contains p peer) cfg.trusted ≡ true)

  -- Where a token may come from: by mode, and in forward_auth and OIDC mode only if they are allowed.
  abbrev pub Presented : Mode → String → Type 0
  Presented auth_mode_open plain = ⊥
  Presented auth_mode_forward plain = (cfg.allow_tokens ≡ true) × (bearer_token r ≡ some plain)
  Presented auth_mode_oidc plain = (cfg.allow_tokens ≡ true) × (bearer_token r ≡ some plain)
  Presented _ plain = credential_token r ≡ some plain

  -- The evidence for an identity, by its source.
  abbrev pub Backed : Source → Identity → Type 0
  Backed source_open id = cfg.mode ≡ auth_mode_open
  Backed source_forward id =
      (cfg.mode ≡ auth_mode_forward)
      × FromProxy
      × (id.user ≡ r.header cfg.user_header)
      × (str_eq id.user "" ≡ false)
      × (id.is_admin ≡ (str_eq cfg.admin_group "" || any (λ g. str_eq g cfg.admin_group) id.groups))
  Backed source_token id =
      (plain : String) × Presented cfg.mode plain
      × (k : ℕ) × (lookup_token plain ≡ found k)
      × (id.token_id ≡ some k)
  Backed source_oidc id =
      (cfg.mode ≡ auth_mode_oidc)
      × (info : SessionInfo) × (lookup_session r.session_cookie ≡ found info)
      × (id.is_admin ≡ info.is_admin)

  abbrev pub IsBacked : Answer → Type 0
  IsBacked (identified id) = (id.mode ≡ cfg.mode) × Backed id.source id
  IsBacked _ = Unit

  token-IsBacked :
      (m : Mode) (plain : String) (l : Lookup ℕ)
      → cfg.mode ≡ m
      → lookup_token plain ≡ l
      → Presented m plain
      → IsBacked (identify_token m plain l)
  unfolding identify_token
  token-IsBacked m plain fault e at given = tt
  token-IsBacked m plain missing e at given = tt
  token-IsBacked m plain (found k) e at given =
      let shown : Presented cfg.mode plain = rw e given in (sym e, (plain, shown, k, at, refl))

  forward-IsBacked : cfg.mode ≡ auth_mode_forward → IsBacked (identify_forward contains cfg r)
  unfolding identify_forward is_trusted
  forward-IsBacked m = go r.peer refl
    where
      go : (p : Option Peer) → r.peer ≡ p → IsBacked (identify_forward contains cfg r)
      go none e = rw e tt
      go (some peer) e = elim (Bool-cases (any (λ p. contains p peer) cfg.trusted)) [
        | inr far ↦ rw (e, far) tt
        | inl near ↦ elim (Bool-cases (str_eq (r.header cfg.user_header) "")) [
          | inl blank ↦ rw (e, near, blank) tt
          | inr named ↦ rw (e, near, named) (sym m, (m, (peer, refl, near), refl, named, refl))
        ]
      ]

  session-IsBacked :
      (l : Lookup SessionInfo)
      → lookup_session r.session_cookie ≡ l
      → cfg.mode ≡ auth_mode_oidc
      → IsBacked (identify_session l)
  unfolding identify_session
  session-IsBacked fault e m = tt
  session-IsBacked missing e m = tt
  session-IsBacked (found info) e m = (sym m, (m, info, e, refl))

  by_token-IsBacked :
      (m : Mode) (o : Option String)
      → cfg.mode ≡ m
      → ((plain : String) → o ≡ some plain → Presented m plain)
      → IsBacked (by_token m lookup_token o)
  by_token-IsBacked m none e given = tt
  by_token-IsBacked m (some plain) e given =
      token-IsBacked m plain (lookup_token plain) e refl (given plain refl)

  allowed_lem :
      (b : Bool) (o : Option String) (plain : String)
      → allowed b o ≡ some plain
      → (b ≡ true) × (o ≡ some plain)
  allowed_lem true o plain e = (refl, e)
  allowed_lem false o plain e = ground arith

  bearer-IsBacked :
      (o : Option String)
      → cfg.mode ≡ auth_mode_forward
      → allowed cfg.allow_tokens (bearer_token r) ≡ o
      → IsBacked (forward_bearer contains lookup_token cfg r o)
  unfolding forward_bearer
  bearer-IsBacked none m e = forward-IsBacked m
  bearer-IsBacked (some plain) m e =
      token-IsBacked auth_mode_forward plain (lookup_token plain) m refl
        (allowed_lem cfg.allow_tokens (bearer_token r) plain e)

  after_session-IsBacked :
      (a rest : Answer) → IsBacked a → IsBacked rest → IsBacked (after_session a rest)
  unfolding after_session
  after_session-IsBacked unauthorized rest va vb = vb
  after_session-IsBacked (identified id) rest va vb = va
  after_session-IsBacked token_lookup_failed rest va vb = tt
  after_session-IsBacked session_lookup_failed rest va vb = tt

  oidc-IsBacked :
      cfg.mode ≡ auth_mode_oidc
      → IsBacked (by_token auth_mode_oidc lookup_token (allowed cfg.allow_tokens (bearer_token r)))
  oidc-IsBacked m =
      by_token-IsBacked auth_mode_oidc (allowed cfg.allow_tokens (bearer_token r)) m
        (allowed_lem cfg.allow_tokens (bearer_token r))

  identify_in-IsBacked :
      (m : Mode)
      → cfg.mode ≡ m
      → IsBacked (identify_in m contains lookup_token lookup_session cfg r)
  unfolding identify_in
  identify_in-IsBacked auth_mode_open e = (sym e, e)
  identify_in-IsBacked auth_mode_forward e =
      bearer-IsBacked (allowed cfg.allow_tokens (bearer_token r)) e refl
  identify_in-IsBacked auth_mode_token e =
      by_token-IsBacked auth_mode_token (credential_token r) e (λ plain h. h)
  identify_in-IsBacked auth_mode_oidc e = elim (Bool-cases (str_eq r.session_cookie "")) [
    | inl blank ↦ rw blank (oidc-IsBacked e)
    | inr given ↦ rw given (
        after_session-IsBacked (identify_session (lookup_session r.session_cookie))
          (by_token auth_mode_oidc lookup_token (allowed cfg.allow_tokens (bearer_token r)))
          (session-IsBacked (lookup_session r.session_cookie) refl e) (oidc-IsBacked e))
  ]
  identify_in-IsBacked (other_mode m) e =
      by_token-IsBacked (other_mode m) (credential_token r) e (λ plain h. h)

  -- An identity is reported only on evidence. With source open, the mode is open. With source
  -- forward, the mode is forward_auth, the peer is inside a trusted proxy, the user is what the
  -- user header says and not empty, and admin rights need the admin group, if there is one. With
  -- source token, the request carries a token that the store knows under this id, and in
  -- forward_auth and OIDC mode tokens are allowed. With source OIDC, the mode is OIDC and the store
  -- knows the session of the cookie, whose admin rights count.
  pub identify-IsBacked : IsBacked (identify contains lookup_token lookup_session cfg r)
  unfolding identify
  identify-IsBacked = identify_in-IsBacked cfg.mode refl
