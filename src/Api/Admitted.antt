-- ===== src/Api/Admitted.antt =====
-- Who passes checkAuthLockout of internal/api/settings.go is let in by internal/auth afterwards.
use speedtest_tracker.Base.{
  ℕ, zero, suc, String, ◌≡◌, refl, sym, ap, ◌∙◌, Bool, true, false, not, ◌&&◌, ◌||◌, Option, none,
  some, List, [], ◌∷◌, str_eq, if◌then◌else◌, any, is_none, arith,
}
use speedtest_tracker.Auth.Credentials.{Request, bearer_token, credential_token}
use speedtest_tracker.Auth.Identify.{
  Mode, auth_mode_open, auth_mode_forward, auth_mode_token, auth_mode_oidc, other_mode,
  AuthSettings, Config, SessionInfo, Answer, identified, Lookup, fault, missing, found, parse_all,
  configure, is_trusted, identify_token, identify_forward, forward_bearer, by_token, allowed,
  identify_in, identify,
}
use speedtest_tracker.Api.Lockout.{
  OidcFields, Requester, LockoutError, no_proxies, count_failed, no_tokens, untrusted,
  no_user_header, user_header_of, same_mode, is_narrowed, is_proxy, check_forward, check_token,
  check_auth_lockout,
}

-- Whether the new settings switch the mode.
abbrev pub switches : AuthSettings → AuthSettings → Bool
switches current resulting = not (same_mode resulting.mode current.mode)

abbrev pub is_own_mode : Mode → Bool
is_own_mode auth_mode_open = true
is_own_mode auth_mode_forward = true
is_own_mode auth_mode_token = true
is_own_mode _ = false

abbrev pub is_forward : Mode → Bool
is_forward auth_mode_forward = true
is_forward _ = false

abbrev pub is_identified : Answer → Bool
is_identified (identified id) = true
is_identified _ = false

module _ {ℓ κ} {Prefix : Type ℓ} {Peer : Type κ} (parse_prefix : String → Option Prefix)
    (contains : Prefix → Peer → Bool) where
  proxy-trusted :
      (raws : List String) (ps : List Prefix) (peer : Peer)
      → parse_all parse_prefix raws ≡ some ps
      → is_proxy parse_prefix contains raws peer ≡ any (λ p. contains p peer) ps
  unfolding parse_all is_proxy
  proxy-trusted [] ps peer h = ground arith
  proxy-trusted (raw ∷ raws) ps peer h =
      go (parse_prefix raw) (parse_all parse_prefix raws) refl refl
        (λ qs. proxy-trusted raws qs peer)
    where
      go :
          (o : Option Prefix) (os : Option (List Prefix))
          → parse_prefix raw ≡ o
          → parse_all parse_prefix raws ≡ os
          → ((qs : List Prefix)
              → parse_all parse_prefix raws ≡ some qs
              → is_proxy parse_prefix contains raws peer ≡ any (λ p. contains p peer) qs)
          → is_proxy parse_prefix contains (raw ∷ raws) peer ≡ any (λ p. contains p peer) ps
      go none os e es rest = ground arith
      go (some p) none e es rest = ground arith
      go (some p) (some qs) e es rest =
          let there = rest qs es in
          let parsed : some (p ∷ qs) ≡ some ps = rw (parse_all, e, es) at h in
          let same : p ∷ qs ≡ ps = ground arith in
          rw (is_proxy, e)
            (ap (λ b. if contains p peer then true else b) there
              ∙ ap (any (λ q. contains q peer)) same)

  forward-admits :
      (r : Request Peer) (a : AuthSettings) (ps : List Prefix)
      → check_forward parse_prefix contains r a ≡ none
      → parse_all parse_prefix a.trusted_proxies ≡ some ps
      → str_eq a.user_header "" ≡ false
      → (cfg : Config Prefix) → cfg.trusted ≡ ps
      → cfg.user_header ≡ a.user_header
      → is_identified (identify_forward contains cfg r) ≡ true
  unfolding check_forward identify_forward is_trusted
  forward-admits r a ps h parsed named cfg e f = go r.peer refl
    where
      go : (o : Option Peer) → r.peer ≡ o → is_identified (identify_forward contains cfg r) ≡ true
      go none p = ground arith
      go (some peer) p =
          let proxies = proxy-trusted a.trusted_proxies ps peer parsed in
          let answer : (if not (is_proxy parse_prefix contains a.trusted_proxies peer)
                then some untrusted
                else if str_eq (r.header (user_header_of a)) ""
                then some no_user_header
                else none)
              ≡ none =
            rw (check_forward, p) at h in
          let near : is_proxy parse_prefix contains a.trusted_proxies peer ≡ true = ground arith in
          let user : str_eq (r.header a.user_header) "" ≡ false = ground arith in
          let inside : any (λ q. contains q peer) cfg.trusted ≡ true =
            ap (any (λ q. contains q peer)) e ∙ sym proxies ∙ near in
          rw (identify_forward, is_trusted, p, inside, f, user) refl

  token_found :
      (plain : String) (n : ℕ)
      → is_identified (identify_token auth_mode_token plain (found n)) ≡ true
  unfolding identify_token
  token_found plain n = refl

  token-admits :
      (lookup_token : String → Lookup ℕ) (r : Request Peer)
      → check_token lookup_token r ≡ none
      → is_identified (by_token auth_mode_token lookup_token (credential_token r)) ≡ true
  unfolding check_token credential_token identify_token
  token-admits lookup_token r h = go (bearer_token r) refl
    where
      go :
          (o : Option String)
          → bearer_token r ≡ o
          → is_identified (by_token auth_mode_token lookup_token (credential_token r)) ≡ true
      go none e = ground arith
      go (some plain) e = known (lookup_token plain) refl
        where
          known :
              (l : Lookup ℕ)
              → lookup_token plain ≡ l
              → is_identified (by_token auth_mode_token lookup_token (credential_token r)) ≡ true
          known fault f = ground arith
          known missing f = ground arith
          known (found n) f = let there = token_found plain n in rw (credential_token, e, f) there

  -- The guard looks at the request where the mode changes, or the mode of the proxies is narrowed.
  abbrev pub is_guarded : AuthSettings → AuthSettings → Bool
  is_guarded current resulting =
      switches current resulting || (is_forward resulting.mode && is_narrowed current resulting)

  -- In the mode of the proxies: a header is named, and no bearer token goes before it.
  abbrev pub is_plain : AuthSettings → Request Peer → Bool
  is_plain a r =
      not (is_forward a.mode)
      || (not (str_eq a.user_header "") && is_none (allowed a.allow_tokens (bearer_token r)))

  configured :
      (a : AuthSettings) (cfg : Config Prefix)
      → (configure parse_prefix a cfg).1 ≡ true
      → (ps : List Prefix) × (parse_all parse_prefix a.trusted_proxies ≡ some ps)
        × ((configure parse_prefix a cfg).0.trusted ≡ ps)
        × ((configure parse_prefix a cfg).0.user_header ≡ a.user_header)
        × ((configure parse_prefix a cfg).0.mode ≡ a.mode)
        × ((configure parse_prefix a cfg).0.allow_tokens ≡ a.allow_tokens)
  unfolding configure
  configured a cfg h = go (parse_all parse_prefix a.trusted_proxies) refl h
    where
      go :
          (o : Option (List Prefix))
          → parse_all parse_prefix a.trusted_proxies ≡ o
          → (configure parse_prefix a cfg).1 ≡ true
          → (ps : List Prefix) × (parse_all parse_prefix a.trusted_proxies ≡ some ps)
            × ((configure parse_prefix a cfg).0.trusted ≡ ps)
            × ((configure parse_prefix a cfg).0.user_header ≡ a.user_header)
            × ((configure parse_prefix a cfg).0.mode ≡ a.mode)
            × ((configure parse_prefix a cfg).0.allow_tokens ≡ a.allow_tokens)
      go none e k = ground arith
      go (some ps) e k = (
        ps,
        e,
        rw (configure, e) refl,
        rw (configure, e) refl,
        rw (configure, e) refl,
        rw (configure, e) refl,
      )

  module _ (tokens : Option ℕ) (lookup_token : String → Lookup ℕ)
      (lookup_session : String → Lookup SessionInfo) (discovers : String → Bool) (who : Requester)
      (oidc : OidcFields) where
    guard : Request Peer → AuthSettings → AuthSettings → Option LockoutError
    guard = check_auth_lockout parse_prefix contains tokens lookup_token discovers who oidc

    guard-forward :
        (r : Request Peer) (current resulting : AuthSettings)
        → resulting.mode ≡ auth_mode_forward
        → guard r current resulting ≡ none
        → is_guarded current resulting ≡ true
        → check_forward parse_prefix contains r resulting ≡ none
    unfolding guard check_auth_lockout
    guard-forward r current resulting m h g = go resulting.trusted_proxies refl
      where
        seen :
            (same_mode auth_mode_forward current.mode && not (is_narrowed current resulting))
            ≡ false
        seen =
            let now : (not (same_mode auth_mode_forward current.mode)
                  || (true && is_narrowed current resulting))
                ≡ true =
              rw m at g in
            ground arith

        go :
            (raws : List String)
            → resulting.trusted_proxies ≡ raws
            → check_forward parse_prefix contains r resulting ≡ none
        go [] e =
            let stop : some no_proxies ≡ none = rw (guard, check_auth_lockout, m, e) at h in
            ground arith
        go (raw ∷ raws) e = rw (guard, check_auth_lockout, m, e, seen) at h

    guard-token :
        (r : Request Peer) (current resulting : AuthSettings)
        → resulting.mode ≡ auth_mode_token
        → guard r current resulting ≡ none
        → is_guarded current resulting ≡ true
        → check_token lookup_token r ≡ none
    unfolding guard check_auth_lockout
    guard-token r current resulting m h g = go tokens refl
      where
        seen : same_mode auth_mode_token current.mode ≡ false
        seen =
            let now : (not (same_mode auth_mode_token current.mode)
                  || (false && is_narrowed current resulting))
                ≡ true =
              rw m at g in
            ground arith

        go : (o : Option ℕ) → tokens ≡ o → check_token lookup_token r ≡ none
        go none e =
            let stop : some count_failed ≡ none = rw (guard, check_auth_lockout, m, e) at h in
            ground arith
        go (some zero) e =
            let stop : some no_tokens ≡ none = rw (guard, check_auth_lockout, m, e) at h in
            ground arith
        go (some (suc n)) e = rw (guard, check_auth_lockout, m, e, seen) at h

    -- Where checkAuthLockout allows new settings without OIDC to a request that it looks at, and
    -- Configure takes them, the request itself is identified under them. In the mode of the proxies
    -- this asks that a user header is named and that no bearer token goes before it.
    pub guard_admits :
        (r : Request Peer) (current resulting : AuthSettings) (cfg : Config Prefix)
        → is_own_mode resulting.mode ≡ true
        → check_auth_lockout parse_prefix contains tokens lookup_token discovers who oidc r current
            resulting
          ≡ none
        → is_guarded current resulting ≡ true
        → (configure parse_prefix resulting cfg).1 ≡ true
        → is_plain resulting r ≡ true
        → is_identified (
            identify contains lookup_token lookup_session
              (configure parse_prefix resulting cfg).0
              r)
          ≡ true
    unfolding identify identify_in forward_bearer guard
    guard_admits r current resulting cfg own h g takes plain =
        let (ps, parsed, trusted, header, mode, tokens_too) = configured resulting cfg takes in
        go resulting.mode refl (configure parse_prefix resulting cfg).0 ps parsed trusted header
          mode tokens_too
      where
        go :
            (m : Mode)
            → resulting.mode ≡ m
            → (c : Config Prefix) (ps : List Prefix)
            → parse_all parse_prefix resulting.trusted_proxies ≡ some ps
            → c.trusted ≡ ps
            → c.user_header ≡ resulting.user_header
            → c.mode ≡ resulting.mode
            → c.allow_tokens ≡ resulting.allow_tokens
            → is_identified (identify contains lookup_token lookup_session c r) ≡ true
        go auth_mode_open m c ps parsed t u k a = rw (identify, k, m) refl
        go auth_mode_forward m c ps parsed t u k a =
            let plain' : (false
                  || (not (str_eq resulting.user_header "")
                      && is_none (allowed resulting.allow_tokens (bearer_token r))))
                ≡ true =
              rw m at plain in
            let named : str_eq resulting.user_header "" ≡ false = ground arith in
            let bare : allowed resulting.allow_tokens (bearer_token r) ≡ none = ground arith in
            rw (identify, k, m, a, bare)
              (forward-admits r resulting ps (guard-forward r current resulting m h g) parsed named
                c t u)
        go auth_mode_token m c ps parsed t u k a =
            rw (identify, k, m)
              (token-admits lookup_token r (guard-token r current resulting m h g))
        go auth_mode_oidc m c ps parsed t u k a =
            let stop : false ≡ true = rw m at own in ground arith
        go (other_mode x) m c ps parsed t u k a =
            let stop : false ≡ true = rw m at own in ground arith
