-- ===== src/Auth/Identify/Configured.antt =====
-- Configure of internal/auth/auth.go.
use speedtest_tracker.Base.{
  String, ◌≡◌, refl, Bool, true, false, Option, none, some, List, [], ◌∷◌, arith, is_none, not, any,
  map,
}
use speedtest_tracker.Auth.Identify.{AuthSettings, Config, parse_all, configure}

module _ {ℓ} {Prefix : Type ℓ} (parse_prefix : String → Option Prefix) where
  abbrev pub is_bad : List String → Bool
  is_bad raws = any (λ raw. is_none (parse_prefix raw)) raws

  is_none-parse_all : (raws : List String) → is_none (parse_all parse_prefix raws) ≡ is_bad raws
  unfolding parse_all
  is_none-parse_all [] = refl
  is_none-parse_all (raw ∷ raws) = ground (arith, is_none-parse_all raws)

  -- The prefixes of an outcome, none where the loop failed.
  abbrev read_back : Option (List Prefix) → List (Option Prefix)
  read_back none = []
  read_back (some ps) = map some ps

  parse_all_lem :
      (raws : List String)
      → is_bad raws ≡ false
      → read_back (parse_all parse_prefix raws) ≡ map parse_prefix raws
  unfolding parse_all
  parse_all_lem [] h = refl
  parse_all_lem (raw ∷ raws) h =
      go (parse_prefix raw) (parse_all parse_prefix raws) refl refl (is_none-parse_all raws)
        (parse_all_lem raws)
    where
      go :
          (p : Option Prefix) (o : Option (List Prefix))
          → parse_prefix raw ≡ p
          → parse_all parse_prefix raws ≡ o
          → is_none (parse_all parse_prefix raws) ≡ is_bad raws
          → (is_bad raws ≡ false → read_back (parse_all parse_prefix raws) ≡ map parse_prefix raws)
          → read_back (parse_all parse_prefix (raw ∷ raws)) ≡ map parse_prefix (raw ∷ raws)
      go none o e f bad rest = ground arith
      go (some p) none e f bad rest = ground arith
      go (some p) (some ps) e f bad rest = ground arith

  -- Configure succeeds exactly if every trusted proxy parses; then the configuration trusts those
  -- prefixes, in order, with the mode and the switch for tokens of the settings. If it fails, the
  -- previous configuration stays.
  pub configure_lem :
      (a : AuthSettings) (cfg : Config Prefix)
      → let (next, ok) = configure parse_prefix a cfg in
        (ok ≡ not (is_bad a.trusted_proxies))
        × (ok ≡ false → next ≡ cfg)
        × (ok ≡ true
            → (map some next.trusted ≡ map parse_prefix a.trusted_proxies)
              × (next.mode ≡ a.mode)
              × (next.allow_tokens ≡ a.allow_tokens))
  unfolding configure
  configure_lem a cfg =
      go (parse_all parse_prefix a.trusted_proxies) refl (is_none-parse_all a.trusted_proxies)
        (parse_all_lem a.trusted_proxies)
    where
      go :
          (o : Option (List Prefix))
          → parse_all parse_prefix a.trusted_proxies ≡ o
          → is_none (parse_all parse_prefix a.trusted_proxies) ≡ is_bad a.trusted_proxies
          → (is_bad a.trusted_proxies ≡ false
              → read_back (parse_all parse_prefix a.trusted_proxies)
                ≡ map parse_prefix a.trusted_proxies)
          → let (next, ok) = configure parse_prefix a cfg in
            (ok ≡ not (is_bad a.trusted_proxies))
            × (ok ≡ false → next ≡ cfg)
            × (ok ≡ true
                → (map some next.trusted ≡ map parse_prefix a.trusted_proxies)
                  × (next.mode ≡ a.mode)
                  × (next.allow_tokens ≡ a.allow_tokens))
      go none e bad rest = ground arith
      go (some ps) e bad rest = ground arith
