-- ===== src/Api/Echo.antt =====
-- A client of internal/api/settings.go that sends back what it was shown.
use speedtest_tracker.Base.{
  String, ◌≡◌, refl, sym, ap, ◌∙◌, true, false, Option, some, List, [], ◌∷◌, ◌++◌, append_assoc,
  str_eq, eq_iff, if◌then◌else◌, any, map, All, arith, inl, inr, Bool-cases,
}
use speedtest_tracker.Settings.{lookup}
use speedtest_tracker.Api.Secrets.{
  Channel, mask, redact_url, masked, mask_headers, shown_url, mask_channel, consume, prefix_with,
  merge_apprise_urls, channel_has_masked_secret, stored_channel, header_of, unmask_headers, unmask,
  merge_channel, merge_channel_secrets,
}

abbrev AreBlank : List String → Type 0
AreBlank = All (λ s. str_eq s "" ≡ true)

module _ (parse : String → Option (String × String)) where
  -- The first stored URL that is left is the one that is shown.
  consume-next :
      (blank : List String) (s : String) (rest : List String)
      → AreBlank blank
      → str_eq s "" ≡ false
      → consume parse (shown_url parse s) (blank ++ s ∷ rest) ≡ some (s, blank ++ "" ∷ rest)
  unfolding consume
  consume-next [] s rest v full =
      let same = (eq_iff (redact_url parse s) (redact_url parse s)).1 refl in ground arith
  consume-next (b ∷ blank) s rest v full =
      let later = consume-next blank s rest v.1 full in rw (consume, v.0, later) refl

  AreBlank-append : (blank : List String) → AreBlank blank → AreBlank (blank ++ "" ∷ [])
  AreBlank-append [] v = (refl, tt)
  AreBlank-append (b ∷ blank) v = (v.0, AreBlank-append blank v.1)

  merge_urls-shown :
      (blank urls : List String)
      → AreBlank blank
      → All (λ s. str_eq s "" ≡ false) urls
      → merge_apprise_urls parse (map (shown_url parse) urls) (blank ++ urls) ≡ some urls
  unfolding merge_apprise_urls
  merge_urls-shown blank [] v full = refl
  merge_urls-shown blank (s ∷ urls) v full =
      let rest = merge_urls-shown (blank ++ "" ∷ []) urls (AreBlank-append blank v) full.1 in
      let again =
        ap (merge_apprise_urls parse (map (shown_url parse) urls))
          (sym (append_assoc blank ("" ∷ []) urls))
        ∙ rest in
      rw (merge_apprise_urls, consume-next blank s urls v full.0) (ap (prefix_with s) again)

unmask-shown :
    (old headers : List (String × String))
    → All (λ (h : String × String). lookup h.0 old ≡ some h.1) headers
    → unmask_headers old (mask_headers headers) ≡ headers
unmask-shown old [] v = refl
unmask-shown old ((k, x) ∷ headers) v =
    let rest = unmask-shown old headers v.1 in
    elim (Bool-cases (str_eq x "")) [
      | inl empty ↦
          let e : "" ≡ x = sym ((eq_iff x "").0 empty) in
          rw (empty, rest) (ap (λ y. (k, y) ∷ headers) e)
      | inr full ↦
          let there : header_of k old ≡ x = rw (header_of, v.0) refl in
          rw (full, rest) (ap (λ y. (k, y) ∷ headers) there)
    ]

unmasked_headers :
    (headers : List (String × String))
    → any (λ (h : String × String). str_eq h.1 mask) (mask_headers headers) ≡ false
    → mask_headers headers ≡ headers
unmasked_headers [] h = refl
unmasked_headers ((k, x) ∷ headers) h = elim (Bool-cases (str_eq x "")) [
  | inl empty ↦
      let e : "" ≡ x = sym ((eq_iff x "").0 empty) in
      let h' : any (λ (y : String × String). str_eq y.1 mask) (mask_headers headers) ≡ false =
        rw empty at h in
      let rest = unmasked_headers headers h' in rw (empty, rest) (ap (λ y. (k, y) ∷ headers) e)
  | inr full ↦ let stop : true ≡ false = rw full at h in ground arith
]

masked-token : (t old : String) → old ≡ t → (if str_eq (masked t) mask then old else masked t) ≡ t
masked-token t old e = elim (Bool-cases (str_eq t "")) [
  | inl empty ↦ rw empty (sym ((eq_iff t "").0 empty))
  | inr full ↦ rw full e
]

masked-empty : (t : String) → str_eq (masked t) mask ≡ false → masked t ≡ t
masked-empty t h = elim (Bool-cases (str_eq t "")) [
  | inl empty ↦ rw empty (sym ((eq_iff t "").0 empty))
  | inr full ↦ let stop : true ≡ false = rw full at h in ground arith
]

-- What comes back of a channel's own secrets.
unmask-mask :
    (parse : String → Option (String × String)) (c : Channel)
    → All (λ (h : String × String). lookup h.0 c.headers ≡ some h.1) c.headers
    → unmask (mask_channel parse c) (some c)
      ≡ some (record c { urls = map (shown_url parse) c.urls })
unfolding unmask mask_channel channel_has_masked_secret
unmask-mask parse c v = elim (Bool-cases (channel_has_masked_secret (mask_channel parse c))) [
  | inl secret ↦
      rw (unmask, secret, (eq_iff c.kind c.kind).1 refl, (eq_iff c.url c.url).1 refl)
        (λ i. some (record c {
          token = masked-token c.token c.token refl i;
          headers = unmask-shown c.headers c.headers v i;
          urls = map (shown_url parse) c.urls;
        }))
  | inr plain ↦
      let token : str_eq (masked c.token) mask ≡ false = ground arith in
      let rest : any (λ (h : String × String). str_eq h.1 mask) (mask_headers c.headers) ≡ false =
        ground arith in
      rw (unmask, plain)
        (λ i. some (record c {
          token = masked-empty c.token token i;
          headers = unmasked_headers c.headers rest i;
          urls = map (shown_url parse) c.urls;
        }))
]

-- The channels have ids of their own, their headers names of their own, and no empty URLs.
abbrev pub IsTidy : List Channel → Channel → Type 0
IsTidy cs c =
    (stored_channel c.id cs ≡ some c)
    × All (λ (h : String × String). lookup h.0 c.headers ≡ some h.1) c.headers
    × All (λ (u : String). str_eq u "" ≡ false) c.urls

merge_channel-mask :
    (parse : String → Option (String × String)) (current : List Channel) (c : Channel)
    → IsTidy current c
    → merge_channel parse current (mask_channel parse c) ≡ some c
unfolding merge_channel mask_channel
merge_channel-mask parse current c (found, headers, full) =
    let urls = merge_urls-shown parse [] c.urls tt full in
    let secrets = ap (unmask (mask_channel parse c)) found ∙ unmask-mask parse c headers in
    rw (merge_channel, secrets, found, urls) refl

-- If ids are unique among the channels, header names within a channel, and no URL is empty, then
-- sending back the channels as they are shown, with every secret masked, keeps all of them as they
-- are stored.
pub echo_keeps_secrets :
    (parse : String → Option (String × String)) (cs current : List Channel)
    → All (IsTidy current) cs
    → merge_channel_secrets parse (map (mask_channel parse) cs) current ≡ some cs
unfolding merge_channel_secrets
echo_keeps_secrets parse [] current v = refl
echo_keeps_secrets parse (c ∷ cs) current v =
    rw
      (
        merge_channel_secrets,
        merge_channel-mask parse current c v.0,
        echo_keeps_secrets parse cs current v.1,
      )
      refl
