-- ===== src/Api/Secrets.antt =====
-- How internal/api/settings.go hides the secrets of notification channels and takes them back:
-- maskChannelTokens and mergeChannelSecrets, with RedactURL of internal/notify/channels.go. The
-- parser of URLs is a parameter; it gives the scheme and the host.
use Prim.Native.String.{◌++◌}
use text.Mathlib.Text.{find?}
use speedtest_tracker.Base.{
  String, Bool, not, ◌&&◌, ◌||◌, Option, none, some, List, [], ◌∷◌, str_eq, if◌then◌else◌, is_some,
  any, map,
}
use speedtest_tracker.Settings.{lookup}

-- settings.Channel; the tags, the priority and whether it is enabled are carried along.
pub record Channel : Type 0 where
  pub id : String
  pub kind : String
  pub name : String
  pub enabled : Bool
  pub url : String
  pub token : String
  pub headers : List (String × String)
  pub priority : String
  pub tags : List String
  pub urls : List String

abbrev pub mask : String
mask = "***"

-- RedactURL
unfoldable pub redact_url : (String → Option (String × String)) → String → String
redact_url parse raw = elim (parse raw) [
  | none ↦ mask
  | some (scheme, host) ↦ if str_eq host "" then mask else scheme ++ "://" ++ host ++ "/***"
]

-- A secret as it is shown: an empty one stays empty.
abbrev pub masked : String → String
masked v = if str_eq v "" then "" else mask

abbrev pub mask_headers : List (String × String) → List (String × String)
mask_headers [] = []
mask_headers ((k, v) ∷ headers) = (k, masked v) ∷ mask_headers headers

abbrev pub shown_url : (String → Option (String × String)) → String → String
shown_url parse u = if str_eq u "" then "" else redact_url parse u

-- maskChannelTokens, for one channel.
unfoldable pub mask_channel : (String → Option (String × String)) → Channel → Channel
unfolding redact_url
mask_channel parse c = record c {
  token = masked c.token;
  headers = mask_headers c.headers;
  urls = map (shown_url parse) c.urls;
}

-- The inner loop of mergeAppriseURLs: the first stored URL that is not consumed and is shown like
-- this, and the rest with it consumed.
unfoldable pub consume :
    (String → Option (String × String)) → String → List String → Option (String × List String)
consume parse u [] = none
consume parse u (s ∷ remaining) =
    let rest = consume parse u remaining in
    if not (str_eq s "") && str_eq u (redact_url parse s)
    then some (s, "" ∷ remaining)
    else elim rest [ none ↦ none | some (t, others) ↦ some (t, s ∷ others) ]

abbrev pub prefix_with : String → Option (List String) → Option (List String)
prefix_with u none = none
prefix_with u (some us) = some (u ∷ us)

-- mergeAppriseURLs; none is the error.
unfoldable pub merge_apprise_urls :
    (String → Option (String × String)) → List String → List String → Option (List String)
unfolding consume
merge_apprise_urls parse [] remaining = some []
merge_apprise_urls parse (u ∷ us) remaining = elim (consume parse u remaining) [
  | some (s, others) ↦ prefix_with s (merge_apprise_urls parse us others)
  | none ↦
      let rest = merge_apprise_urls parse us remaining in
      if is_some (find? u mask) then none else prefix_with u rest
]

-- channelHasMaskedSecret
unfoldable pub channel_has_masked_secret : Channel → Bool
channel_has_masked_secret c =
    str_eq c.token mask || any (λ (h : String × String). str_eq h.1 mask) c.headers

-- The map `stored`, where a later channel of one id replaces an earlier one.
unfoldable pub stored_channel : String → List Channel → Option Channel
stored_channel id [] = none
stored_channel id (c ∷ cs) =
    let later = stored_channel id cs in
    elim later [ some d ↦ some d | none ↦ if str_eq c.id id then some c else none ]

-- A missing key of a Go map is the empty text.
abbrev pub header_of : String → List (String × String) → String
header_of k headers = elim (lookup k headers) [ none ↦ "" | some v ↦ v ]

abbrev pub unmask_headers : List (String × String) → List (String × String) → List (String × String)
unmask_headers old [] = []
unmask_headers old ((k, v) ∷ headers) =
    (k, if str_eq v mask then header_of k old else v) ∷ unmask_headers old headers

-- The secrets of one channel, from the stored one; none asks for the secret again.
unfoldable pub unmask : Channel → Option Channel → Option Channel
unfolding channel_has_masked_secret
unmask c old =
    if channel_has_masked_secret c
    then elim old [
      | none ↦ none
      | some d ↦
          if str_eq d.kind c.kind && str_eq d.url c.url
          then some (record c {
            token = if str_eq c.token mask then d.token else c.token;
            headers = unmask_headers d.headers c.headers;
          })
          else none
    ]
    else some c

abbrev pub urls_of : Option Channel → List String
urls_of none = []
urls_of (some d) = d.urls

abbrev pub with_urls : Channel → Option (List String) → Option Channel
with_urls c none = none
with_urls c (some us) = some (record c { urls = us })

-- One turn of the loop of mergeChannelSecrets; no URLs need no merge.
unfoldable pub merge_channel :
    (String → Option (String × String)) → List Channel → Channel → Option Channel
unfolding stored_channel unmask merge_apprise_urls
merge_channel parse current c =
    let old = stored_channel c.id current in
    elim (unmask c old) [
      | none ↦ none
      | some d ↦ with_urls d (merge_apprise_urls parse d.urls (urls_of old))
    ]

abbrev pub both_of : Option Channel → Option (List Channel) → Option (List Channel)
both_of none rest = none
both_of (some c) none = none
both_of (some c) (some cs) = some (c ∷ cs)

-- mergeChannelSecrets
unfoldable pub merge_channel_secrets :
    (String → Option (String × String)) → List Channel → List Channel → Option (List Channel)
unfolding merge_channel
merge_channel_secrets parse [] current = some []
merge_channel_secrets parse (c ∷ cs) current =
    both_of (merge_channel parse current c) (merge_channel_secrets parse cs current)
