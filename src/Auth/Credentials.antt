-- ===== src/Auth/Credentials.antt =====
-- bearerToken and credentialToken of internal/auth/auth.go, and the texts that identifyForward
-- takes apart.
use Prim.Native.Char.{code}
use Prim.Native.String.{[], ◌∷◌, ◌++◌, count}
use text.Mathlib.Text.{starts_with}
use speedtest_tracker.Base.{
  ℕ, zero, suc, ◌+◌, ◌-◌, String, Bool, true, false, ◌&&◌, ◌||◌, Option, none, some, List, str_eq,
  leb, ◌==◌, if◌then◌else◌, nil, cons,
}

-- The parts of a request that the package reads. The peer is netip's reading of RemoteAddr, none
-- where it does not parse; a missing header, cookie or query parameter is the empty text.
pub record Request {ℓ} (Peer : Type ℓ) : Type ℓ where
  pub peer : Option Peer
  pub header : String → String
  pub session_cookie : String
  pub path : String
  pub query_token : String

abbrev lower : ℕ → ℕ
lower n = if leb 65 n && leb n 90 then n + 32 else n

-- strings.EqualFold with an ASCII prefix, and what follows it.
strip_fold : String → String → Option String
strip_fold [] s = some s
strip_fold (p ∷ ps) [] = none
strip_fold (p ∷ ps) (c ∷ cs) =
    let rest = strip_fold ps cs in if lower (code p) == lower (code c) then rest else none

non_empty : Option String → Option String
non_empty none = none
non_empty (some s) = if str_eq s "" then none else some s

-- bearerToken
unfoldable pub bearer_token {ℓ} : {Peer : Type ℓ} → Request Peer → Option String
unfolding strip_fold non_empty
bearer_token r = non_empty (strip_fold "bearer " (r.header "Authorization"))

-- credentialToken
unfoldable pub credential_token {ℓ} : {Peer : Type ℓ} → Request Peer → Option String
credential_token r = elim (bearer_token r) [
  | some token ↦ some token
  | none ↦
      if str_eq r.path "/api/v1/events"
      then if str_eq r.query_token "" then none else some r.query_token
      else none
]

-- unicode.IsSpace
abbrev is_space : ℕ → Bool
is_space n =
    (leb 9 n && leb n 13)
    || (n == 32)
    || (n == 133)
    || (n == 160)
    || (n == 5760)
    || (leb 8192 n && leb n 8202)
    || (n == 8232)
    || (n == 8233)
    || (n == 8239)
    || (n == 8287)
    || (n == 12288)

trim_left : String → String
trim_left [] = []
trim_left (c ∷ cs) = let rest = trim_left cs in if is_space (code c) then rest else c ∷ cs

trim_right : String → String
trim_right [] = []
trim_right (c ∷ cs) =
    let rest = trim_right cs in if str_eq rest "" && is_space (code c) then [] else c ∷ rest

-- strings.TrimSpace
unfoldable pub trim_space : String → String
unfolding trim_left trim_right
trim_space s = trim_right (trim_left s)

-- The characters still to skip of a separator, the part so far, and what is left of the text.
split_from : String → ℕ → String → String → List String
split_from sep skip part [] = cons part nil
split_from sep (suc k) part (c ∷ cs) = split_from sep k part cs
split_from sep zero part (c ∷ cs) = elim (starts_with (c ∷ cs) sep) [
  | true ↦ cons part (split_from sep (count sep - 1) [] cs)
  | false ↦ split_from sep zero (part ++ (c ∷ [])) cs
]

-- strings.Split with a separator that is not empty.
unfoldable pub split : String → String → List String
unfolding split_from
split s sep = split_from sep zero [] s
