-- ===== src/Api/Fields.antt =====
-- Fields of a PUT of internal/api/settings.go: their keys with what is written to them.
use speedtest_tracker.Base.{
  String, ◌≡◌, refl, Bool, true, ◌||◌, Option, none, some, List, [], ◌∷◌, ◌++◌, eq_iff, is_some,
  All, arith,
}
use speedtest_tracker.Settings.Noted.{has}
use speedtest_tracker.Api.Writes.{Write, set_ptr, set_secret, clear_header, set_nullable}
use speedtest_tracker.Api.Keys.{given}

-- Every write is to one of the keys, or to one that is excepted.
abbrev pub AreIn : (String → Bool) → List String → List Write → Type 0
AreIn other ks = All (λ w. (has w.0 ks || other w.0) ≡ true)

module _ (other : String → Bool) where
  has-++ : (k : String) (xs ys : List String) → has k (xs ++ ys) ≡ (has k xs || has k ys)
  has-++ k [] ys = refl
  has-++ k (x ∷ xs) ys = ground (arith, has-++ k xs ys)

  In-left : (xs ys : List String) (ws : List Write) → AreIn other xs ws → AreIn other (xs ++ ys) ws
  In-left xs ys [] v = tt
  In-left xs ys (w ∷ ws) v =
      let h = has-++ w.0 xs ys in let rest = In-left xs ys ws v.1 in ground arith

  In-right : (xs ys : List String) (ws : List Write) → AreIn other ys ws → AreIn other (xs ++ ys) ws
  In-right xs ys [] v = tt
  In-right xs ys (w ∷ ws) v =
      let h = has-++ w.0 xs ys in let rest = In-right xs ys ws v.1 in ground arith

  pub both :
      (xs ys : List String) (vs ws : List Write)
      → AreIn other xs vs
      → AreIn other ys ws
      → AreIn other (xs ++ ys) (vs ++ ws)
  both xs ys [] ws here rest = In-right xs ys ws rest
  both xs ys (v ∷ vs) ws here rest =
      let more = both xs ys vs ws here.1 rest in
      let first = In-left xs ys (v ∷ []) (here.0, tt) in (first.0, more)

  same_has : (k : String) → has k (k ∷ []) ≡ true
  same_has k = let same = (eq_iff k k).1 refl in ground arith

  pub ptr-In : (key : String) (o : Option String) → AreIn other (given key o) (set_ptr key o)
  unfolding given set_ptr
  ptr-In key none = tt
  ptr-In key (some v) = let here = same_has key in ground arith

  pub secret-In :
      (encode : String → String) (key : String) (o : Option String)
      → AreIn other (given key o) (set_secret encode key o)
  unfolding given set_secret
  secret-In encode key none = tt
  secret-In encode key (some v) = let here = same_has key in ground arith

  pub nullable-In : (key : String) (o : Option String) → AreIn other (key ∷ []) (set_nullable key o)
  unfolding set_nullable
  nullable-In key none = let here = same_has key in ground arith
  nullable-In key (some v) = let here = same_has key in ground arith

  -- Keys with the writes that are to them.
  pub record Fields : Type 0 where
    pub keys : List String
    pub values : List Write
    pub inside : AreIn other keys values

  infixr 30 ◌&◌
  unfoldable pub ◌&◌ : Fields → Fields → Fields
  f & g = record {
    keys = f.keys ++ g.keys;
    values = f.values ++ g.values;
    inside = both f.keys g.keys f.values g.values f.inside g.inside;
  }

  unfoldable pub ptr : String → Option String → Fields
  ptr key o = record { keys = given key o; values = set_ptr key o; inside = ptr-In key o }

  unfoldable pub secret : (String → String) → String → Option String → Fields
  secret encode key o = record {
    keys = given key o;
    values = set_secret encode key o;
    inside = secret-In encode key o;
  }

  unfoldable pub nullable : String → Option String → Fields
  nullable key o = record {
    keys = key ∷ [];
    values = set_nullable key o;
    inside = nullable-In key o;
  }

  pub clear-In :
      (encode : String → String) (key : String) (o : Option String)
      → (is_some o ≡ true → other key ≡ true)
      → AreIn other [] (clear_header encode key o)
  unfolding clear_header
  clear-In encode key none h = tt
  clear-In encode key (some auth_type) h = let gone = h refl in ground arith

  pub append-In :
      (ks : List String) (vs ws : List Write)
      → AreIn other ks vs
      → AreIn other [] ws
      → AreIn other ks (vs ++ ws)
  append-In ks [] [] here rest = tt
  append-In ks [] (w ∷ ws) here rest = let more = append-In ks [] ws here rest.1 in ground arith
  append-In ks (v ∷ vs) ws here rest = (here.0, append-In ks vs ws here.1 rest)

  unfoldable pub add_clear :
      Fields
      → (String → String)
      → (key : String) (o : Option String) → (is_some o ≡ true → other key ≡ true)
      → Fields
  add_clear f encode key o h = record {
    keys = f.keys;
    values = f.values ++ clear_header encode key o;
    inside =
        append-In f.keys f.values (clear_header encode key o) f.inside (clear-In encode key o h);
  }
