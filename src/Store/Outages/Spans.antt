-- ===== src/Store/Outages/Spans.antt =====
-- Stretches of rows of internal/store/outages.go, extended at either end.
use speedtest_tracker.Base.{
  ℕ, suc, ◌≡◌, refl, sym, ap, Bool, true, false, Option, none, some, List, [], ◌∷◌, ◌++◌,
  append_assoc, arith, inl, inr, str_eq, eq_iff, if◌then◌else◌, length, any, Bool-cases,
}
use speedtest_tracker.Store.Outages.{Row, is_ok, same_target, worse, extend}
use speedtest_tracker.Store.Outages.Blocks.{
  Timed, are_same, goes_on, glue, blocks, is_failed, last, first_error, summary,
}

last-append : (r : Row) (g : List Row) (s : Row) → last r (g ++ s ∷ []) ≡ s
last-append r [] s = refl
last-append r (q ∷ g) s = last-append q g s

length-snoc : (g : List Row) (s : Row) → length (g ++ s ∷ []) ≡ suc (length g)
length-snoc [] s = refl
length-snoc (q ∷ g) s = omega (arith, length-snoc g s)

pub first_error-append :
    (g : List Row) (s : Row)
    → first_error (g ++ s ∷ []) ≡ (if str_eq (first_error g) "" then s.error else first_error g)
first_error-append [] s = elim (Bool-cases (str_eq s.error "")) [
  | inl empty ↦ rw empty (sym ((eq_iff s.error "").0 empty))
  | inr some_text ↦ rw some_text refl
]
first_error-append (q ∷ g) s = ground (arith, first_error-append g s)

any-snoc :
    (g : List Row) (s : Row)
    → any is_failed (g ++ s ∷ []) ≡ (if any is_failed g then true else is_failed s)
any-snoc [] s = ground arith
any-snoc (q ∷ g) s = ground (arith, any-snoc g s)

pub extend-summary :
    (r : Row) (g : List Row) (s : Row)
    → is_ok r.status ≡ false
    → is_ok s.status ≡ false
    → extend s (summary (r, g)) ≡ summary (r, g ++ s ∷ [])
unfolding extend worse summary
extend-summary r g s h k =
    let errors = first_error-append g s in
    rw (any-snoc g s, last-append r g s, length-snoc g s) (ground arith)

pub are_same_trans : (a b c : Row) → are_same a b ≡ true → are_same a c ≡ are_same b c
unfolding same_target
are_same_trans a b c h = go a.target_id b.target_id c.target_id refl refl refl
  where
    go :
        (x y z : Option ℕ)
        → a.target_id ≡ x
        → b.target_id ≡ y
        → c.target_id ≡ z
        → are_same a c ≡ are_same b c
    go none none none ea eb ec =
        let names : str_eq a.target_name b.target_name ≡ true = ground arith in
        rw (ea, eb, ec, (eq_iff a.target_name b.target_name).0 names) refl
    go x y z ea eb ec = ground arith

pub are_same_refl : (a : Row) → are_same a a ≡ true
unfolding same_target
are_same_refl a = go a.target_id refl
  where
    go : (x : Option ℕ) → a.target_id ≡ x → are_same a a ≡ true
    go none e = rw e ((eq_iff a.target_name a.target_name).1 refl)
    go (some n) e = ground arith

abbrev pub prepend : Row → List Row → List (Row × List Row) → List (Row × List Row)
prepend r g [] = (r, g) ∷ []
prepend r g ((s, h) ∷ gs) = (r, g ++ s ∷ h) ∷ gs

-- The blocks that are left where a block is open, its last row being the given one.
abbrev pub resume : ℕ → Row → List Row → Timed → List Timed → List (Row × List Row)
resume gap r g p rows =
    if goes_on gap p rows then prepend r g (blocks gap rows) else (r, g) ∷ blocks gap rows

pub blocks-resume :
    (gap : ℕ) (s : Row) (u : ℕ) (rows : List Timed)
    → is_ok s.status ≡ false
    → blocks gap ((s, u) ∷ rows) ≡ resume gap s [] (s, u) rows
unfolding blocks
blocks-resume gap s u rows h = rw h (glued (blocks gap rows))
  where
    glued :
        (gs : List (Row × List Row))
        → (if goes_on gap (s, u) rows then glue s gs else (s, []) ∷ gs)
          ≡ (if goes_on gap (s, u) rows then prepend s [] gs else (s, []) ∷ gs)
    glued [] = refl
    glued ((q, h) ∷ gs) = refl

pub prepend-resume :
    (gap : ℕ) (r : Row) (g : List Row) (s : Row) (p : Timed) (rows : List Timed)
    → prepend r g (resume gap s [] p rows) ≡ resume gap r (g ++ s ∷ []) p rows
prepend-resume gap r g s p rows = go (goes_on gap p rows) (blocks gap rows)
  where
    go :
        (b : Bool) (gs : List (Row × List Row))
        → prepend r g (if b then prepend s [] gs else (s, []) ∷ gs)
          ≡ (if b then prepend r (g ++ s ∷ []) gs else (r, g ++ s ∷ []) ∷ gs)
    go true [] = refl
    go true ((q, h) ∷ gs) = ap (λ x. (r, x) ∷ gs) (sym (append_assoc g (s ∷ []) (q ∷ h)))
    go false gs = refl
