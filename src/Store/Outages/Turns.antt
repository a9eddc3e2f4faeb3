-- ===== src/Store/Outages/Turns.antt =====
-- One turn of the loop of Outages in internal/store/outages.go, against the blocks.
use speedtest_tracker.Base.{
  ℕ, ◌+◌, String, ◌≡◌, refl, sym, ap, ◌∙◌, true, false, ◌&&◌, Option, none, some, List, [], ◌∷◌,
  ◌++◌, map, append_assoc, arith, inl, inr, leb, if◌then◌else◌, any, Bool-cases,
}
use speedtest_tracker.Store.Outages.{
  Row, Incident, is_ok, extend, begin, flush, turn, Cursor, end, next, merge, Answer, done,
}
use speedtest_tracker.Store.Outages.Blocks.{Timed, are_same, goes_on, blocks, summary, IsGrouped}
use speedtest_tracker.Store.Outages.Spans.{
  are_same_trans, are_same_refl, extend-summary, first_error-append, blocks-resume, prepend-resume,
  prepend, resume,
}

-- The rows of a query that ends without an error.
unfoldable pub cursor_of : List Timed → Cursor Row
cursor_of [] = end
cursor_of ((r, t) ∷ rows) = next r (cursor_of rows)

abbrev pub ArePlain : (String → Option ℕ) → List Timed → Type 0
ArePlain parse [] = Unit
ArePlain parse ((r, t) ∷ rows) = (parse r.started_at ≡ some t) × ArePlain parse rows

-- The incidents that the blocks give, after those that are there.
abbrev pub found : List Incident → List (Row × List Row) → Answer (List Incident)
found out gs = done (out ++ map summary gs)

-- What the loop finds in the remaining rows: with no incident open, with one whose last row is p,
-- and with one whose target does not come again.
pub record Claims (parse : String → Option ℕ) (gap : ℕ) (rows : List Timed) : Type 0 where
  pub closed :
      (out : List Incident)
      → merge parse gap (cursor_of rows) out none ≡ found out (blocks gap rows)
  pub opened :
      (out : List Incident) (r : Row) (g : List Row) (p : Row) (t : ℕ)
      → is_ok r.status ≡ false
      → are_same r p ≡ true
      → IsGrouped ((p, t) ∷ rows)
      → merge parse gap (cursor_of rows) out (some (summary (r, g), t))
        ≡ found out (resume gap r g (p, t) rows)
  pub alone :
      (out : List Incident) (r : Row) (g : List Row) (t : ℕ)
      → any (λ x. are_same r x.0) rows ≡ false
      → merge parse gap (cursor_of rows) out (some (summary (r, g), t))
        ≡ found out ((r, g) ∷ blocks gap rows)

begin-summary : (s : Row) → begin s ≡ summary (s, [])
unfolding begin summary
begin-summary s = let errors = first_error-append [] s in ground arith

module _ (parse : String → Option ℕ) (gap : ℕ) (s : Row) (u : ℕ) (rows : List Timed)
    (rest : Claims parse gap rows) (grouped : IsGrouped ((s, u) ∷ rows))
    (plain : parse s.started_at ≡ some u) where
  unfoldable pub loop : List Incident → Option (Incident × ℕ) → Answer (List Incident)
  loop = merge parse gap (next s (cursor_of rows))

  fresh :
      (out : List Incident)
      → is_ok s.status ≡ false
      → merge parse gap (cursor_of rows) out (some (begin s, u))
        ≡ found out (blocks gap ((s, u) ∷ rows))
  fresh out bad =
      ap (λ b. merge parse gap (cursor_of rows) out (some (b, u))) (begin-summary s)
      ∙ rest.opened out s [] s u bad (are_same_refl s) grouped
      ∙ ap (found out) (sym (blocks-resume gap s u rows bad))

  turned :
      (out out' : List Incident) (cur cur' : Option (Incident × ℕ))
      → turn gap s u out cur ≡ (out', cur')
      → loop out cur ≡ merge parse gap (cursor_of rows) out' cur'
  unfolding loop merge
  turned out out' cur cur' e =
      rw (loop, merge, plain) (ap (λ x. merge parse gap (cursor_of rows) x.0 x.1) e)

  skip_ok : is_ok s.status ≡ true → blocks gap ((s, u) ∷ rows) ≡ blocks gap rows
  unfolding blocks
  skip_ok fine = rw (blocks, fine) refl

  pub closed-cons : (out : List Incident) → loop out none ≡ found out (blocks gap ((s, u) ∷ rows))
  unfolding turn
  closed-cons out = elim (Bool-cases (is_ok s.status)) [
    | inl fine ↦
        turned out out none none (rw (turn, fine) refl)
        ∙ rest.closed out
        ∙ ap (found out) (sym (skip_ok fine))
    | inr bad ↦ turned out out none (some (begin s, u)) (rw (turn, bad) refl) ∙ fresh out bad
  ]

  module _ (out : List Incident) (r : Row) (g : List Row) (t : ℕ) where
    unfoldable pub shown : Incident
    shown = summary (r, g)

    appended : (gs : List (Row × List Row)) → found (out ++ shown ∷ []) gs ≡ found out ((r, g) ∷ gs)
    unfolding shown
    appended gs = ap done (append_assoc out (summary (r, g) ∷ []) (map summary gs))

    open-ok :
        is_ok s.status ≡ true
        → are_same r s ≡ true
        → loop out (some (shown, t)) ≡ found out ((r, g) ∷ blocks gap ((s, u) ∷ rows))
    unfolding turn flush shown summary
    open-ok fine same =
        turned out (out ++ shown ∷ []) (some (shown, t)) none (rw (fine, same) refl)
        ∙ rest.closed (out ++ shown ∷ [])
        ∙ appended (blocks gap rows)
        ∙ ap (λ gs. found out ((r, g) ∷ gs)) (sym (skip_ok fine))

    open-new :
        is_ok s.status ≡ false
        → (are_same r s && leb u (t + gap)) ≡ false
        → loop out (some (shown, t)) ≡ found out ((r, g) ∷ blocks gap ((s, u) ∷ rows))
    unfolding turn flush shown summary
    open-new bad apart =
        turned out (out ++ shown ∷ []) (some (shown, t)) (some (begin s, u)) (rw (bad, apart) refl)
        ∙ fresh (out ++ shown ∷ []) bad
        ∙ appended (blocks gap ((s, u) ∷ rows))

    open-more :
        is_ok s.status ≡ false
        → is_ok r.status ≡ false
        → (are_same r s && leb u (t + gap)) ≡ true
        → loop out (some (shown, t)) ≡ found out (prepend r g (blocks gap ((s, u) ∷ rows)))
    unfolding turn flush shown summary
    open-more bad started near =
        turned out out (some (shown, t)) (some (extend s (summary (r, g)), u)) (rw (bad, near) refl)
        ∙ ap (λ b. merge parse gap (cursor_of rows) out (some (b, u)))
            (extend-summary r g s started bad)
        ∙ rest.opened out r (g ++ s ∷ []) s u started (ground arith) grouped
        ∙ ap (found out) (
            sym (prepend-resume gap r g s (s, u) rows)
            ∙ ap (prepend r g) (sym (blocks-resume gap s u rows bad)))

    open-other :
        is_ok s.status ≡ true
        → any (λ (x : Timed). are_same r x.0) ((s, u) ∷ rows) ≡ false
        → loop out (some (shown, t)) ≡ found out ((r, g) ∷ blocks gap ((s, u) ∷ rows))
    unfolding turn flush shown summary
    open-other fine none_left =
        let other : are_same r s ≡ false = ground arith in
        turned out out (some (shown, t)) (some (shown, t)) (rw (fine, other) refl)
        ∙ rest.alone out r g t (ground arith)
        ∙ ap (λ gs. found out ((r, g) ∷ gs)) (sym (skip_ok fine))

    pub alone-cons :
        any (λ (x : Timed). are_same r x.0) ((s, u) ∷ rows) ≡ false
        → loop out (some (shown, t)) ≡ found out ((r, g) ∷ blocks gap ((s, u) ∷ rows))
    alone-cons none_left = elim (Bool-cases (is_ok s.status)) [
      | inl fine ↦ open-other fine none_left
      | inr bad ↦ open-new bad (ground arith)
    ]

  no_other :
      (r p : Row) (t : ℕ)
      → are_same r p ≡ true
      → IsGrouped ((p, t) ∷ (s, u) ∷ rows)
      → are_same r s ≡ false
      → any (λ (x : Timed). are_same r x.0) ((s, u) ∷ rows) ≡ false
  no_other r p t same_p v other =
      rw other (transfer rows (v.0 (sym (are_same_trans r p s same_p) ∙ other)))
    where
      transfer :
          (xs : List Timed)
          → any (λ (x : Timed). are_same p x.0) xs ≡ false
          → any (λ (x : Timed). are_same r x.0) xs ≡ false
      transfer [] h = refl
      transfer ((q, w) ∷ xs) h = let e = are_same_trans r p q same_p in ground (arith, transfer xs)

  pub opened-cons :
      (out : List Incident) (r : Row) (g : List Row) (p : Row) (t : ℕ)
      → is_ok r.status ≡ false
      → are_same r p ≡ true
      → IsGrouped ((p, t) ∷ (s, u) ∷ rows)
      → loop out (some (summary (r, g), t)) ≡ found out (resume gap r g (p, t) ((s, u) ∷ rows))
  unfolding goes_on shown
  opened-cons out r g p t started same_p v = elim (Bool-cases (is_ok s.status)) [
    | inl fine ↦ elim (Bool-cases (are_same r s)) [
      | inl same_s ↦ open-ok out r g t fine same_s ∙ ap (found out) (sym (kept (ground arith)))
      | inr other ↦
          open-other out r g t fine (no_other r p t same_p v other)
          ∙ ap (found out) (sym (kept (ground arith)))
    ]
    | inr bad ↦ elim (Bool-cases (are_same r s && leb u (t + gap))) [
      | inl near ↦
          open-more out r g t bad started near ∙ ap (found out) (sym (more (ground (arith, same))))
      | inr apart ↦
          open-new out r g t bad apart ∙ ap (found out) (sym (kept (ground (arith, same))))
    ]
  ]
    where
      same : are_same r s ≡ are_same p s
      same = are_same_trans r p s same_p

      gs : List (Row × List Row)
      gs = blocks gap ((s, u) ∷ rows)

      kept :
          goes_on gap (p, t) ((s, u) ∷ rows) ≡ false
          → resume gap r g (p, t) ((s, u) ∷ rows) ≡ (r, g) ∷ gs
      kept h = ap (λ b. if b then prepend r g gs else (r, g) ∷ gs) h

      more :
          goes_on gap (p, t) ((s, u) ∷ rows) ≡ true
          → resume gap r g (p, t) ((s, u) ∷ rows) ≡ prepend r g gs
      more h = ap (λ b. if b then prepend r g gs else (r, g) ∷ gs) h
