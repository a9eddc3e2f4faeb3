-- ===== src/Store/Runs/Pages.antt =====
-- Reading the whole listing of internal/store/runs.go, page by page.
use speedtest_tracker.Base.{
  ℕ, zero, suc, ◌+◌, ◌≤◌, ◌<◌, ◌≡◌, refl, ◌∙◌, ap, ◌⊎◌, inl, inr, Bool, true, false, List, [], ◌∷◌,
  ◌++◌, arith, ltb, ◌==◌, if◌then◌else◌, length, take, drop, select, take-append-drop, Bool-cases,
  All,
}
use speedtest_tracker.Store.Runs.{
  Run, RunTable, RunFilter, clamp_limit, list_matches, last_id, list_runs,
}
use speedtest_tracker.Store.Runs.Status.{IsNewestFirst, IsTable}

-- The client's loop: page after page from a cursor until the next cursor is 0.
unfoldable pub read_pages : ℕ → RunFilter → RunTable → List Run
read_pages zero f t = []
read_pages (suc fuel) f t =
    let (page, cursor) = list_runs f t in
    let rest = read_pages fuel (record f { cursor = cursor }) t in
    if cursor == 0 then page else page ++ rest

abbrev below : ℕ → List Run → List Run
below c = select (λ r. ltb r.id c)

IsNewestFirst-weaken : (m n : ℕ) (rs : List Run) → m ≤ n → IsNewestFirst m rs → IsNewestFirst n rs
IsNewestFirst-weaken m n [] h v = tt
IsNewestFirst-weaken m n (r ∷ rs) h v = (omega arith, v.1)

IsNewestFirst-select :
    (p : Run → Bool) (n : ℕ) (rs : List Run) → IsNewestFirst n rs → IsNewestFirst n (select p rs)
IsNewestFirst-select p n [] v = tt
IsNewestFirst-select p n (r ∷ rs) v = elim (Bool-cases (p r)) [
  | inl e ↦ rw e (v.0, IsNewestFirst-select p r.id rs v.1)
  | inr e ↦
      rw e (
        IsNewestFirst-weaken r.id n (select p rs) (omega arith)
          (IsNewestFirst-select p r.id rs v.1))
]

below_all : (c : ℕ) (rs : List Run) → IsNewestFirst c rs → below c rs ≡ rs
below_all c [] v = refl
below_all c (r ∷ rs) v =
    let rest = below_all c rs (IsNewestFirst-weaken r.id c rs (omega arith) v.1) in ground arith

-- The last id of a prefix that is not empty lies below the bound.
last_id-take-lt :
    (k n : ℕ) (rs : List Run) → IsNewestFirst n rs → k < length rs → last_id (take (suc k) rs) < n
last_id-take-lt k n [] v h = absurd omega (arith, h)
last_id-take-lt zero n (r ∷ rs) v h = v.0
last_id-take-lt (suc k) n (r ∷ []) v h = absurd omega (arith, h)
last_id-take-lt (suc k) n (r ∷ s ∷ rs) v h =
    let inner = last_id-take-lt k r.id (s ∷ rs) v.1 (omega (arith, h)) in omega (arith, inner, v.0)

skip_first : (c : ℕ) (r : Run) (rs : List Run) → c ≤ r.id → below c (r ∷ rs) ≡ below c rs
skip_first c r rs h = ground arith

-- The rows past the cursor of a full page are those that the page leaves.
below_last :
    (k n : ℕ) (rs : List Run)
    → IsNewestFirst n rs
    → k < length rs
    → below (last_id (take (suc k) rs)) rs ≡ drop (suc k) rs
below_last k n [] v h = absurd omega (arith, h)
below_last zero n (r ∷ rs) v h = ground (arith, below_all r.id rs v.1)
below_last (suc k) n (r ∷ []) v h = absurd omega (arith, h)
below_last (suc k) n (r ∷ s ∷ rs) v h =
    let inner = below_last k r.id (s ∷ rs) v.1 (omega (arith, h)) in
    let low = last_id-take-lt k r.id (s ∷ rs) v.1 (omega (arith, h)) in
    skip_first (last_id (take (suc k) (s ∷ rs))) r (s ∷ rs) (omega (arith, low)) ∙ inner

-- A lower cursor reads the same from the table as from what a higher one shows.
below-visible :
    (f : RunFilter) (c : ℕ) (rs : List Run)
    → 0 < c
    → (f.cursor ≡ 0) ⊎ (c ≤ f.cursor)
    → select (list_matches (record f { cursor = c })) rs ≡ below c (select (list_matches f) rs)
unfolding list_matches
below-visible f c [] pos h = refl
below-visible f c (r ∷ rs) pos h = ground (arith, below-visible f c rs pos h)

visible-IsNewestFirst :
    (f : RunFilter) (n : ℕ) (rs : List Run)
    → 0 < f.cursor
    → IsNewestFirst n rs
    → IsNewestFirst f.cursor (select (list_matches f) rs)
unfolding list_matches
visible-IsNewestFirst f n [] pos v = tt
visible-IsNewestFirst f n (r ∷ rs) pos v = elim (Bool-cases (list_matches f r)) [
  | inl e ↦ rw e (older e, IsNewestFirst-select (list_matches f) r.id rs v.1)
  | inr e ↦ rw e (visible-IsNewestFirst f r.id rs pos v.1)
]
  where
    older : list_matches f r ≡ true → r.id < f.cursor
    older e = ground arith

clamp_limit-pos : (limit : ℕ) → 0 < clamp_limit limit
unfolding clamp_limit
clamp_limit-pos limit = ground arith

take_all : (n : ℕ) (rs : List Run) → length rs ≤ n → take n rs ≡ rs
take_all zero [] h = refl
take_all (suc n) [] h = refl
take_all zero (r ∷ rs) h = absurd omega (arith, h)
take_all (suc n) (r ∷ rs) h = ap (λ t. r ∷ t) (take_all n rs (omega (arith, h)))

take-take : (n : ℕ) (rs : List Run) → take n (take (suc n) rs) ≡ take n rs
take-take zero rs = refl
take-take (suc n) [] = refl
take-take (suc n) (r ∷ rs) = ap (λ t. r ∷ t) (take-take n rs)

length-take : (n : ℕ) (rs : List Run) → n ≤ length rs → length (take n rs) ≡ n
length-take zero rs h = refl
length-take (suc n) [] h = absurd omega (arith, h)
length-take (suc n) (r ∷ rs) h = ap suc (length-take n rs (omega (arith, h)))

length-drop-lt : (n : ℕ) (rs : List Run) → 0 < n → n < length rs → length (drop n rs) < length rs
length-drop-lt n [] pos h = absurd omega (arith, h)
length-drop-lt zero (r ∷ rs) pos h = absurd omega (arith, pos)
length-drop-lt (suc zero) (r ∷ rs) pos h = omega arith
length-drop-lt (suc (suc n)) (r ∷ rs) pos h =
    omega (arith, length-drop-lt (suc n) rs (omega arith) (omega (arith, h)))

last_id-pos :
    (k : ℕ) (rs : List Run)
    → All (λ (r : Run). 0 < r.id) rs
    → k < length rs
    → 0 < last_id (take (suc k) rs)
last_id-pos k [] v h = absurd omega (arith, h)
last_id-pos zero (r ∷ rs) v h = v.0
last_id-pos (suc k) (r ∷ []) v h = absurd omega (arith, h)
last_id-pos (suc k) (r ∷ s ∷ rs) v h = last_id-pos k (s ∷ rs) v.1 (omega (arith, h))

All-select :
    (p : Run → Bool) (rs : List Run)
    → All (λ (r : Run). 0 < r.id) rs
    → All (λ (r : Run). 0 < r.id) (select p rs)
All-select p [] v = tt
All-select p (r ∷ rs) v = let rest = All-select p rs v.1 in ground arith

abbrev visible : RunFilter → RunTable → List Run
visible f t = select (list_matches f) t.rows

last_page :
    (f : RunFilter) (t : RunTable)
    → length (visible f t) ≤ clamp_limit f.limit
    → list_runs f t ≡ (visible f t, 0)
unfolding list_runs
last_page f t h =
    let all = take_all (clamp_limit f.limit + 1) (visible f t) (omega (arith, h)) in ground arith

full_page :
    (f : RunFilter) (t : RunTable)
    → clamp_limit f.limit < length (visible f t)
    → let page = take (clamp_limit f.limit) (visible f t) in list_runs f t ≡ (page, last_id page)
unfolding list_runs
full_page f t h =
    let more = length-take (suc (clamp_limit f.limit)) (visible f t) (omega (arith, h)) in
    let same = take-take (clamp_limit f.limit) (visible f t) in ground arith

-- What one full page leaves is what its cursor shows.
module _ (t : RunTable) (v : IsTable t) (pos : All (λ (r : Run). 0 < r.id) t.rows) (f : RunFilter)
    (k : ℕ) (size : clamp_limit f.limit ≡ suc k) (more : suc k < length (visible f t)) where
  abbrev cursor : ℕ
  cursor = last_id (take (suc k) (visible f t))

  cursor-pos : 0 < cursor
  cursor-pos =
      last_id-pos k (visible f t) (All-select (list_matches f) t.rows pos) (omega (arith, more))

  cursor_falls : (f.cursor ≡ 0) ⊎ (cursor ≤ f.cursor)
  cursor_falls = go f.cursor refl
    where
      go : (c : ℕ) → f.cursor ≡ c → (f.cursor ≡ 0) ⊎ (cursor ≤ f.cursor)
      go zero e = inl e
      go (suc c) e =
          let falls = visible-IsNewestFirst f t.next_id t.rows (omega (arith, e)) v in
          let low = last_id-take-lt k f.cursor (visible f t) falls (omega (arith, more)) in
          inr (omega (arith, low))

  next_visible : visible (record f { cursor = cursor }) t ≡ drop (suc k) (visible f t)
  next_visible =
      below-visible f cursor t.rows cursor-pos cursor_falls
      ∙ below_last k t.next_id (visible f t)
          (IsNewestFirst-select (list_matches f) t.next_id t.rows v) (omega (arith, more))

-- In a table with ids that fall along it and are positive, as AUTOINCREMENT makes them, following
-- the cursors from any page on, for more rounds than there are runs to list, reads exactly the runs
-- that match the filter, each once and newest first, whatever the page size.
pub read_pages_lem :
    (t : RunTable) (fuel : ℕ) (f : RunFilter)
    → IsTable t
    → All (λ (r : Run). 0 < r.id) t.rows
    → length (select (list_matches f) t.rows) < fuel
    → read_pages fuel f t ≡ select (list_matches f) t.rows
unfolding read_pages
read_pages_lem t zero f v pos h = absurd omega (arith, h)
read_pages_lem t (suc fuel) f v pos h =
    go (λ g. λ short. read_pages_lem t fuel g v pos short) (clamp_limit f.limit) refl
  where
    page_of :
        (k : ℕ)
        → clamp_limit f.limit ≡ suc k
        → suc k < length (visible f t)
        → let page = take (suc k) (visible f t) in list_runs f t ≡ (page, last_id page)
    page_of k e more = rw⁻¹ e (full_page f t (omega (arith, e, more)))

    go :
        (onward : (g : RunFilter) → length (visible g t) < fuel → read_pages fuel g t ≡ visible g t)
        (size : ℕ)
        → clamp_limit f.limit ≡ size
        → read_pages (suc fuel) f t ≡ visible f t
    go onward zero e = absurd omega (arith, e, clamp_limit-pos f.limit)
    go onward (suc k) e = elim (Bool-cases (ltb (suc k) (length (visible f t)))) [
      | inl full ↦
          let more : suc k < length (visible f t) = ground arith in
          let next = next_visible t v pos f k e more in
          let up = cursor-pos t v pos f k e more in
          let rest =
            onward (record f { cursor = cursor t v pos f k e more })
              (let left = length-drop-lt (suc k) (visible f t) (omega arith) more in
                let same : length (visible (record f { cursor = cursor t v pos f k e more }) t)
                    ≡ length (drop (suc k) (visible f t)) =
                  ap length next in
                omega (arith, left, same, h)) in
          let joined =
            ap (λ (xs : List Run). take (suc k) (visible f t) ++ xs) (rest ∙ next)
            ∙ take-append-drop (suc k) (visible f t) in
          let past : cursor t v pos f k e more == 0 ≡ false = ground (arith, up) in
          rw (page_of k e more, past) joined
      | inr last ↦ let page = last_page f t (ground arith) in rw page refl
    ]
