-- ===== src/Admin/Submissions/Pages.antt =====
-- Following the cursor lists every submission once.
use ctfnight.Base.{
  ◌≤◌, ◌≡◌, refl, Bool, true, false, ◌&&◌, some, List, [], ◌∷◌, ◌++◌, arith, ◌==◌, select_all,
  count_where, limit, offset, in_order, in_order-sort_by, sort_by, ap,
}
use ctfnight.Model.{Db, Event, Submission}
use ctfnight.Admin.Submissions.{
  SubmissionQuery, newer_first, below, below_cursor, matching, page_rows, in_filter,
}

abbrev all_rows : (Submission → Bool) → List Submission → Bool
all_rows p [] = true
all_rows p (x ∷ xs) = p x && all_rows p xs

newer_first-decides :
    (a b : Submission)
    → (newer_first a b ≡ true → newer_first a b ≡ true)
      × (newer_first a b ≡ false → newer_first b a ≡ true)
newer_first-decides a b = ground arith

-- The first of an ordered list is newer than all others.
newer_than_rest :
    (a : Submission) (xs : List Submission)
    → in_order newer_first (a ∷ xs) ≡ true
    → all_rows (newer_first a) xs ≡ true
unfolding in_order
newer_than_rest a [] h = refl
newer_than_rest a (b ∷ []) h = ground arith
newer_than_rest a (b ∷ c ∷ xs) h = ground (arith, newer_than_rest a (c ∷ xs))

tail-in_order :
    (a : Submission) (xs : List Submission)
    → in_order newer_first (a ∷ xs) ≡ true
    → in_order newer_first xs ≡ true
unfolding in_order
tail-in_order a [] h = refl
tail-in_order a (b ∷ xs) h = ground arith

-- All behind the cursor's row are below it, if no other has its id.
select_below :
    (x : Submission) (ys : List Submission)
    → all_rows (newer_first x) ys ≡ true
    → count_where (λ (y : Submission). y.id == x.id) ys ≡ 0
    → select_all (below x.created_at x.id) ys ≡ ys
unfolding select_all count_where
select_below x [] h u = refl
select_below x (y ∷ ys) h u =
    let here : below x.created_at x.id y ≡ true = ground arith in
    rw (here, select_below x ys (ground arith) (ground arith)) refl

-- The row with those before and behind it.
abbrev stands_in : Submission → List Submission → List Submission → List Submission
stands_in x xs ys = xs ++ x ∷ ys

all_rows_middle :
    (p : Submission → Bool) (x : Submission) (xs ys : List Submission)
    → all_rows p (stands_in x xs ys) ≡ true
    → p x ≡ true
all_rows_middle p x [] ys h = ground arith
all_rows_middle p x (z ∷ xs) ys h = all_rows_middle p x xs ys (ground arith)

-- Nothing before the cursor's row is below it, nor is the row itself.
select_split :
    (x : Submission) (xs ys : List Submission)
    → in_order newer_first (stands_in x xs ys) ≡ true
    → count_where (λ (y : Submission). y.id == x.id) (stands_in x xs ys) ≤ 1
    → select_all (below x.created_at x.id) (stands_in x xs ys) ≡ ys
unfolding select_all count_where
select_split x [] ys o u =
    let here : below x.created_at x.id x ≡ false = ground arith in
    rw here (select_below x ys (newer_than_rest x ys o) (ground arith))
select_split x (z ∷ xs) ys o u =
    let newer = all_rows_middle (newer_first z) x xs ys (newer_than_rest z (stands_in x xs ys) o) in
    let above : below x.created_at x.id z ≡ false = ground arith in
    rw above (select_split x xs ys (tail-in_order z (stands_in x xs ys) o) (omega (arith, u)))

-- The page at the cursor of any row has the rows behind it in the whole list, up to the limit: if no other
-- submission has its id, paging by cursor neither repeats nor leaves out a row.
pub page_rows_after :
    (event : Event) (query : SubmissionQuery) (d : Db) (x : Submission) (xs ys : List Submission)
    → matching event query d ≡ xs ++ x ∷ ys
    → count_where (λ (y : Submission). y.id == x.id) (matching event query d) ≤ 1
    → page_rows event
        (record query { before_created_at = some x.created_at; before_id = some x.id; offset = 0 })
        d
      ≡ limit query.limit ys
unfolding page_rows below_cursor matching in_filter offset
page_rows_after event query d x xs ys e u =
    let kept = select_all (in_filter event query d) d.submissions in
    let ordered : in_order newer_first (sort_by newer_first kept) ≡ true =
      in_order-sort_by newer_first newer_first newer_first-decides kept in
    rw e (ap (limit query.limit) (select_split x xs ys (rw e at ordered) (rw e at u)))
