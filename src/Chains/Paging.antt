-- ===== src/Chains/Paging.antt =====
-- The loop over the pages of an answer, as internal/chains/tron/watcher.go and ton/watcher.go have it.
pub mod Saves
use frpay.Prelude.{
  ◌⊎◌, inl, inr, [], ℕ, zero, suc, ◌≡◌, refl, Bool, true, false, Option, none, some, List, ◌++◌,
}
use frpay.Store.{IsPreorder, DbError, Result, ok, err}

-- A page; none is the loop's `break` after it, and else the key of the page that follows.
pub record Page (K V : Type 0) : Type 0 where
  pub items : List V
  pub next : Option K

-- How a scan ends.
pub data PageScan : Type 0 where
  scanned nothing_new fetch_failed : PageScan
  load_cursor_failed save_cursor_failed : DbError → PageScan

-- SetCursor, at the end of a scan.
unfoldable pub save_result : Result DbError Unit → PageScan
save_result (ok _) = scanned
save_result (err e) = save_cursor_failed e

module _ {K V S : Type 0} (get : K → Option (Page K V)) (handle : List V → S → S) where
  unfoldable pub turn : (K → S → Bool × S) → Option K → S → Bool × S
  turn again none s = (true, s)
  turn again (some k) s = again k s

  unfoldable pub handle_page : (K → S → Bool × S) → Option (Page K V) → S → Bool × S
  unfolding turn
  handle_page again none s = (false, s)
  handle_page again (some page) s = turn again page.next (handle page.items s)

  -- The loop, with `left` pages to go; whether every request was answered.
  unfoldable pub fetch_pages : ℕ → K → S → Bool × S
  unfolding handle_page
  fetch_pages zero k s = (true, s)
  fetch_pages (suc left) k s = handle_page (fetch_pages left) (get k) s

-- At most `n` pages from the key on hold these items, and the last of them is the last of all, or the
-- `n`-th.
pub data Reads {K V : Type 0} (get : K → Option (Page K V)) : ℕ → K → List V → Type 0 where
  at_limit : {k : K} → Reads get zero k []
  last_page :
      {n : ℕ} {k : K} (page : Page K V)
      → get k ≡ some page
      → page.next ≡ none
      → Reads get (suc n) k page.items
  more_pages :
      {n : ℕ} {k : K} (page : Page K V) {k' : K} {vs : List V}
      → get k ≡ some page
      → page.next ≡ some k'
      → Reads get n k' vs
      → Reads get (suc n) k (page.items ++ vs)

module _ {K V S : Type 0} (get : K → Option (Page K V)) (handle : List V → S → S)
    (nothing : (s : S) → handle [] s ≡ s)
    (append : (xs ys : List V) (s : S) → handle (xs ++ ys) s ≡ handle ys (handle xs s)) where
  -- The loop comes to handling all items of the pages at once.
  pub fetch_pages-Reads :
      {n : ℕ} {k : K} {vs : List V} (s : S)
      → Reads get n k vs
      → fetch_pages get handle n k s ≡ (true, handle vs s)
  unfolding fetch_pages handle_page turn
  fetch_pages-Reads s at_limit = rw (nothing s) refl
  fetch_pages-Reads s (last_page page e last) = rw (e, last) refl
  fetch_pages-Reads s (more_pages page {vs} e next rest) =
      rw (e, next, fetch_pages-Reads (handle page.items s) rest, append page.items vs s) refl

module _ {K V S : Type 0} (get : K → Option (Page K V)) (handle : List V → S → S) where
  by_next :
      (n : ℕ) (k : K) (s : S) (page : Page K V)
      → get k ≡ some page
      → (next : Option K) → page.next ≡ next
      → ((k' : K)
          → ((fetch_pages get handle n k' (handle page.items s)).0 ≡ false)
            ⊎ ((vs : List V) × Reads get n k' vs))
      → ((turn get handle (fetch_pages get handle n) next (handle page.items s)).0 ≡ false)
        ⊎ ((vs : List V) × Reads get (suc n) k vs)
  unfolding turn
  by_next n k s page e none last rest = inr (page.items, last_page page e last)
  by_next n k s page e (some k') next rest = elim (rest k') [
    | inl failed ↦ inl failed
    | inr (vs, r) ↦ inr (page.items ++ vs, more_pages page e next r)
  ]

  by_page :
      (n : ℕ) (k : K) (s : S) (answer : Option (Page K V))
      → get k ≡ answer
      → ((k' : K) (page : Page K V)
          → ((fetch_pages get handle n k' (handle page.items s)).0 ≡ false)
            ⊎ ((vs : List V) × Reads get n k' vs))
      → ((handle_page get handle (fetch_pages get handle n) answer s).0 ≡ false)
        ⊎ ((vs : List V) × Reads get (suc n) k vs)
  unfolding handle_page
  by_page n k s none e rest = inl refl
  by_page n k s (some page) e rest = by_next n k s page e page.next refl (λ k'. rest k' page)

  -- Either some page could not be fetched, or the pages hold some items.
  pub fetch_pages-cases :
      (n : ℕ) (k : K) (s : S)
      → ((fetch_pages get handle n k s).0 ≡ false) ⊎ ((vs : List V) × Reads get n k vs)
  unfolding fetch_pages
  fetch_pages-cases zero k s = inr ([], at_limit)
  fetch_pages-cases (suc n) k s =
      by_page n k s (get k) refl (λ k' page. fetch_pages-cases n k' (handle page.items s))

-- What handling a page keeps, the loop keeps.
module _ {K V S : Type 0} (get : K → Option (Page K V)) (handle : List V → S → S)
    (R : S → S → Type 0) (pre : IsPreorder R)
    (handled : (vs : List V) (s : S) → R s (handle vs s)) where
  turn_by :
      (again : K → S → Bool × S) (next : Option K) (s : S)
      → ((k : K) (s : S) → R s (again k s).1)
      → R s (turn get handle again next s).1
  unfolding turn
  turn_by again none s h = pre.reflexive s
  turn_by again (some k) s h = h k s

  handle_page_by :
      (again : K → S → Bool × S) (answer : Option (Page K V)) (s : S)
      → ((k : K) (s : S) → R s (again k s).1)
      → R s (handle_page get handle again answer s).1
  unfolding handle_page
  handle_page_by again none s h = pre.reflexive s
  handle_page_by again (some page) s h =
      pre.transitive s _ _ (handled page.items s) (turn_by again page.next _ h)

  pub fetch_pages_by : (n : ℕ) (k : K) (s : S) → R s (fetch_pages get handle n k s).1
  unfolding fetch_pages
  fetch_pages_by zero k s = pre.reflexive s
  fetch_pages_by (suc n) k s = handle_page_by _ (get k) s (fetch_pages_by n)
