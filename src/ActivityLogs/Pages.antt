-- ===== src/ActivityLogs/Pages.antt =====
-- ActivityLogs.jsx: the pages of the table and the buttons below it.
use hotel_ms.Common.{
  ℕ, zero, suc, ◌+◌, ◌/◌, ◌≤◌, ◌<◌, min, ◌≡◌, refl, sym, ap, subst, ◌∷◌, length, In, here, there,
  Bool-cases, inl, inr, ◌==◌, arith,
}
use hotel_ms.ActivityLogs.{Logs, total_pages, page_buttons, window_start, count_from, build_params}

In-count_from : (start n k : ℕ) → start ≤ k → k < start + n → In k (count_from start n)
In-count_from start zero k h l = absurd (omega arith)
In-count_from start (suc n) k h l = elim (Bool-cases (start == k)) [
  | inl e ↦ subst (λ b. In k (b ∷ count_from (start + 1) n)) (sym (ground (arith, e))) here
  | inr e ↦ there (In-count_from (start + 1) n k (ground (arith, e)) (omega arith))
]

count_from-In : (start n : ℕ) {k : ℕ} → In k (count_from start n) → (start ≤ k) × (k < start + n)
count_from-In start zero m = elim m [ ]
count_from-In start (suc n) here = (omega arith, omega arith)
count_from-In start (suc n) (there m) =
    let (h, l) = count_from-In (start + 1) n m in (omega (arith, h), omega (arith, l))

length-count_from : (start n : ℕ) → length (count_from start n) ≡ n
length-count_from start zero = refl
length-count_from start (suc n) = ap suc (length-count_from (start + 1) n)

-- On a page that exists, the buttons with numbers are at most five, the page's own among them, and
-- each leads to a page that exists.
pub page_buttons_lem :
    (s : Logs)
    → s.page < total_pages s
    → (length (page_buttons s) ≡ min 5 (total_pages s))
      × In s.page (page_buttons s)
      × ((p : ℕ) → In p (page_buttons s) → p < total_pages s)
unfolding page_buttons window_start total_pages
page_buttons_lem s h = (
  length-count_from _ _,
  In-count_from _ _ s.page (omega arith) (omega arith),
  λ p m. let (a, b) = count_from-In _ _ m in omega (arith, a, b, h),
)

-- Every entry of the server's list stands on a page that exists, among the fifty that this page
-- asks for.
pub entry_has_page :
    (i : ℕ) (s : Logs)
    → i < s.total
    → let q = build_params (record s { page = i / 50 }) in
      (i / 50 < total_pages s) × (q.offset ≤ i) × (i < q.offset + q.limit)
unfolding build_params total_pages
entry_has_page i s h = (omega arith, omega arith, omega arith)
