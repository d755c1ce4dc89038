-- ===== src/Hotels/Retry.antt =====
-- Hotels.jsx `fetchHotels`: the repeated requests.
use hotel_ms.Common.{ℕ, zero, suc, ◌<◌, ◌≡◌, true, false, List, [], ◌∷◌, length, arith}
use hotel_ms.Hotels.{Answer, listed, failed, with_second, attempt, fetch_hotels}

-- What a list does as the first answer, as the second and as the third.
listed_at :
    (shown : List ℕ) (first : ℕ → Answer) (second : Answer) (k : ℕ) (hotels : List ℕ)
    → k < 3
    → ((j : ℕ) → j < k → first j ≡ failed)
    → first k ≡ listed hotels
    → let o = fetch_hotels shown first second in
      (o.hotels ≡ with_second hotels second) × (o.hotels_error ≡ false) × (length o.waits ≡ k)
unfolding fetch_hotels attempt
listed_at shown first second zero hotels h f e = ground (arith, e)
listed_at shown first second (suc zero) hotels h f e = ground (arith, e, f 0 (omega arith))
listed_at shown first second (suc (suc zero)) hotels h f e =
    ground (arith, e, f 0 (omega arith), f 1 (omega arith))
listed_at shown first second (suc (suc (suc k))) hotels h f e = absurd (omega arith)

-- The loading ends. Three failures end in an error, after waits of 1.5 and 3 seconds, and leave the
-- hotels as they were; otherwise the
-- first answer that is not a failure decides: a list is shown, with the second page behind it if that
-- comes.
pub fetch_hotels_lem :
    (shown : List ℕ) (first : ℕ → Answer) (second : Answer)
    → let o = fetch_hotels shown first second in
      (o.hotels_loading ≡ false)
      × (first 0 ≡ failed
          → first 1 ≡ failed
          → first 2 ≡ failed
          → (o.hotels_error ≡ true) × (o.hotels ≡ shown) × (o.waits ≡ 1500 ∷ 3000 ∷ []))
      × ((k : ℕ) (hotels : List ℕ)
          → k < 3
          → ((j : ℕ) → j < k → first j ≡ failed)
          → first k ≡ listed hotels
          → (o.hotels ≡ with_second hotels second)
            × (o.hotels_error ≡ false)
            × (length o.waits ≡ k))
unfolding fetch_hotels attempt
fetch_hotels_lem shown first second = (
  ground arith,
  λ a b c. ground (arith, a, b, c),
  λ k hotels. listed_at shown first second k hotels,
)
