-- ===== src/Wishlist.antt =====
-- frontend/react-app/src/contexts/WishlistContext.jsx: the set of saved rooms, with an optimistic
-- toggle. A set is the list of its elements; a request that is under way stands in `pending` with
-- what the handler remembers of it.
pub mod Toggle
mod Tests
use hotel_ms.Common.{
  ℕ, zero, suc, ◌==◌, if◌then◌else◌, Bool, true, false, not, ◌||◌, List, [], ◌∷◌, ◌++◌, Option,
  none, some, filter, any, get_elem?,
}

-- `set.has(x)`, and a copy of the set with an element added or deleted.
abbrev pub has : ℕ → List ℕ → Bool
has x ids = any (λ y. y == x) ids

abbrev pub add : ℕ → List ℕ → List ℕ
add x ids = if has x ids then ids else ids ++ x ∷ []

abbrev pub delete : ℕ → List ℕ → List ℕ
delete x ids = filter (λ y. not (y == x)) ids

pub record Request : Type 0 where
  pub room : ℕ
  pub was_saved : Bool

pub record Wishlist : Type 0 where
  pub is_authenticated : Bool
  pub saved_ids : List ℕ
  pub loading : Bool
  pub pending : List Request

abbrev pub is_saved : ℕ → Wishlist → Bool
is_saved x s = has x s.saved_ids

-- `load` up to its request; without a user it empties the set and asks nothing.
unfoldable pub load : Wishlist → Wishlist
load s = if not s.is_authenticated then record s { saved_ids = [] } else record s { loading = true }

-- `new Set(rooms)`
abbrev pub new_set : List ℕ → List ℕ
new_set [] = []
new_set (x ∷ xs) = x ∷ delete x (new_set xs)

-- Its answer: the rooms of the response, or an error, which is ignored.
unfoldable pub loaded : Option (List ℕ) → Wishlist → Wishlist
loaded none s = record s { loading = false }
loaded (some rooms) s = record s { saved_ids = new_set rooms; loading = false }

-- `toggle` up to its request. It returns false at once if nobody is signed in.
unfoldable pub toggle : ℕ → Wishlist → Wishlist
toggle x s =
    if not s.is_authenticated
    then s
    else (let was = has x s.saved_ids in
        record s {
          saved_ids = if was then delete x s.saved_ids else add x s.saved_ids;
          pending = s.pending ++ record { room = x; was_saved = was } ∷ [];
        })

-- The catch block.
unfoldable pub revert : Request → Wishlist → Wishlist
revert r s = record s {
  saved_ids = if r.was_saved then add r.room s.saved_ids else delete r.room s.saved_ids;
}

abbrev pub remove_at : List Request → ℕ → List Request
remove_at [] n = []
remove_at (r ∷ rs) zero = rs
remove_at (r ∷ rs) (suc n) = r ∷ remove_at rs n

-- The n-th pending request is answered.
unfoldable pub settle : ℕ → Bool → Wishlist → Wishlist
unfolding revert
settle n success s = elim (get_elem? s.pending n) [
  | none ↦ s
  | some r ↦
      (let done = record s { pending = remove_at s.pending n } in
        if success then done else revert r done)
]
