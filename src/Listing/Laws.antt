-- ===== src/Listing/Laws.antt =====
-- Pages that are read one after the other give the whole list.
use native.Mathlib.Nat.{suc-mul}
use sync_bridge_platform.Base.{
  ℕ, zero, suc, ◌-◌, ◌*◌, ◌≤◌, List, [], ◌≡◌, refl, sym, ap, ◌∙◌, arith, take, drop, length,
  latest_first, length-latest_first, take-append-drop, take_whole,
}
use sync_bridge_platform.Listing.{PaginatedResponse, page_of, no_page, read_pages}

take-nil : {A : Type 0} (n : ℕ) → take {A = A} n [] ≡ []
take-nil zero = refl
take-nil (suc n) = refl

drop-nil : {A : Type 0} (n : ℕ) → drop {A = A} n [] ≡ []
drop-nil zero = refl
drop-nil (suc n) = refl

-- Every page of no rows is empty.
pub page_of-nil : {R : Type 0} (page limit : ℕ) → page_of {R = R} page limit [] ≡ no_page page limit
unfolding page_of
page_of-nil page limit = simp (drop-nil, take-nil)

suc-sub-one : (n : ℕ) → suc n - 1 ≡ n
suc-sub-one n = omega arith

module _ {R : Type 0} (limit : ℕ) (rows : List R) (answer : ℕ → PaginatedResponse R)
    (paged : (page : ℕ) → (answer page).items ≡ (page_of page limit rows).items) where
  read_pages-take : (n : ℕ) → read_pages answer n ≡ take (n * limit) (latest_first rows)
  unfolding read_pages page_of
  read_pages-take zero =
      let none_yet : 0 ≡ 0 * limit = omega arith in ap (λ k. take k (latest_first rows)) none_yet
  read_pages-take (suc n) =
      rw (read_pages-take n, paged (suc n), suc-sub-one n)
        (take-append-drop (n * limit) limit (latest_first rows)
          ∙ ap (λ k. take k (latest_first rows)) (sym (suc-mul n limit)))

  pub read_pages-all : (n : ℕ) → length rows ≤ n * limit → read_pages answer n ≡ latest_first rows
  read_pages-all n enough =
      read_pages-take n
      ∙ take_whole (latest_first rows) (n * limit) (omega (arith, length-latest_first rows))
