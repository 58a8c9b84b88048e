-- ===== src/Listing.antt =====
-- Listings by pages, as the services answer them: `skip`, `take` and the number of all rows.
pub mod Laws
use sync_bridge_platform.Base.{
  ℕ, zero, suc, ◌-◌, ◌*◌, List, [], ◌++◌, Option, take, drop, length, latest_first,
}

-- `page` and `limit` of a query, from 1 on, and the status asked for.
pub record ListQuery (S : Type 0) : Type 0 where
  pub page : Option ℕ
  pub limit : Option ℕ
  pub status : Option S

pub record PaginatedResponse (R : Type 0) : Type 0 where
  pub items : List R
  pub page : ℕ
  pub limit : ℕ
  pub total : ℕ

module _ {R : Type 0} where
  -- `findMany({ orderBy: { createdAt: 'desc' }, skip, take })` with `count`, of the rows that the filter
  -- lets through.
  unfoldable pub page_of : ℕ → ℕ → List R → PaginatedResponse R
  page_of page limit rows = record {
    items = take limit (drop ((page - 1) * limit) (latest_first rows));
    page = page;
    limit = limit;
    total = length rows;
  }

  abbrev pub no_page : ℕ → ℕ → PaginatedResponse R
  no_page page limit = record { items = []; page = page; limit = limit; total = 0 }

  -- What a client has read that asked for the pages 1 to `n`.
  unfoldable pub read_pages : (ℕ → PaginatedResponse R) → ℕ → List R
  read_pages answer zero = []
  read_pages answer (suc n) = read_pages answer n ++ (answer (suc n)).items
