-- ===== src/Paging.antt =====
-- The paging of the list pages: `Math.ceil(list.length / pageSize)` and the slice of a page.
pub mod Laws
use edge_guardian.Base.{ℕ, ◌+◌, ◌-◌, ◌*◌, ◌/◌, List, slice}

-- The number of pages; the size of a page is positive.
abbrev pub total_pages : ℕ → ℕ → ℕ
total_pages count page_size = (count + page_size - 1) / page_size

-- `list.slice(page * pageSize, (page + 1) * pageSize)`
unfoldable pub page_of {ℓ} : {A : Type ℓ} → ℕ → ℕ → List A → List A
page_of page page_size list = slice (page * page_size) ((page + 1) * page_size) list
