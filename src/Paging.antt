-- ===== src/Paging.antt =====
-- `paginator` of libs/common/src/common.utils.ts, for page numbers and page sizes that are whole
-- numbers from 0 on; 0 stands for all that `Number(…) ||` replaces.
pub mod Pages
use confirmd_platform.Common.{
  ℕ, ◌+◌, ◌-◌, ◌*◌, ◌/◌, Bool, true, false, Option, none, some, List, length, take, drop, ltb, ◌==◌,
  if◌then◌else◌,
}

pub record Page {ℓ} (A : Type ℓ) : Type ℓ where
  pub page : ℕ
  pub page_size : ℕ
  pub previous_page : Option ℕ
  pub next_page : Option ℕ
  pub total_items : ℕ
  pub last_page : ℕ
  pub data_of_page : List A

-- `Number(n) || default`
abbrev pub number_or : ℕ → ℕ → ℕ
number_or n default = if n == 0 then default else n

-- `Math.ceil(n / per_page)`, where `per_page` is not 0.
abbrev pub ceil_div : ℕ → ℕ → ℕ
ceil_div n per_page = (n + (per_page - 1)) / per_page

unfoldable pub paginator {ℓ} : {A : Type ℓ} → List A → (current_page items_per_page : ℕ) → Page A
paginator items current_page items_per_page =
    let page = number_or current_page 1 in
    let per_page = number_or items_per_page 10 in
    let offset = (page - 1) * per_page in
    let total_pages = ceil_div (length items) per_page in
    record {
      page = page;
      page_size = per_page;
      previous_page = if ltb 1 page then some (page - 1) else none;
      next_page = if ltb page total_pages then some (page + 1) else none;
      total_items = length items;
      last_page = total_pages;
      data_of_page = take per_page (drop offset items);
    }
