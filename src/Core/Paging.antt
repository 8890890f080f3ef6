-- ===== src/Core/Paging.antt =====
-- The pagination that topic.Service.List and group.Service.List share, word for word:
-- internal/service/topic/service.go and internal/service/group/service.go.
pub mod Laws
use kafka3o_gateway.Prelude.{
  ℕ, ◌-◌, ℤ, pos, ◌+ℤ◌, ◌-ℤ◌, ltb_ℤ, leb_ℤ, pos_part, Bool, ◌||◌, Option, none, some, List, [],
  length, take, drop, if◌then◌else◌,
}
use kafka3o_gateway.Prelude.Machine.{wrap, ◌*ℤ◌}

-- ListPage
pub record ListPage : Type 0 where
  pub page : ℤ
  pub page_size : ℤ
  pub total : ℕ

abbrev min_ℤ : ℤ → ℤ → ℤ
min_ℤ a b = if leb_ℤ a b then a else b

-- `start`
unfoldable pub page_start : ℤ → ℤ → ℤ
page_start page page_size = wrap (wrap (page -ℤ pos 1) *ℤ page_size)

-- From `start` on; `none` is the panic of `make` on a negative length.
unfoldable pub rows_from {ℓ} : {A : Type ℓ} → ℤ → ℤ → List A → Option (List A)
rows_from start page_size rows =
    let total = pos (length rows) in
    let stop = min_ℤ (wrap (start +ℤ page_size)) total in
    if ltb_ℤ start (pos 0) || leb_ℤ total start
    then some []
    else if ltb_ℤ stop start
    then none
    else some (take (pos_part (stop -ℤ start)) (drop (pos_part start) rows))

-- The rows of the page in the sorted list.
unfoldable pub page_rows {ℓ} : {A : Type ℓ} → ℤ → ℤ → List A → Option (List A)
unfolding page_start rows_from
page_rows page page_size = rows_from (page_start page page_size) page_size
