-- ===== src/Paging/Laws.antt =====
-- The pages of a list cut it up: nothing is lost, repeated or out of order.
use edge_guardian.Base.{
  drop-drop, drop_all, ℕ, zero, suc, ◌+◌, ◌-◌, ◌*◌, ◌≤◌, ◌<◌, ◌≡◌, refl, ap, sym, ◌∙◌, List, [],
  ◌++◌, length, slice, drop, take-append-drop, length-slice, arith, min,
}
use native.Mathlib.Nat.{div-mul-le_self, lt-div-mul-add, mul-le-mul_right}
use edge_guardian.Paging.{total_pages, page_of}

pub total_pages-enough : (n size : ℕ) → 0 < size → n ≤ (0 + total_pages n size) * size
total_pages-enough n size h = omega (arith, lt-div-mul-add {a = n + size - 1} h)

-- A page below the number of pages starts inside the list.
pub page_start : (n size page : ℕ) → 0 < size → page < total_pages n size → page * size < n
page_start n size page h lt =
    let below : suc page * size ≤ total_pages n size * size = mul-le-mul_right size lt in
    omega (arith, div-mul-le_self (n + size - 1) size)

module _ {ℓ} {A : Type ℓ} where
  -- The pages from `page` on, one after the other.
  unfoldable pub pages_from : ℕ → ℕ → ℕ → List A → List A
  pages_from zero page size xs = []
  pages_from (suc n) page size xs = page_of page size xs ++ pages_from n (page + 1) size xs

  pub pages_from-drop :
      (n page size : ℕ) (xs : List A)
      → length xs ≤ (page + n) * size
      → pages_from n page size xs ≡ drop (page * size) xs
  unfolding pages_from page_of slice
  pages_from-drop zero page size xs h = sym (drop_all (page * size) xs (omega arith))
  pages_from-drop (suc n) page size xs h =
      let step = pages_from-drop n (page + 1) size xs (omega arith) in
      let next : (page + 1) * size ≡ page * size + ((page + 1) * size - page * size) =
        omega arith in
      let rest = drop-drop ((page + 1) * size - page * size) (page * size) xs in
      ap (◌++◌ (page_of page size xs)) (step ∙ ap (λ k. drop k xs) next ∙ sym rest)
      ∙ take-append-drop ((page + 1) * size - page * size) (drop (page * size) xs)

  -- The length of a page.
  pub length-page_of :
      (page size : ℕ) (xs : List A)
      → length (page_of page size xs) ≡ min size (length xs - page * size)
  unfolding page_of
  length-page_of page size xs = grind (arith, length-slice (page * size) ((page + 1) * size) xs)

  -- The pages from 0 up to the number of pages, one after the other, are the whole list; and a
  -- page, whichever it is, holds what there is from its start on, up to the size of a page.
  pub pages_from-all :
      (size page : ℕ) (xs : List A)
      → 0 < size
      → (pages_from (total_pages (length xs) size) 0 size xs ≡ xs)
        × (length (page_of page size xs) ≡ min size (length xs - page * size))
  pages_from-all size page xs h = (
    pages_from-drop (total_pages (length xs) size) 0 size xs (total_pages-enough (length xs) size h)
        ∙ ap (λ k. drop k xs) {y = 0} (omega arith)
        ∙ unfold drop in refl,
    length-page_of page size xs,
  )
