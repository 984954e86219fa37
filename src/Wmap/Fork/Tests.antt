-- ===== src/Wmap/Fork/Tests.antt =====
-- A shared mapping of two pages, and two page tables.
use schoolwork.Common.{ℕ, ◌+◌, ◌*◌, ◌/◌, ◌<◌, ◌≡◌, refl, none, some, arith, ◌==◌, if◌then◌else◌}
use schoolwork.Wmap.Vma.{pgsize, Vma}
use schoolwork.Wmap.Place.{new_vma}
use schoolwork.Wmap.Order.{IsMapping}
use schoolwork.Wmap.Pages.{Pages, rounded_pages}
use schoolwork.Wmap.Fork.{forked, fork_vma}
use schoolwork.Wmap.Fork.Shared.{IsChildTable, SharesPage, fork_vma-SharesPage}

-- The entries by page, of the parent and of the child.
abbrev Tables : Type 0
Tables = (ℕ → ℕ) × (ℕ → ℕ)

abbrev with_entry : (ℕ → ℕ) → ℕ → ℕ → ℕ → ℕ
with_entry t a x n = if n == a / pgsize then x else t n

abbrev parent_pages : Pages Tables
parent_pages = record {
  entry = λ w a. some (w.0 (a / pgsize));
  set_entry = λ w a x. (with_entry w.0 a x, w.1);
  writei = λ w f a n. w;
  readi = λ w f a n. w;
  kalloc = λ w. none;
  kfree = λ w a. w;
  memset = λ w a. w;
  memmove = λ w a b. w;
  mappages = λ w a b. (with_entry w.0 a b, w.1);
  kill = λ w. w;
}

abbrev child_pages : Pages Tables
child_pages = record parent_pages {
  entry = λ w a. some (w.1 (a / pgsize));
  set_entry = λ w a x. (w.0, with_entry w.1 a x);
  mappages = λ w a b. (w.0, with_entry w.1 a (b / pgsize * pgsize + 7));
}

-- A machine that has four pages left for tables whatever happens.
abbrev four : Tables → ℕ
four w = 4

child_pages-IsChildTable : IsChildTable parent_pages child_pages four
child_pages-IsChildTable = record {
  parent_kept = λ w a pa b. refl;
  mapped =
      λ w a pa b e free blank. (pa / pgsize * pgsize + 7, ground arith, omega arith, omega arith);
  present = λ w a pa b e ne is odd. ground arith;
  absent = λ w a pa b ne blank e is. blank e (ground arith);
  one_page = λ w a pa. omega arith;
}

abbrev shared : Vma
shared = new_vma 0x60000000 8192 2 3

shared-IsMapping : IsMapping shared
shared-IsMapping = record {
  is_mapped = refl;
  low = omega arith;
  aligned = refl;
  positive = omega arith;
  ends = refl;
  high = omega arith;
}

-- Of the two pages the parent has loaded the first.
abbrev begun : Tables
begun = (λ n. if n == 0x60000 then 0x80107 else 0, λ n. 0)

fork_vma-SharesPage_example :
    (w' : Tables) × (fork_vma parent_pages child_pages begun shared
      ≡ forked (record shared { ref = 1 }) w')
    × ((m : ℕ)
        → m < rounded_pages 8192
        → SharesPage parent_pages child_pages four child_pages-IsChildTable begun w'
            (0x60000000 + m * pgsize))
fork_vma-SharesPage_example =
    fork_vma-SharesPage parent_pages child_pages four child_pages-IsChildTable begun shared
      shared-IsMapping refl (λ m lt. (begun.0 ((0x60000000 + m * pgsize) / pgsize), refl))
      (omega arith) (λ m lt e is. ground (arith, is))
