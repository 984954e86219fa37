-- ===== src/Wmap/Tests.antt =====
-- Two mappings over a page table in which every page has an entry.
use schoolwork.Common.{
  ℕ, zero, suc, ◌+◌, ◌*◌, ◌/◌, ◌^◌, ◌≤◌, ◌<◌, ◌≡◌, refl, ◌⊎◌, inl, inr, some, arith, ◌==◌,
  if◌then◌else◌,
}
use schoolwork.Wmap.Vma.{kernbase, pgsize, Vma, Vmas, no_vma, Mappings, pgrounddown}
use schoolwork.Wmap.Place.{new_vma, mywmap, mapped_at, outside}
use schoolwork.Wmap.Order.{IsMapping, IsValid}
use schoolwork.Wmap.Fixed.{PutIn, IsFixed, mywmap_fixed}
use schoolwork.Wmap.Gap.{top, IsAnywhere, mywmap_anywhere}
use schoolwork.Wmap.Pages.{Pages, mywunmap, unmapped, exit_mappings, v2p}
use schoolwork.Wmap.Unmap.{IsPageTable}
use schoolwork.Wmap.RoundTrip.{Same, mywunmap-mywmap}
use schoolwork.Wmap.Exit.{exit_leaves_half}
use schoolwork.Wmap.Fault.{loaded, count_loaded, page_fault}
use schoolwork.Wmap.Fault.Choice.{page_fault_anonymous, page_fault_file}
use schoolwork.Wmap.Remap.{mywremap, remapped_at, expand_vma}
use schoolwork.Wmap.Remap.Length.{mywremap_expand}
use schoolwork.Wmap.Listing.{PgdirInfo, mygetpgdirinfo}
use schoolwork.Wmap.Listing.Order.{Lists, Ascending, user_pages, mygetpgdirinfo_lem}

-- Two pages of anonymous memory, and a page of the file 3 right behind them.
abbrev shared_memory : Vma
shared_memory = new_vma 0x60000000 8192 6 0

abbrev file_page : Vma
file_page = new_vma 0x60002000 100 2 3

abbrev two_vmas : Vmas
two_vmas zero = shared_memory
two_vmas (suc zero) = file_page
two_vmas (suc (suc k)) = no_vma

abbrev two : Mappings
two = record { vmas = two_vmas; total_vmaps = 2 }

shared_memory-IsMapping : IsMapping shared_memory
shared_memory-IsMapping = record {
  is_mapped = refl;
  low = omega arith;
  aligned = refl;
  positive = omega arith;
  ends = refl;
  high = omega arith;
}

file_page-IsMapping : IsMapping file_page
file_page-IsMapping = record {
  is_mapped = refl;
  low = omega arith;
  aligned = refl;
  positive = omega arith;
  ends = refl;
  high = omega arith;
}

two-IsMapping : (k : ℕ) → k < 2 → IsMapping (two_vmas k)
two-IsMapping zero lt = shared_memory-IsMapping
two-IsMapping (suc zero) lt = file_page-IsMapping
two-IsMapping (suc (suc k)) lt = absurd (omega arith)

two-sorted : (k : ℕ) → suc k < 2 → (two_vmas k).end_addr ≤ (two_vmas (suc k)).addr
two-sorted zero lt = omega arith
two-sorted (suc k) lt = absurd (omega arith)

two-blank : (k : ℕ) → 2 ≤ k → ((two_vmas k).mapped ≡ 0) × ((two_vmas k).addr ≡ 0)
two-blank zero le = absurd (omega arith)
two-blank (suc zero) le = absurd (omega arith)
two-blank (suc (suc k)) le = (refl, refl)

two-IsValid : IsValid two
two-IsValid = record {
  total = omega arith;
  mappings = two-IsMapping;
  sorted = two-sorted;
  unmapped = λ k h. (two-blank k h).0;
  blank = λ k h. (two-blank k h).1;
}

-- The entries by page. Pages are given out at one address, and files are not kept.
abbrev Table : Type 0
Table = ℕ → ℕ

abbrev tables : Pages Table
tables = record {
  entry = λ w a. some (w (a / pgsize));
  set_entry = λ w a x n. if n == a / pgsize then x else w n;
  writei = λ w f a n. w;
  readi = λ w f a n. w;
  kalloc = λ w. some (0x80100000, w);
  kfree = λ w a. w;
  memset = λ w a. w;
  memmove = λ w a b. w;
  mappages = λ w a b n. if n == a / pgsize then b + 7 else w n;
  kill = λ w. w;
}

tables-IsPageTable : IsPageTable tables
tables-IsPageTable = record {
  entry-set_same = λ w a e x h. ground arith;
  entry-set_other = λ w a b x ne. ground arith;
  entry-writei = λ w f a n b. refl;
  entry-kfree = λ w a b. refl;
}

abbrev loaded_pages : Table
loaded_pages n = n * pgsize + 7

two-no_ref : (k : ℕ) → (two_vmas k).ref ≡ 0
two-no_ref zero = refl
two-no_ref (suc zero) = refl
two-no_ref (suc (suc k)) = refl

exit_leaves_half_example :
    (q : Mappings) × (w' : Table) × (exit_mappings tables two loaded_pages 2 0 ≡ some (q, w'))
    × (q.total_vmaps ≡ 2 / 2)
    × ((k : ℕ) → k < q.total_vmaps → (q.vmas k).addr ≡ (two_vmas (2 * k + 1)).addr)
exit_leaves_half_example =
    exit_leaves_half tables tables-IsPageTable two-IsValid loaded_pages (omega arith) two-no_ref
      (λ k lt m lm. (loaded_pages (((two_vmas k).addr + m * pgsize) / pgsize), refl))

private-IsFixed : IsFixed 9
private-IsFixed = record { fixed = refl; not_none = refl; not_both = refl }

two-free :
    (k : ℕ) → k < 2 → ((two_vmas k).end_addr ≤ 0x60008000) ⊎ (0x60008000 + 5000 ≤ (two_vmas k).addr)
two-free zero lt = inl (omega arith)
two-free (suc zero) lt = inl (omega arith)
two-free (suc (suc k)) lt = absurd (omega arith)

mywmap_fixed_example :
    (q : Mappings) × (j : ℕ) × (mywmap two 0x60008000 5000 9 0 ≡ mapped_at 0x60008000 q)
    × IsValid q
    × PutIn two q j (new_vma 0x60008000 5000 9 0)
mywmap_fixed_example =
    mywmap_fixed two 0x60008000 5000 9 0 two-IsValid (omega arith) refl (omega arith) (omega arith)
      (omega arith) private-IsFixed two-free

mywunmap-mywmap_example :
    (q r : Mappings) × (w' : Table) × (mywmap two 0x60008000 5000 9 0 ≡ mapped_at 0x60008000 q)
    × (mywunmap tables q loaded_pages 0x60008000 ≡ unmapped r w')
    × IsValid r
    × (r.total_vmaps ≡ 2)
    × ((k : ℕ) → k < 2 → Same (r.vmas k) (two_vmas k))
mywunmap-mywmap_example =
    mywunmap-mywmap tables tables-IsPageTable two 0x60008000 5000 9 0 two-IsValid loaded_pages
      (omega arith) refl (omega arith) (omega arith) (omega arith) private-IsFixed two-free
      (λ m lt. (loaded_pages ((0x60008000 + m * pgsize) / pgsize), refl))

-- One mapping, at the second page of the region.
abbrev one_vmas : Vmas
one_vmas zero = new_vma 0x60001000 4096 6 0
one_vmas (suc k) = no_vma

abbrev one : Mappings
one = record { vmas = one_vmas; total_vmaps = 1 }

one-IsMapping : (k : ℕ) → k < 1 → IsMapping (one_vmas k)
one-IsMapping zero lt = record {
  is_mapped = refl;
  low = omega arith;
  aligned = refl;
  positive = omega arith;
  ends = refl;
  high = omega arith;
}
one-IsMapping (suc k) lt = absurd (omega arith)

one-blank : (k : ℕ) → 1 ≤ k → ((one_vmas k).mapped ≡ 0) × ((one_vmas k).addr ≡ 0)
one-blank zero le = absurd (omega arith)
one-blank (suc k) le = (refl, refl)

one-IsValid : IsValid one
one-IsValid = record {
  total = omega arith;
  mappings = one-IsMapping;
  sorted = λ k h. absurd (omega arith);
  unmapped = λ k h. (one-blank k h).0;
  blank = λ k h. (one-blank k h).1;
}

one-unseen :
    (k : ℕ)
    → k < 1
    → ((one_vmas k).end_addr ≤ 0x60000000)
      ⊎ ((0x60000000 + 16384 ≤ (one_vmas k).addr)
          ⊎ ((0x60000000 < (one_vmas k).addr) × ((one_vmas k).end_addr < 0x60000000 + 16384)))
one-unseen zero lt = inr (inr (omega arith, omega arith))
one-unseen (suc k) lt = absurd (omega arith)

private-IsAnywhere : IsAnywhere 5
private-IsAnywhere = record { anywhere = refl; not_none = refl; not_both = refl }

mywmap_anywhere_example :
    ((q : Mappings) × (j : ℕ) × (a : ℕ) × (mywmap two 0 5000 5 0 ≡ mapped_at a q)
      × IsValid q
      × PutIn two q j (new_vma a 5000 5 0))
    ⊎ ((mywmap two 0 5000 5 0 ≡ outside) × (kernbase ≤ top two + 5000 + 4095))
mywmap_anywhere_example =
    mywmap_anywhere two 0 5000 5 0 two-IsValid (omega arith) (omega arith) (omega arith)
      private-IsAnywhere

page_fault_anonymous_example :
    page_fault tables two loaded_pages 0x60001004
    ≡ loaded
        (count_loaded two 0)
        (tables.mappages loaded_pages (pgrounddown 0x60001004) (v2p 0x80100000))
page_fault_anonymous_example =
    page_fault_anonymous tables two-IsValid loaded_pages loaded_pages 0x80100000 refl 0x60001004 0
      (omega arith) (omega arith) (omega arith) refl

page_fault_file_example :
    page_fault tables two loaded_pages 0x60002010
    ≡ loaded
        (count_loaded two 1)
        (tables.mappages loaded_pages (pgrounddown 0x60002010 + 1 * pgsize) (v2p 0x80100000))
page_fault_file_example =
    page_fault_file tables two-IsValid loaded_pages loaded_pages 0x80100000 refl 0x60002010 1
      (omega arith) (omega arith) (omega arith) refl

mywremap_expand_example :
    (mywremap tables two loaded_pages 0x60002000 100 9000 0
      ≡ remapped_at 0x60002000 (expand_vma two 1 9000) loaded_pages)
    × IsValid (expand_vma two 1 9000)
mywremap_expand_example =
    mywremap_expand two-IsValid 1 9000 (omega arith) (omega arith) tables loaded_pages 0
      (omega arith) (omega arith) (omega arith) (omega arith) (λ h. absurd (omega arith))

abbrev blank_info : PgdirInfo
blank_info = record { n_upages = 0; va = λ k. 0; pa = λ k. 0 }

mygetpgdirinfo_lem_example :
    Lists
      (mygetpgdirinfo (λ i. i * pgsize + 1) (λ a j. j * pgsize + 7) blank_info)
      (user_pages (λ i. i * pgsize + 1) (λ a j. j * pgsize + 7) 512 0)
    × Ascending 0 (2 ^ 31) (user_pages (λ i. i * pgsize + 1) (λ a j. j * pgsize + 7) 512 0)
mygetpgdirinfo_lem_example =
    mygetpgdirinfo_lem (λ i. i * pgsize + 1) (λ a j. j * pgsize + 7) blank_info
