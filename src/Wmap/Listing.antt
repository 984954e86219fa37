-- ===== src/Wmap/Listing.antt =====
-- `mygetpgdirinfo` and `mygetwmapinfo` of cs537/P4/xv6-public/wmap.c.
pub mod Order
use schoolwork.Common.{
  ℕ, zero, suc, ◌+◌, ◌*◌, ◌/◌, ◌^◌, bit_and, Bool, ◌&&◌, not, List, [], ◌∷◌, ltb, ◌==◌,
  if◌then◌else◌, length,
}
use schoolwork.Wmap.Vma.{Vma, Mappings}
use schoolwork.Wmap.Pages.{pte_addr}

abbrev pub max_upage_info : ℕ
max_upage_info = 32

abbrev pub max_wmmap_info : ℕ
max_wmmap_info = 16

abbrev pub npdentries : ℕ
npdentries = 1024

-- `PTE_P` and `PTE_U`
abbrev pub is_present : ℕ → Bool
is_present e = not (bit_and e 1 == 0)

abbrev pub is_user : ℕ → Bool
is_user e = not (bit_and e 4 == 0)

pub record PgdirInfo : Type 0 where
  pub n_upages : ℕ
  pub va : ℕ → ℕ
  pub pa : ℕ → ℕ

abbrev pub put_at : (ℕ → ℕ) → ℕ → ℕ → ℕ → ℕ
put_at f i x j = if i == j then x else f j

-- One entry of a table: it is counted, and recorded while there is room.
unfoldable pub list_page : PgdirInfo → ℕ → ℕ → PgdirInfo
list_page info va e =
    if is_present e && is_user e
    then record {
      n_upages = info.n_upages + 1;
      va = if ltb info.n_upages max_upage_info then put_at info.va info.n_upages va else info.va;
      pa =
          if ltb info.n_upages max_upage_info
          then put_at info.pa info.n_upages (pte_addr e)
          else info.pa;
    }
    else info

-- The loop over a table from the entry `j` on, for `n` rounds, and the one over the directory.
-- `n_upages` is the local `count`. `pgdir` is the directory and `pgtab` the tables by their
-- address.
module _ (pgdir : ℕ → ℕ) (pgtab : ℕ → ℕ → ℕ) where
  unfoldable pub list_table : PgdirInfo → ℕ → ℕ → ℕ → PgdirInfo
  unfolding list_page
  list_table info i zero j = info
  list_table info i (suc n) j =
      list_table (list_page info (i * 2 ^ 22 + j * 2 ^ 12) (pgtab (pte_addr (pgdir i)) j)) i n
        (j + 1)

  unfoldable pub list_directory : PgdirInfo → ℕ → ℕ → PgdirInfo
  unfolding list_table
  list_directory info zero i = info
  list_directory info (suc n) i =
      list_directory (if is_present (pgdir i) then list_table info i npdentries 0 else info) n
        (i + 1)

  unfoldable pub mygetpgdirinfo : PgdirInfo → PgdirInfo
  unfolding list_directory
  mygetpgdirinfo info = list_directory (record info { n_upages = 0 }) (npdentries / 2) 0

pub record WmapInfo : Type 0 where
  pub total_mmaps : ℕ
  pub addr : List ℕ
  pub length : List ℕ
  pub n_loaded_pages : List ℕ

-- The loop over the first `n` mappings from `i` on.
unfoldable pub fields_from : (Vma → ℕ) → (ℕ → Vma) → ℕ → ℕ → List ℕ
fields_from field v zero i = []
fields_from field v (suc n) i = field (v i) ∷ fields_from field v n (i + 1)

unfoldable pub mygetwmapinfo : Mappings → WmapInfo
unfolding fields_from
mygetwmapinfo p = record {
  total_mmaps = p.total_vmaps;
  addr = fields_from (λ a. a.addr) p.vmas max_wmmap_info 0;
  length = fields_from (λ a. a.length) p.vmas max_wmmap_info 0;
  n_loaded_pages = fields_from (λ a. a.num_loaded) p.vmas max_wmmap_info 0;
}
