-- ===== src/Wmap/Vma.antt =====
-- The array of mappings of a process (`struct vma` of proc.h, and `copy_vma_struct` and
-- `right_shift_vmas` of wmap.c). An `int` or a `uint` is its 32-bit pattern.
use schoolwork.Common.{ℕ, zero, suc, ◌+◌, ◌-◌, ◌*◌, ◌/◌, ◌%◌, ◌^◌, ◌==◌, if◌then◌else◌, length}

abbrev pub max_vmaps : ℕ
max_vmaps = 16

abbrev pub wmap_base : ℕ
wmap_base = 0x60000000

abbrev pub kernbase : ℕ
kernbase = 0x80000000

abbrev pub pgsize : ℕ
pgsize = 4096

-- `struct vma`. A file is a number, 0 for none.
pub record Vma : Type 0 where
  pub addr : ℕ
  pub end_addr : ℕ
  pub length : ℕ
  pub flags : ℕ
  pub f : ℕ
  pub mapped : ℕ
  pub num_loaded : ℕ
  pub ref : ℕ

abbrev pub no_vma : Vma
no_vma = record {
  addr = 0;
  end_addr = 0;
  length = 0;
  flags = 0;
  f = 0;
  mapped = 0;
  num_loaded = 0;
  ref = 0;
}

-- `vmas`, by index.
abbrev pub Vmas : Type 0
Vmas = ℕ → Vma

-- `total_vmaps` goes with the array.
pub record Mappings : Type 0 where
  pub vmas : Vmas
  pub total_vmaps : ℕ

abbrev pub put_vma : Vmas → ℕ → Vma → Vmas
put_vma v i a j = if i == j then a else v j

-- All fields but `num_loaded`.
abbrev pub copy_vma_struct : Vma → Vma → Vma
copy_vma_struct vma1 vma2 = record vma2 { num_loaded = vma1.num_loaded }

-- The loop of `right_shift_vmas` above the index `at`, with `n` entries to move.
unfoldable pub shift_right : Vmas → ℕ → ℕ → Vmas
shift_right v at zero = v
shift_right v at (suc n) =
    shift_right (put_vma v (at + suc n) (copy_vma_struct (v (at + suc n)) (v (at + n)))) at n

-- `right_shift_vmas`, where `at` is its `i + 1`.
unfoldable pub right_shift_vmas : Mappings → ℕ → ℕ → ℕ → Vmas
unfolding shift_right
right_shift_vmas p at wmapaddr length =
    let v = shift_right p.vmas at (p.total_vmaps - at) in
    put_vma v at (record (v at) { addr = wmapaddr; length = length })

-- `PGROUNDUP` and `PGROUNDDOWN`
abbrev pub pgroundup : ℕ → ℕ
pgroundup sz = (sz + 4095) % 2 ^ 32 / pgsize * pgsize

abbrev pub pgrounddown : ℕ → ℕ
pgrounddown a = a / pgsize * pgsize

-- a - b, as a `uint`.
abbrev pub minus : ℕ → ℕ → ℕ
minus a b = (a + (2 ^ 32 - b)) % 2 ^ 32

abbrev pub plus : ℕ → ℕ → ℕ
plus a b = (a + b) % 2 ^ 32
