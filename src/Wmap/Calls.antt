-- ===== src/Wmap/Calls.antt =====
-- The system calls of the mappings in cs537/P4/xv6-public/sysfile.c. An argument is what `argint`
-- reads, as its 32-bit pattern, or none where it fails; a file is what `argfd` finds.
use schoolwork.Common.{
  ℕ, ◌^◌, bit_and, Bool, ◌&&◌, not, Option, none, some, ltb, ◌==◌, if◌then◌else◌, length,
}
use schoolwork.Wmap.Vma.{Mappings}
use schoolwork.Wmap.Place.{map_anonymous, Wmapped, failed, mywmap}
use schoolwork.Wmap.Pages.{Pages, Unmapped, mywunmap}
use schoolwork.Wmap.Remap.{Remapped, mywremap, refused}

-- Whether a pattern stands for a positive `int`.
abbrev pub is_positive : ℕ → Bool
is_positive n = not (n == 0) && ltb n (2 ^ 31)

abbrev wmap_call : Mappings → ℕ → ℕ → ℕ → Option ℕ → Wmapped
wmap_call p addr length flags none = failed
wmap_call p addr length flags (some f) =
    if is_positive length then mywmap p addr length flags f else failed

-- `sys_wmap`
unfoldable pub sys_wmap : Mappings → Option ℕ → Option ℕ → Option ℕ → Option ℕ → Wmapped
sys_wmap p (some addr) (some length) (some flags) file =
    wmap_call p addr length flags (if bit_and flags map_anonymous == 0 then file else some 0)
sys_wmap p none length flags file = failed
sys_wmap p (some addr) none flags file = failed
sys_wmap p (some addr) (some length) none file = failed

module _ {W : Type 0} (os : Pages W) where
  -- `sys_wunmap`
  unfoldable pub sys_wunmap : Mappings → W → Option ℕ → Unmapped W
  sys_wunmap p w none = Unmapped.failed
  sys_wunmap p w (some addr) = mywunmap os p w addr

  -- `sys_wremap`
  unfoldable pub sys_wremap : Mappings → W → Option ℕ → Option ℕ → Option ℕ → Option ℕ → Remapped W
  sys_wremap p w (some oldaddr) (some oldsize) (some newsize) (some flags) =
      mywremap os p w oldaddr oldsize newsize flags
  sys_wremap p w none oldsize newsize flags = refused p w
  sys_wremap p w (some oldaddr) none newsize flags = refused p w
  sys_wremap p w (some oldaddr) (some oldsize) none flags = refused p w
  sys_wremap p w (some oldaddr) (some oldsize) (some newsize) none = refused p w
