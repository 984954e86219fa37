-- ===== src/Wmap/Gap.antt =====
-- `find_vmap_addr`, and `mywmap` without `MAP_FIXED`.
use schoolwork.Common.{
  ℕ, zero, suc, ◌+◌, ◌-◌, ◌%◌, ◌^◌, ◌≤◌, ◌<◌, bit_and, ◌≡◌, refl, ap, ◌∙◌, subst, fun_ext, ◌⊎◌, inl,
  inr, true, false, ◌&&◌, not, Option, none, some, arith, ltb, leb, ◌==◌, if◌then◌else◌, ltb→lt,
  lt→ltb, Bool-cases, length,
}
use native.Mathlib.Decide.{dec_lt}
use schoolwork.Wmap.Vma.{
  max_vmaps, wmap_base, kernbase, pgsize, Vma, Vmas, Mappings, put_vma, shift_right,
  right_shift_vmas, pgroundup, minus, plus,
}
use schoolwork.Wmap.Place.{
  new_vma, find_gap, find_vmap_addr, map_position, map_anywhere, mywmap, mapped_at, outside,
  map_private, map_shared, map_fixed,
}
use schoolwork.Wmap.Order.{IsValid, Shifted, put_same, shift_right-Shifted, placed-IsValid}
use schoolwork.Wmap.Fixed.{PutIn, Shifted-PutIn, new_vma-IsMapping, has_free_lem}

-- The end of a mapping, rounded up, is at most the address of the next.
round_le : (a b : ℕ) → a ≤ b → b % pgsize ≡ 0 → b ≤ kernbase → (pgroundup a ≤ b) × (pgroundup b ≡ b)
round_le a b le al hi = (omega arith, omega arith)

round_ge : (a : ℕ) → a < 2 ^ 31 + 2 ^ 31 - 4095 → (a ≤ pgroundup a) × (pgroundup a % pgsize ≡ 0)
round_ge a h = (omega arith, omega arith)

-- Where the search may stop: at the last mapping, or before a gap of at least `size`.
record IsStop (p : Mappings) (size j : ℕ) : Type 0 where
  exists : j < p.total_vmaps
  fits : j + 1 < p.total_vmaps → pgroundup (p.vmas j).end_addr + size ≤ (p.vmas (j + 1)).addr

module _ {p : Mappings} (valid : IsValid p) where
  sum_end :
      (i : ℕ) → i < p.total_vmaps → plus (p.vmas i).addr (p.vmas i).length ≡ (p.vmas i).end_addr
  sum_end i lt = let m = valid.mappings i lt in omega (arith, m.ends, m.high)

  next_exists :
      (i : ℕ) → i < p.total_vmaps → ((p.vmas (i + 1)).addr == 0) ≡ false → i + 1 < p.total_vmaps
  next_exists i lt e = elim (dec_lt (i + 1) p.total_vmaps) [
    | yes h ↦ h
    | no h ↦ absurd (ground (arith, valid.blank (i + 1) (omega arith), e))
  ]

  wide_gap :
      (size i : ℕ)
      → 0 < size
      → size < 2 ^ 31
      → i < p.total_vmaps
      → ltb (minus size 1) (minus (pgroundup (p.vmas (i + 1)).addr) (pgroundup (p.vmas i).end_addr))
        ≡ true
      → i + 1 < p.total_vmaps
      → pgroundup (p.vmas i).end_addr + size ≤ (p.vmas (i + 1)).addr
  wide_gap size i pos small lt wide next =
      let m = valid.mappings (i + 1) next in
      let le : (p.vmas i).end_addr ≤ (p.vmas (i + 1)).addr =
        subst (λ x. (p.vmas i).end_addr ≤ (p.vmas x).addr) (omega arith)
          (valid.sorted i (omega arith)) in
      let (a, b) =
        round_le (p.vmas i).end_addr (p.vmas (i + 1)).addr le m.aligned
          (omega (arith, m.ends, m.high)) in
      let h = ltb→lt _ _ wide in let bound = m.high in let ends = m.ends in omega arith

  find_gap-IsStop :
      (size n i : ℕ)
      → 0 < size
      → size < 2 ^ 31
      → i < p.total_vmaps
      → p.total_vmaps ≤ i + n
      → IsStop p size (find_gap p size n i)
  unfolding find_gap
  find_gap-IsStop size zero i pos small lt enough = absurd (omega arith)
  find_gap-IsStop size (suc n) i pos small lt enough =
      elim (Bool-cases ((p.vmas (i + 1)).addr == 0)) [
        | inl e ↦
            rw (lt→ltb i p.total_vmaps lt, e)
              (record {
                exists = lt;
                fits = λ next. absurd (ground (arith, e, (valid.mappings (i + 1) next).low));
              })
        | inr e ↦
            rw (lt→ltb i p.total_vmaps lt, e, sum_end i lt)
              (elim (Bool-cases (
                ltb (minus size 1)
                  (minus (pgroundup (p.vmas (i + 1)).addr) (pgroundup (p.vmas i).end_addr)))) [
                    | inl wide ↦
                        rw wide (record { exists = lt; fits = wide_gap size i pos small lt wide })
                    | inr narrow ↦ rw narrow (
                        find_gap-IsStop size n (i + 1) pos small (next_exists i lt e) (omega arith))
                  ])
      ]

  -- A place for a mapping of `size`, and the array with a gap in that place.
  record Place (size i addr : ℕ) (w : Vmas) : Type 0 where
    at_most : i ≤ p.total_vmaps
    low : wmap_base ≤ addr
    aligned : addr % pgsize ≡ 0
    high : addr + size ≤ kernbase
    moved : Shifted p.vmas i p.total_vmaps w
    before : (k : ℕ) → suc k ≡ i → (p.vmas k).end_addr ≤ addr
    after : i < p.total_vmaps → addr + size ≤ (p.vmas i).addr

  shift_right-to_end :
      (at : ℕ)
      → at ≤ p.total_vmaps
      → Shifted p.vmas at p.total_vmaps (shift_right p.vmas at (p.total_vmaps - at))
  shift_right-to_end at le =
      let e : at + (p.total_vmaps - at) ≡ p.total_vmaps = omega arith in
      subst (λ n. Shifted p.vmas at n (shift_right p.vmas at (p.total_vmaps - at))) e
        (shift_right-Shifted p.vmas at (p.total_vmaps - at))

  -- The new mapping over what `right_shift_vmas` has left in its place.
  placed : (length flags f i addr : ℕ) → Vmas → Mappings
  placed length flags f i addr w = record {
    vmas = put_vma w i (new_vma addr length flags f);
    total_vmaps = p.total_vmaps + 1;
  }

  placed_lem :
      (length flags f i addr : ℕ) (w : Vmas)
      → p.total_vmaps < max_vmaps
      → 0 < length
      → Place length i addr w
      → IsValid (placed length flags f i addr w)
        × PutIn p (placed length flags f i addr w) i (new_vma addr length flags f)
  unfolding placed
  placed_lem length flags f i addr w room pos s = (
    placed-IsValid valid room i w (new_vma addr length flags f) s.at_most s.moved
        (new_vma-IsMapping addr length flags f s.aligned s.low pos s.high) s.before
        (λ lt. omega (arith, s.after lt)),
    Shifted-PutIn p w i (new_vma addr length flags f) s.at_most s.moved,
  )

-- The end of the last mapping, or the start of the region.
abbrev pub top : Mappings → ℕ
top p = if p.total_vmaps == 0 then wmap_base else (p.vmas (p.total_vmaps - 1)).end_addr

-- Not `MAP_FIXED`, and one of `MAP_PRIVATE` and `MAP_SHARED`.
pub record IsAnywhere (flags : ℕ) : Type 0 where
  pub anywhere : (bit_and flags map_fixed == 0) ≡ true
  pub not_none : ((bit_and flags map_private == 0) && (bit_and flags map_shared == 0)) ≡ false
  pub not_both :
      (not (bit_and flags map_private == 0) && not (bit_and flags map_shared == 0)) ≡ false

put_put : (w : Vmas) (i : ℕ) (a b : Vma) → put_vma (put_vma w i b) i a ≡ put_vma w i a
put_put w i a b = fun_ext (λ j. ground arith)

module _ (p : Mappings) (addr length flags f : ℕ) (valid : IsValid p)
    (room : p.total_vmaps < max_vmaps) (positive : 0 < length) (small : length < 2 ^ 31)
    (kind : IsAnywhere flags) where
  -- What is known of a call that has placed its mapping.
  abbrev Placed : Type 0
  Placed =
      (q : Mappings) × (j : ℕ) × (a : ℕ) × (mywmap p addr length flags f ≡ mapped_at a q)
      × IsValid q
      × PutIn p q j (new_vma a length flags f)

  anywhere : mywmap p addr length flags f ≡ map_anywhere p length flags f
  unfolding mywmap
  anywhere =
      rw
        (
          kind.not_both,
          kind.not_none,
          has_free_lem p.vmas max_vmaps 0 p.total_vmaps (valid.unmapped p.total_vmaps (omega arith))
              (omega arith) (omega arith),
          kind.anywhere,
        )
        refl

  map_anywhere-outcome :
      (r : Option ℕ × Vmas)
      → find_vmap_addr p length ≡ r
      → map_anywhere p length flags f ≡ map_position p length flags f r.0 r.1
  unfolding map_anywhere
  map_anywhere-outcome r e = ap (λ x. map_position p length flags f x.0 x.1) e

  found :
      (i a : ℕ) (w : Vmas) (b : Vma)
      → find_vmap_addr p length ≡ (some i, put_vma w i b)
      → b.addr ≡ a
      → Place valid length i a w
      → Placed
  unfolding placed map_position
  found i a w b run e s = (
    placed valid length flags f i a w,
    i,
    a,
    anywhere
        ∙ map_anywhere-outcome _ run
        ∙ rw (put_same w i b, put_put w i (new_vma b.addr length flags f) b, e) refl,
    (placed_lem valid length flags f i a w room positive s).0,
    (placed_lem valid length flags f i a w room positive s).1,
  )

  not_found : find_vmap_addr p length ≡ (none, p.vmas) → mywmap p addr length flags f ≡ outside
  unfolding map_position
  not_found run = anywhere ∙ map_anywhere-outcome _ run

  in_empty :
      p.total_vmaps ≡ 0
      → (Placed ⊎ ((mywmap p addr length flags f ≡ outside) × (kernbase ≤ top p + length + 4095)))
  unfolding find_vmap_addr
  in_empty e = elim (Bool-cases (leb kernbase (pgroundup (plus wmap_base length)))) [
    | inl full ↦ inr (not_found (rw (find_vmap_addr, e, full) refl), rw e (ground (arith, full)))
    | inr free ↦
        let room_left : wmap_base + length < kernbase = ground (arith, free) in
        inl (
          found 0 (pgroundup wmap_base) p.vmas
            (record (p.vmas 0) { addr = pgroundup wmap_base; length = length })
            (rw (find_vmap_addr, e, free) refl) refl
            (record {
              at_most = omega arith;
              low = omega arith;
              aligned = omega arith;
              high = omega arith;
              moved = record {
                below = λ k le. refl;
                moved = λ k lo hi. absurd (omega arith);
                above = λ k lt. refl;
              };
              before = λ k q. absurd (omega arith);
              after = λ lt. absurd (omega arith);
            }))
  ]

  first :
      0 < p.total_vmaps
      → ltb length (minus (p.vmas 0).addr wmap_base) ≡ true
      → Place valid length 0 wmap_base (shift_right p.vmas 0 (p.total_vmaps - 0))
  first some_left fits =
      let m = valid.mappings 0 some_left in
      let gap : wmap_base + length < (p.vmas 0).addr =
        omega (arith, m.low, m.high, m.ends, ltb→lt _ _ fits) in
      record {
        at_most = omega arith;
        low = omega arith;
        aligned = omega arith;
        high = omega (arith, m.high, m.ends);
        moved = shift_right-to_end valid 0 (omega arith);
        before = λ k q. absurd (omega arith);
        after = λ lt. omega arith;
      }

  after_mapping :
      (i : ℕ)
      → IsStop p length i
      → pgroundup (p.vmas i).end_addr + length ≤ kernbase
      → Place valid length
          (i + 1)
          (pgroundup (p.vmas i).end_addr)
          (shift_right p.vmas (i + 1) (p.total_vmaps - (i + 1)))
  after_mapping i stop below =
      let m = valid.mappings i stop.exists in
      let (up, al) = round_ge (p.vmas i).end_addr (omega (arith, m.high)) in
      record {
        at_most = omega (arith, stop.exists);
        low = omega (arith, m.low, m.ends);
        aligned = al;
        high = below;
        moved = shift_right-to_end valid (i + 1) (omega (arith, stop.exists));
        before = λ k q.
            let e : i ≡ k = omega arith in
            subst (λ x. (p.vmas x).end_addr ≤ pgroundup (p.vmas i).end_addr) e up;
        after = stop.fits;
      }

  is_last :
      (i : ℕ)
      → IsStop p length i
      → kernbase < pgroundup (p.vmas i).end_addr + length
      → i + 1 ≡ p.total_vmaps
  is_last i stop over = elim (dec_lt (i + 1) p.total_vmaps) [
    | yes h ↦
        let m = valid.mappings (i + 1) h in absurd (omega (arith, stop.fits h, m.high, m.ends))
    | no h ↦ omega (arith, stop.exists)
  ]

  marked : Vmas → ℕ → ℕ → Vma
  marked w i a = record (w i) { addr = a; length = length }

  in_nonempty :
      0 < p.total_vmaps
      → (Placed ⊎ ((mywmap p addr length flags f ≡ outside) × (kernbase ≤ top p + length + 4095)))
  unfolding find_vmap_addr right_shift_vmas marked
  in_nonempty pos = elim (Bool-cases (ltb length (minus (p.vmas 0).addr wmap_base))) [
    | inl fits ↦
        let w = shift_right p.vmas 0 (p.total_vmaps - 0) in
        inl (
          found 0 wmap_base w (marked w 0 wmap_base) (rw (find_vmap_addr, nonempty, fits) refl) refl
            (first pos fits))
    | inr tight ↦
        elim (Bool-cases
          (ltb kernbase (plus (pgroundup (plus (p.vmas at).addr (p.vmas at).length)) length))) [
            | inl full ↦ inr (
              not_found (rw (find_vmap_addr, nonempty, tight, full) refl),
              rw (nonempty, ← last (over full)) (omega (arith, over full, upper)),
            )
            | inr free ↦
                let w = shift_right p.vmas (at + 1) (p.total_vmaps - (at + 1)) in
                let a = pgroundup (plus (p.vmas at).addr (p.vmas at).length) in
                inl (
                  found (at + 1) (pgroundup (p.vmas at).end_addr) w (marked w (at + 1) a)
                    (rw (find_vmap_addr, nonempty, tight, free) refl) (ap pgroundup sum)
                    (after_mapping at stop (under free)))
          ]
  ]
    where
      nonempty : (p.total_vmaps == 0) ≡ false
      nonempty = ground arith

      at : ℕ
      at = find_gap p length p.total_vmaps 0

      stop : IsStop p length at
      stop = find_gap-IsStop valid length p.total_vmaps 0 positive small pos (omega arith)

      sum : plus (p.vmas at).addr (p.vmas at).length ≡ (p.vmas at).end_addr
      sum = sum_end valid at stop.exists

      upper : (p.vmas at).end_addr ≤ kernbase
      upper = (valid.mappings at stop.exists).high

      over :
          ltb kernbase (plus (pgroundup (plus (p.vmas at).addr (p.vmas at).length)) length) ≡ true
          → kernbase < pgroundup (p.vmas at).end_addr + length
      over full =
          let h : kernbase < plus (pgroundup (p.vmas at).end_addr) length =
            ltb→lt _ _ (rw sum at full) in
          omega (arith, h, upper)

      under :
          ltb kernbase (plus (pgroundup (plus (p.vmas at).addr (p.vmas at).length)) length) ≡ false
          → pgroundup (p.vmas at).end_addr + length ≤ kernbase
      under free =
          let h : ltb kernbase (plus (pgroundup (p.vmas at).end_addr) length) ≡ false =
            rw sum at free in
          ground (arith, h, upper)

      last : kernbase < pgroundup (p.vmas at).end_addr + length → at ≡ p.total_vmaps - 1
      last h = omega (arith, is_last at stop h)

  -- Without `MAP_FIXED`, with one of `MAP_PRIVATE` and `MAP_SHARED`, room in the array and a
  -- positive length below 2^31: `mywmap` puts the mapping where it meets no other, and the array is
  -- valid; or it writes outside the array, and then fewer than `length` + 4096 addresses are left
  -- between the last mapping and the end of the region.
  pub mywmap_anywhere :
      Placed ⊎ ((mywmap p addr length flags f ≡ outside) × (kernbase ≤ top p + length + 4095))
  mywmap_anywhere = elim (dec_lt 0 p.total_vmaps) [
    | yes h ↦ in_nonempty h
    | no h ↦ in_empty (omega arith)
  ]
