-- ===== src/Wmap/Listing/Order.antt =====
-- What `mygetpgdirinfo` records, and in which order.
use schoolwork.Common.{
  ℕ, zero, suc, ◌+◌, ◌*◌, ◌/◌, ◌^◌, ◌≤◌, ◌<◌, ◌≡◌, refl, sym, ap, ◌∙◌, subst, inl, inr, ◌&&◌, some,
  List, [], ◌∷◌, ◌++◌, append-nil, append_assoc, arith, ltb, if◌then◌else◌, lt→ltb, Bool-cases,
  length, get_elem?, length-append,
}
use mathlib.Core.Path.{ap₂}
use native.Mathlib.Decide.{dec_lt}
use schoolwork.Wmap.Pages.{pte_addr}
use schoolwork.Wmap.Listing.{
  max_upage_info, npdentries, is_present, is_user, PgdirInfo, put_at, list_page, list_table,
  list_directory, mygetpgdirinfo,
}

-- The user pages of a table from the entry `j` on, with their addresses, and those of a directory.
module _ (pgdir : ℕ → ℕ) (pgtab : ℕ → ℕ → ℕ) where
  pub table_pages : ℕ → ℕ → ℕ → List (ℕ × ℕ)
  table_pages i zero j = []
  table_pages i (suc n) j =
      let e = pgtab (pte_addr (pgdir i)) j in
      (if is_present e && is_user e then (i * 2 ^ 22 + j * 2 ^ 12, pte_addr e) ∷ [] else [])
      ++ table_pages i n (j + 1)

  pub user_pages : ℕ → ℕ → List (ℕ × ℕ)
  user_pages zero i = []
  user_pages (suc n) i =
      (if is_present (pgdir i) then table_pages i npdentries 0 else []) ++ user_pages n (i + 1)

-- The list is counted, and its first entries are recorded.
pub record Lists (info : PgdirInfo) (ps : List (ℕ × ℕ)) : Type 0 where
  pub counted : info.n_upages ≡ length ps
  pub recorded :
      (k : ℕ) → k < length ps → k < max_upage_info → get_elem? ps k ≡ some (info.va k, info.pa k)

snoc_at : (ps : List (ℕ × ℕ)) (x : ℕ × ℕ) → get_elem? (ps ++ x ∷ []) (length ps) ≡ some x
snoc_at [] x = refl
snoc_at (y ∷ ps) x = snoc_at ps x

snoc_below :
    (ps : List (ℕ × ℕ)) (x : ℕ × ℕ) (k : ℕ)
    → k < length ps
    → get_elem? (ps ++ x ∷ []) k ≡ get_elem? ps k
snoc_below [] x k lt = absurd (omega arith)
snoc_below (y ∷ ps) x zero lt = refl
snoc_below (y ∷ ps) x (suc k) lt = snoc_below ps x k (omega arith)

-- An array in which the next entry is written while there is room.
abbrev record_at : (ℕ → ℕ) → ℕ → ℕ → ℕ → ℕ
record_at f n x = if ltb n max_upage_info then put_at f n x else f

record_at_old : (f : ℕ → ℕ) (n x k : ℕ) → k < n → record_at f n x k ≡ f k
record_at_old f n x k lt = elim (Bool-cases (ltb n max_upage_info)) [
  | inl room ↦ rw room (ground arith)
  | inr full ↦ rw full refl
]

record_at_new : (f : ℕ → ℕ) (n x k : ℕ) → k ≡ n → n < max_upage_info → record_at f n x k ≡ x
record_at_new f n x k e lt = rw (lt→ltb n max_upage_info lt) (ground arith)

list_page-Lists :
    (info : PgdirInfo) (ps : List (ℕ × ℕ)) (va e : ℕ)
    → Lists info ps
    → Lists
        (list_page info va e)
        (ps ++ (if is_present e && is_user e then (va, pte_addr e) ∷ [] else []))
unfolding list_page
list_page-Lists info ps va e h = elim (Bool-cases (is_present e && is_user e)) [
  | inr no_page ↦ rw (no_page, append-nil) h
  | inl page ↦ rw page (record {
    counted = omega (arith, h.counted, length-append ps ((va, pte_addr e) ∷ []));
    recorded = λ k lt small. elim (dec_lt k (length ps)) [
      | yes old ↦
          let c : k < info.n_upages = omega (arith, h.counted) in
          snoc_below ps (va, pte_addr e) k old
          ∙ h.recorded k old small
          ∙ ap some (
              ap₂ (λ x y. (x, y)) (sym (record_at_old info.va info.n_upages va k c))
                (sym (record_at_old info.pa info.n_upages (pte_addr e) k c)))
      | no new ↦
          let at_end : k ≡ length ps = omega (arith, length-append ps ((va, pte_addr e) ∷ [])) in
          let c : k ≡ info.n_upages = omega (arith, h.counted) in
          rw at_end (snoc_at ps (va, pte_addr e))
          ∙ ap some (
              ap₂ (λ x y. (x, y)) (sym (record_at_new info.va info.n_upages va k c (omega arith)))
                (sym (record_at_new info.pa info.n_upages (pte_addr e) k c (omega arith))))
    ];
  })
]

module _ (pgdir : ℕ → ℕ) (pgtab : ℕ → ℕ → ℕ) where
  list_table-Lists :
      (i n j : ℕ) (info : PgdirInfo) (ps : List (ℕ × ℕ))
      → Lists info ps
      → Lists (list_table pgdir pgtab info i n j) (ps ++ table_pages pgdir pgtab i n j)
  unfolding list_table table_pages
  list_table-Lists i zero j info ps h = rw append-nil h
  list_table-Lists i (suc n) j info ps h =
      let e = pgtab (pte_addr (pgdir i)) j in
      let va = i * 2 ^ 22 + j * 2 ^ 12 in
      let rest =
        list_table-Lists i n (j + 1) (list_page info va e) _ (list_page-Lists info ps va e h) in
      rw
        (← append_assoc ps (if is_present e && is_user e then (va, pte_addr e) ∷ [] else [])
          (table_pages pgdir pgtab i n (j + 1)))
        rest

  list_directory-Lists :
      (n i : ℕ) (info : PgdirInfo) (ps : List (ℕ × ℕ))
      → Lists info ps
      → Lists (list_directory pgdir pgtab info n i) (ps ++ user_pages pgdir pgtab n i)
  unfolding list_directory user_pages
  list_directory-Lists zero i info ps h = rw append-nil h
  list_directory-Lists (suc n) i info ps h = elim (Bool-cases (is_present (pgdir i))) [
    | inl table ↦ rw table (
        rw
          (← append_assoc ps (table_pages pgdir pgtab i npdentries 0)
            (user_pages pgdir pgtab n (i + 1)))
          (list_directory-Lists n (i + 1) (list_table pgdir pgtab info i npdentries 0)
            (ps ++ table_pages pgdir pgtab i npdentries 0)
            (list_table-Lists i npdentries 0 info ps h)))
    | inr no_table ↦ rw no_table (list_directory-Lists n (i + 1) info ps h)
  ]

-- The addresses go up, from `lo` on and below `hi`.
abbrev pub Ascending : ℕ → ℕ → List (ℕ × ℕ) → Type 0
Ascending lo hi [] = lo ≤ hi
Ascending lo hi (x ∷ ps) = (lo ≤ x.0) × Ascending (x.0 + 1) hi ps

Ascending-le :
    (lo lo' hi : ℕ) (ps : List (ℕ × ℕ)) → lo ≤ lo' → Ascending lo' hi ps → Ascending lo hi ps
Ascending-le lo lo' hi [] le h = omega arith
Ascending-le lo lo' hi (x ∷ ps) le h = (omega (arith, h.0), h.1)

Ascending-append :
    (lo mid hi : ℕ) (ps qs : List (ℕ × ℕ))
    → Ascending lo mid ps
    → Ascending mid hi qs
    → Ascending lo hi (ps ++ qs)
Ascending-append lo mid hi [] qs h k = Ascending-le lo mid hi qs h k
Ascending-append lo mid hi (x ∷ ps) qs h k = (h.0, Ascending-append (x.0 + 1) mid hi ps qs h.1 k)

module _ (pgdir : ℕ → ℕ) (pgtab : ℕ → ℕ → ℕ) where
  table_pages-Ascending :
      (i n j : ℕ)
      → Ascending
          (i * 2 ^ 22 + j * 2 ^ 12)
          (i * 2 ^ 22 + (j + n) * 2 ^ 12)
          (table_pages pgdir pgtab i n j)
  unfolding table_pages
  table_pages-Ascending i zero j = omega arith
  table_pages-Ascending i (suc n) j =
      let e = pgtab (pte_addr (pgdir i)) j in
      let next : i * 2 ^ 22 + (j + 1 + n) * 2 ^ 12 ≡ i * 2 ^ 22 + (j + suc n) * 2 ^ 12 =
        omega arith in
      let rest =
        subst
          (λ x. Ascending (i * 2 ^ 22 + (j + 1) * 2 ^ 12) x (table_pages pgdir pgtab i n (j + 1)))
          next (table_pages-Ascending i n (j + 1)) in
      Ascending-append (i * 2 ^ 22 + j * 2 ^ 12) (i * 2 ^ 22 + (j + 1) * 2 ^ 12)
        (i * 2 ^ 22 + (j + suc n) * 2 ^ 12)
        (if is_present e && is_user e then (i * 2 ^ 22 + j * 2 ^ 12, pte_addr e) ∷ [] else [])
        (table_pages pgdir pgtab i n (j + 1))
        (elim (Bool-cases (is_present e && is_user e)) [
          | inl page ↦ rw page (omega arith, omega arith)
          | inr no_page ↦ rw no_page (omega arith)
        ])
        rest

  user_pages-Ascending :
      (n i : ℕ) → Ascending (i * 2 ^ 22) ((i + n) * 2 ^ 22) (user_pages pgdir pgtab n i)
  unfolding user_pages
  user_pages-Ascending zero i = omega arith
  user_pages-Ascending (suc n) i =
      let start : i * 2 ^ 22 + 0 * 2 ^ 12 ≡ i * 2 ^ 22 = omega arith in
      let end : i * 2 ^ 22 + (0 + npdentries) * 2 ^ 12 ≡ (i + 1) * 2 ^ 22 = omega arith in
      let next : (i + 1 + n) * 2 ^ 22 ≡ (i + suc n) * 2 ^ 22 = omega arith in
      Ascending-append (i * 2 ^ 22) ((i + 1) * 2 ^ 22) ((i + suc n) * 2 ^ 22)
        (if is_present (pgdir i) then table_pages pgdir pgtab i npdentries 0 else [])
        (user_pages pgdir pgtab n (i + 1))
        (elim (Bool-cases (is_present (pgdir i))) [
          | inl table ↦ rw table (rw start at (rw end at (table_pages-Ascending i npdentries 0)))
          | inr no_table ↦ rw no_table (omega arith)
        ])
        (rw next at (user_pages-Ascending n (i + 1)))

  -- `mygetpgdirinfo` counts the present user pages of the lower half of the directory and records
  -- the first 32 of them, each with its address and its page's; their addresses go up and stay
  -- below 2^31.
  pub mygetpgdirinfo_lem :
      (info : PgdirInfo)
      → Lists (mygetpgdirinfo pgdir pgtab info) (user_pages pgdir pgtab (npdentries / 2) 0)
        × Ascending 0 (2 ^ 31) (user_pages pgdir pgtab (npdentries / 2) 0)
  unfolding mygetpgdirinfo
  mygetpgdirinfo_lem info = (
    list_directory-Lists pgdir pgtab (npdentries / 2) 0 (record info { n_upages = 0 }) []
        (record { counted = refl; recorded = λ k lt small. absurd (omega arith) }),
    user_pages-Ascending (npdentries / 2) 0,
  )
