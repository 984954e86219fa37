-- ===== src/Kv/Client/Window.antt =====
-- What holds of a thread and its worker in every order of their steps.
use schoolwork.Common.{
  ℕ, zero, suc, ◌+◌, ◌-◌, ◌*◌, ◌/◌, ◌%◌, ◌^◌, ◌≤◌, ◌<◌, ◌≡◌, refl, sym, ap, ◌∙◌, subst, ◌≢◌, ◌⊎◌,
  true, false, List, [], ◌∷◌, ◌++◌, arith, ◌==◌, if◌then◌else◌, ==_iff, length,
}
use mathlib.Core.Path.{ap₂}
use native.Mathlib.Nat.{div-add-mod, mul-le-mul_left, mod-add-mod, add-mod_right, zero-mod}
use native.Mathlib.Decide.{ℕ_discrete, dec_lt}
use schoolwork.Kv.Request.{put_request, get_request, BufferDescriptor}
use schoolwork.Kv.Ring.{ring_size}
use schoolwork.Kv.Table.{find_key}
use schoolwork.Kv.Table.Laws.{IsValid}
use schoolwork.Kv.Server.Refinement.{
  Store, store_after, Holds, serve-IsValid, serve-Holds, serve_ready,
}
use schoolwork.Kv.Server.{serve, update}
use schoolwork.Kv.Client.{
  ring_submit, lapped, Context, System, comp_at, descriptor, submit_one, may_submit, complete_one,
  may_complete, work_one, Step, submit, work, complete, Reach, here, next,
}

-- The requests from `i` on, for `n` of them, as they stand in the ring.
pub descriptors : Context → ℕ → ℕ → List BufferDescriptor
descriptors ctx i zero = []
descriptors ctx i (suc n) = descriptor ctx i ∷ descriptors ctx (i + 1) n

descriptors-snoc :
    (ctx : Context) (i n : ℕ)
    → descriptors ctx i n ++ descriptor ctx (i + n) ∷ [] ≡ descriptors ctx i (suc n)
unfolding descriptors
descriptors-snoc ctx i zero = let e : i + 0 ≡ i = omega arith in rw e refl
descriptors-snoc ctx i (suc n) =
    let e : i + 1 + n ≡ i + suc n = omega arith in
    ap (λ x. descriptor ctx i ∷ x) (rw e at (descriptors-snoc ctx (i + 1) n))

store_after-snoc :
    (bs : List BufferDescriptor) (m : Store) (b : BufferDescriptor) (j : ℕ)
    → store_after m (bs ++ b ∷ []) j ≡ (
        if b.req_type == put_request
        then (if b.k == j then b.v else store_after m bs j)
        else store_after m bs j)
unfolding store_after
store_after-snoc [] m b j = refl
store_after-snoc (x ∷ bs) m b j =
    store_after-snoc bs
      (λ i. if x.req_type == put_request then (if x.k == i then x.v else m i) else m i) b j

-- What the requests before `i` have left of a store.
abbrev pub store_before : Context → Store → ℕ → Store
store_before ctx m i = store_after m (descriptors ctx 0 i)

-- A slot that answers the request `i`: it has its key, and of a GET the value that the requests
-- before it have left.
pub record Answers (ctx : Context) (m : Store) (i : ℕ) (d : BufferDescriptor) : Type 0 where
  pub key : d.k ≡ (ctx.reqs i).k
  pub value : (ctx.reqs i).t ≡ get_request → d.v ≡ store_before ctx m i (ctx.reqs i).k

-- Every request is a PUT or a GET, their number is an int, and the window is not empty and not
-- larger than the ring.
pub record IsWorkload (ctx : Context) : Type 0 where
  pub positive : 0 < ctx.win_size
  pub in_ring : ctx.win_size ≤ ring_size
  pub few : ctx.num_reqs < 2 ^ 31
  pub known :
      (i : ℕ) → i < ctx.num_reqs → ((ctx.reqs i).t ≡ put_request) ⊎ ((ctx.reqs i).t ≡ get_request)

-- Where the thread and the worker are. `served` requests have been carried out.
pub record IsConsistent (ctx : Context) (m : Store) (s : System) (served : ℕ) : Type 0 where
  pub completed_first : s.client.last_completed ≤ served
  pub served_first : served ≤ s.client.last_submitted
  pub all_requests : s.client.last_submitted ≤ ctx.num_reqs
  pub window : s.client.last_submitted ≤ s.client.last_completed + ctx.win_size
  pub turn : s.client.nxt_comp ≡ s.client.last_completed % ctx.win_size
  pub queued : s.ring ≡ descriptors ctx served (s.client.last_submitted - served)
  pub valid : IsValid s.server.ht
  pub table : Holds s.server.ht (store_before ctx m served)
  pub answered :
      (i : ℕ)
      → s.client.last_completed ≤ i
      → i < served
      → ((s.server.slots (comp_at ctx (i % ctx.win_size))).ready ≡ 1)
        × Answers ctx m i (s.server.slots (comp_at ctx (i % ctx.win_size)))
  pub waiting :
      (i : ℕ)
      → served ≤ i
      → i < s.client.last_completed + ctx.win_size
      → (s.server.slots (comp_at ctx (i % ctx.win_size))).ready ≡ 0
  pub results : (i : ℕ) → i < s.client.last_completed → Answers ctx m i (s.client.res i)

-- Two requests of one window have different slots.
mod_apart : (w i j : ℕ) → 0 < w → i < j → j < i + w → i % w ≢ j % w
mod_apart w i j pos lt near e = elim (dec_lt (i / w) (j / w)) [
  | yes up ↦
      let far : w * (i / w + 1) ≤ w * (j / w) = mul-le-mul_left w (omega arith) in
      let spread : w * (i / w + 1) ≡ w * (i / w) + w = grind arith in
      omega (arith, far, spread, div-add-mod i w, div-add-mod j w)
  | no down ↦
      let near' : w * (j / w) ≤ w * (i / w) = mul-le-mul_left w (omega arith) in
      omega (arith, near', div-add-mod i w, div-add-mod j w)
]

slots_apart :
    (ctx : Context) (i j : ℕ)
    → 0 < ctx.win_size
    → i < j
    → j < i + ctx.win_size
    → comp_at ctx (i % ctx.win_size) ≢ comp_at ctx (j % ctx.win_size)
slots_apart ctx i j pos lt near e = mod_apart ctx.win_size i j pos lt near (omega arith)

update_same : (f : ℕ → BufferDescriptor) (i : ℕ) (d : BufferDescriptor) → update f i d i ≡ d
update_same f i d = ground arith

update_other :
    (f : ℕ → BufferDescriptor) (i j : ℕ) (d : BufferDescriptor) → i ≢ j → update f i d j ≡ f j
update_other f i j d ne = ground arith

length-descriptors : (ctx : Context) (i n : ℕ) → length (descriptors ctx i n) ≡ n
unfolding descriptors
length-descriptors ctx i zero = refl
length-descriptors ctx i (suc n) = omega (arith, length-descriptors ctx (i + 1) n)

-- While fewer than RING_SIZE descriptors wait, none of them is replaced.
lapped-short :
    (b : BufferDescriptor) (n i : ℕ) (xs : List BufferDescriptor)
    → i + length xs ≤ n
    → n < ring_size
    → lapped b n i xs ≡ xs
unfolding lapped
lapped-short b n i [] h small = refl
lapped-short b n i (x ∷ xs) h small =
    let apart : (i % ring_size == n % ring_size) ≡ false = ground arith in
    rw (apart, lapped-short b n (i + 1) xs (omega arith) small) refl

ring_submit-short :
    (b : BufferDescriptor) (ring : List BufferDescriptor)
    → length ring < ring_size
    → ring_submit b ring ≡ ring ++ b ∷ []
unfolding ring_submit
ring_submit-short b ring small =
    ap (λ xs. xs ++ b ∷ []) (lapped-short b (length ring) 0 ring (omega arith) small)

module _ (ctx : Context) (m : Store) (load : IsWorkload ctx) where
  submit-IsConsistent :
      (s : System) (served : ℕ)
      → IsConsistent ctx m s served
      → may_submit ctx s ≡ true
      → IsConsistent ctx m (submit_one ctx s) served
  unfolding submit_one
  submit-IsConsistent s served c h =
      let low = c.completed_first in
      let mid = c.served_first in
      let fits : (s.client.last_submitted < ctx.num_reqs)
          × (s.client.last_submitted < s.client.last_completed + ctx.win_size) =
        ground arith in
      record {
        completed_first = low;
        served_first = omega arith;
        all_requests = omega arith;
        window = omega arith;
        turn = c.turn;
        queued = queued_more fits.0 fits.1;
        valid = c.valid;
        table = c.table;
        answered = c.answered;
        waiting = c.waiting;
        results = c.results;
      }
    where
      queued_more :
          s.client.last_submitted < ctx.num_reqs
          → s.client.last_submitted < s.client.last_completed + ctx.win_size
          → ring_submit (descriptor ctx s.client.last_submitted) s.ring
            ≡ descriptors ctx served (s.client.last_submitted + 1 - served)
      queued_more lt near =
          let n = s.client.last_submitted - served in
          let end : served + n ≡ s.client.last_submitted = omega (arith, c.served_first) in
          let more : suc n ≡ s.client.last_submitted + 1 - served = omega (arith, c.served_first) in
          ring_submit-short (descriptor ctx s.client.last_submitted) s.ring (
            omega (
              arith,
              ap length c.queued,
              length-descriptors ctx served n,
              load.in_ring,
              c.completed_first,
              near,
            ))
          ∙ ap (λ x. x ++ descriptor ctx s.client.last_submitted ∷ []) c.queued
          ∙ subst
              (λ x.
                descriptors ctx served n ++ descriptor ctx x ∷ [] ≡ descriptors ctx served (suc n))
              end (descriptors-snoc ctx served n)
          ∙ ap (descriptors ctx served) more

  head-work_one :
      (s : System) (b : BufferDescriptor) (rest : List BufferDescriptor)
      → s.ring ≡ b ∷ rest
      → work_one s ≡ record s { ring = rest; server = serve s.server b }
  unfolding work_one
  head-work_one s b rest e = rw (e, work_one) refl

  table_step :
      (s : System) (served : ℕ)
      → IsConsistent ctx m s served
      → Holds (serve s.server (descriptor ctx served)).ht (store_before ctx m (suc served))
  table_step s served c j =
      serve-Holds s.server (descriptor ctx served) (store_before ctx m served) c.valid c.table j
      ∙ sym (store_after-snoc (descriptors ctx 0 served) m (descriptor ctx served) j)
      ∙ ap (λ x. store_after m x j)
          (subst
            (λ x.
              descriptors ctx 0 served ++ descriptor ctx x ∷ [] ≡ descriptors ctx 0 (suc served))
            (omega arith) (descriptors-snoc ctx 0 served))

  work-IsConsistent :
      (s : System) (served n : ℕ)
      → IsConsistent ctx m s served
      → s.client.last_submitted - served ≡ suc n
      → IsConsistent ctx m
          (record s {
            ring = descriptors ctx (served + 1) n;
            server = serve s.server (descriptor ctx served);
          })
          (suc served)
  work-IsConsistent s served n c left = record {
    completed_first = omega (arith, c.completed_first);
    served_first = omega (arith, c.served_first);
    all_requests = c.all_requests;
    window = c.window;
    turn = c.turn;
    queued = ap₂ (descriptors ctx) (omega arith) (omega arith);
    valid = serve-IsValid s.server (descriptor ctx served) c.valid;
    table = table_step s served c;
    answered = λ i lo hi. elim (ℕ_discrete i served) [
      | yes e ↦
          subst
            (λ x.
              ((serve s.server (descriptor ctx served)).slots
                  (comp_at ctx (x % ctx.win_size))).ready
                ≡ 1
              × Answers ctx m x
                  ((serve s.server (descriptor ctx served)).slots (comp_at ctx (x % ctx.win_size))))
            (sym e) answer
      | no ne ↦
          subst (λ d. (d.ready ≡ 1) × Answers ctx m i d)
            (sym (
              facts.3 _ (λ q.
                slots_apart ctx i served load.positive (omega arith)
                  (omega (arith, c.window, c.served_first)) (sym q))))
            (c.answered i lo (omega arith))
    ];
    waiting = λ i lo hi.
        subst (λ d. d.ready ≡ 0)
          (sym (
            facts.3 _ (
              slots_apart ctx served i load.positive (omega arith)
                (omega (arith, c.completed_first)))))
          (c.waiting i (omega arith) hi);
    results = c.results;
  }
    where
      facts :
          (((serve s.server (descriptor ctx served)).slots (descriptor ctx served).res_off).ready
            ≡ 1)
          × (((serve s.server (descriptor ctx served)).slots (descriptor ctx served).res_off).k
              ≡ (descriptor ctx served).k)
          × ((descriptor ctx served).req_type ≡ get_request
              → ((serve s.server (descriptor ctx served)).slots (descriptor ctx served).res_off).v
                ≡ find_key s.server.ht (descriptor ctx served).k)
          × ((o : ℕ)
              → (descriptor ctx served).res_off ≢ o
              → (serve s.server (descriptor ctx served)).slots o ≡ s.server.slots o)
      facts =
          serve_ready s.server (descriptor ctx served)
            (load.known served (omega (arith, c.all_requests, c.served_first, left)))

      answer :
          (((serve s.server (descriptor ctx served)).slots (descriptor ctx served).res_off).ready
            ≡ 1)
          × Answers ctx m served
              ((serve s.server (descriptor ctx served)).slots (descriptor ctx served).res_off)
      answer =
          (facts.0, record { key = facts.1; value = λ g. facts.2 g ∙ c.table (ctx.reqs served).k })

  complete-IsConsistent :
      (s : System) (served : ℕ)
      → IsConsistent ctx m s served
      → may_complete ctx s ≡ true
      → IsConsistent ctx m (complete_one ctx s) served
  unfolding complete_one
  complete-IsConsistent s served c h = record {
    completed_first = omega (arith, left);
    served_first = c.served_first;
    all_requests = c.all_requests;
    window = omega (arith, c.window);
    turn =
        ap (λ x. (x + 1) % ctx.win_size) c.turn
        ∙ mod-add-mod s.client.last_completed ctx.win_size 1;
    queued = c.queued;
    valid = c.valid;
    table = c.table;
    answered = λ i lo hi.
        subst (λ d. (d.ready ≡ 1) × Answers ctx m i d)
          (sym (
            kept i (
              slots_apart ctx s.client.last_completed i load.positive (omega arith)
                (omega (arith, c.window, c.served_first)))))
          (c.answered i (omega arith) hi);
    waiting = λ i lo hi. elim (ℕ_discrete i (s.client.last_completed + ctx.win_size)) [
      | yes e ↦
          subst (λ x. (update s.server.slots at done x).ready ≡ 0) (sym (again i e))
            (ap (λ d. d.ready) (update_same s.server.slots at done))
      | no ne ↦
          subst (λ d. d.ready ≡ 0)
            (sym (
              kept i (
                slots_apart ctx s.client.last_completed i load.positive (omega (arith, left))
                  (omega arith))))
            (c.waiting i lo (omega arith))
    ];
    results = λ i lt. elim (ℕ_discrete i s.client.last_completed) [
      | yes e ↦
          subst (λ x. Answers ctx m x (update s.client.res s.client.last_completed done x)) (sym e)
            (subst (Answers ctx m s.client.last_completed)
              (sym (update_same s.client.res s.client.last_completed done)) answer)
      | no ne ↦
          subst (Answers ctx m i)
            (sym (update_other s.client.res s.client.last_completed i _ (λ q. ne (sym q))))
            (c.results i (omega arith))
    ];
  }
    where
      at : ℕ
      at = comp_at ctx s.client.nxt_comp

      done : BufferDescriptor
      done = record (s.server.slots at) { ready = 0 }

      here_at : comp_at ctx (s.client.last_completed % ctx.win_size) ≡ at
      here_at = ap (comp_at ctx) (sym c.turn)

      left : s.client.last_completed < served
      left = elim (dec_lt s.client.last_completed served) [
        | yes lt ↦ lt
        | no ge ↦
            let blank : (s.server.slots at).ready ≡ 0 =
              subst (λ x. (s.server.slots x).ready ≡ 0) here_at
                (c.waiting s.client.last_completed (omega (arith, c.completed_first))
                  (omega (arith, load.positive))) in
            absurd (ground (arith, blank, h))
      ]

      kept :
          (i : ℕ)
          → comp_at ctx (s.client.last_completed % ctx.win_size) ≢ comp_at ctx (i % ctx.win_size)
          → update s.server.slots at done (comp_at ctx (i % ctx.win_size))
            ≡ s.server.slots (comp_at ctx (i % ctx.win_size))
      kept i ne =
          update_other s.server.slots at (comp_at ctx (i % ctx.win_size)) done
            (λ q. ne (here_at ∙ q))

      again :
          (i : ℕ) → i ≡ s.client.last_completed + ctx.win_size → comp_at ctx (i % ctx.win_size) ≡ at
      again i e =
          ap (comp_at ctx)
            (ap (λ x. x % ctx.win_size) e ∙ add-mod_right s.client.last_completed ctx.win_size)
          ∙ here_at

      answer : Answers ctx m s.client.last_completed done
      answer =
          let a =
            subst (λ x. Answers ctx m s.client.last_completed (s.server.slots x)) here_at
              (c.answered s.client.last_completed (omega arith) left).1 in
          record { key = a.key; value = a.value }

  -- Before a thread has submitted anything, its status board cleared and the ring empty.
  pub record IsFresh (s : System) : Type 0 where
    pub none_completed : s.client.last_completed ≡ 0
    pub none_submitted : s.client.last_submitted ≡ 0
    pub first_turn : s.client.nxt_comp ≡ 0
    pub empty : s.ring ≡ []
    pub valid : IsValid s.server.ht
    pub table : Holds s.server.ht m
    pub cleared : (i : ℕ) → (s.server.slots (comp_at ctx i)).ready ≡ 0

  IsFresh-IsConsistent : (s : System) → IsFresh s → IsConsistent ctx m s 0
  unfolding descriptors store_after
  IsFresh-IsConsistent s f = record {
    completed_first = omega (arith, f.none_completed);
    served_first = omega arith;
    all_requests = omega (arith, f.none_submitted);
    window = omega (arith, f.none_submitted);
    turn = f.first_turn ∙ sym (ap (λ x. x % ctx.win_size) f.none_completed ∙ zero-mod ctx.win_size);
    queued =
        let none_left : 0 ≡ s.client.last_submitted - 0 = omega (arith, f.none_submitted) in
        f.empty ∙ ap (descriptors ctx 0) none_left;
    valid = f.valid;
    table = f.table;
    answered = λ i lo hi. absurd (omega arith);
    waiting = λ i lo hi. f.cleared (i % ctx.win_size);
    results = λ i lt. absurd (omega (arith, f.none_completed));
  }

  -- How many requests have been carried out, submitted and completed.
  pub steps_done : System → ℕ → ℕ
  steps_done s served = s.client.last_submitted + served + s.client.last_completed

  Step-IsConsistent :
      {s t : System}
      → Step ctx s t
      → (served : ℕ) → IsConsistent ctx m s served
      → (served' : ℕ) × IsConsistent ctx m t served'
        × (steps_done t served' ≡ steps_done s served + 1)
  unfolding steps_done submit_one complete_one descriptors
  Step-IsConsistent (submit s h) served c = (served, submit-IsConsistent s served c h, omega arith)
  Step-IsConsistent (complete s h) served c =
      (served, complete-IsConsistent s served c h, omega arith)
  Step-IsConsistent (work s h) served c = worked (s.client.last_submitted - served) refl
    where
      worked :
          (n : ℕ)
          → s.client.last_submitted - served ≡ n
          → (served' : ℕ) × IsConsistent ctx m (work_one s) served'
            × (steps_done (work_one s) served' ≡ steps_done s served + 1)
      worked zero e = absurd (h (c.queued ∙ ap (descriptors ctx served) e))
      worked (suc n) e =
          let q : s.ring ≡ descriptor ctx served ∷ descriptors ctx (served + 1) n =
            c.queued ∙ ap (descriptors ctx served) e in
          rw (head-work_one s (descriptor ctx served) (descriptors ctx (served + 1) n) q)
            (suc served, work-IsConsistent s served n c e, omega arith)

  Reach-IsConsistent :
      {s t : System} {n : ℕ}
      → Reach ctx s n t
      → IsFresh s
      → (served : ℕ) × IsConsistent ctx m t served × (steps_done t served ≡ n)
  unfolding steps_done
  Reach-IsConsistent {s} here f =
      (0, IsFresh-IsConsistent s f, omega (arith, f.none_submitted, f.none_completed))
  Reach-IsConsistent (next r st) f =
      let (served, c, e) = Reach-IsConsistent r f in
      let (served', c', e') = Step-IsConsistent st served c in (served', c', omega arith)

  -- A step that can be taken while some request is not completed.
  never_stuck :
      (t : System) (served : ℕ)
      → IsConsistent ctx m t served
      → t.client.last_completed < ctx.num_reqs
      → (u : System) × Step ctx t u
  unfolding descriptors
  never_stuck t served c lt = elim (dec_lt t.client.last_completed served) [
    | yes ready ↦ (complete_one ctx t, complete t (completed ready))
    | no no_ready ↦ elim (dec_lt served t.client.last_submitted) [
      | yes ring ↦ (work_one t, work t (nonempty ring))
      | no empty ↦
          let low = c.completed_first in
          let mid = c.served_first in
          let pos = load.positive in (submit_one ctx t, submit t (ground arith))
    ]
  ]
    where
      completed : t.client.last_completed < served → may_complete ctx t ≡ true
      completed ready =
          let r : (t.server.slots (comp_at ctx t.client.nxt_comp)).ready ≡ 1 =
            subst (λ x. (t.server.slots (comp_at ctx x)).ready ≡ 1) (sym c.turn)
              (c.answered t.client.last_completed (omega arith) ready).0 in
          (==_iff (t.server.slots (comp_at ctx t.client.nxt_comp)).ready 1).1 r

      not_empty : (n : ℕ) → 0 < n → descriptors ctx served n ≢ []
      not_empty zero pos = absurd (omega arith)
      not_empty (suc n) pos = λ e. cc

      nonempty : served < t.client.last_submitted → t.ring ≢ []
      nonempty ring e =
          not_empty (t.client.last_submitted - served) (omega arith) (sym c.queued ∙ e)

-- Whatever the order in which a thread submits and collects and the worker carries out its
-- requests, all PUT or GET, fewer than 2^31, with a window that fits into the ring: no more than a
-- window of them is in flight, and each result collected has the key of its request and, for a GET,
-- the value that the requests before it leave.
pub results-Answers :
    (ctx : Context) (m : Store) (load : IsWorkload ctx) {s t : System} {n : ℕ}
    → IsFresh ctx m load s
    → Reach ctx s n t
    → (t.client.last_submitted ≤ t.client.last_completed + ctx.win_size)
      × ((i : ℕ) → i < t.client.last_completed → Answers ctx m i (t.client.res i))
results-Answers ctx m load f r =
    let (served, c, e) = Reach-IsConsistent ctx m load r f in (c.window, c.results)

-- Whatever the order in which a thread submits and collects and the worker carries out its
-- requests, all PUT or GET, fewer than 2^31, with a window of at most RING_SIZE: a run has at most
-- three steps for each request, and as long as a request is not completed a step can be taken. So
-- every run that goes on ends with all of them completed.
pub run_completes :
    (ctx : Context) (m : Store) (load : IsWorkload ctx) {s t : System} {n : ℕ}
    → IsFresh ctx m load s
    → Reach ctx s n t
    → (n ≤ 3 * ctx.num_reqs)
      × (t.client.last_completed < ctx.num_reqs → (u : System) × Step ctx t u)
unfolding steps_done
run_completes ctx m load {s} {t} f r =
    let (served, c, e) = Reach-IsConsistent ctx m load r f in
    (
      omega (arith, c.completed_first, c.served_first, c.all_requests, e),
      never_stuck ctx m load t served c,
    )
