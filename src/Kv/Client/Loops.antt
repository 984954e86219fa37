-- ===== src/Kv/Client/Loops.antt =====
-- The loops of a client's thread as runs of steps, the threads beside one another, and the reading
-- of the workload.
use schoolwork.Common.{
  ℕ, zero, suc, ◌+◌, ◌*◌, ◌≤◌, ◌<◌, ◌≡◌, ◌∙◌, ◌≢◌, inl, inr, true, List, [], ◌∷◌, arith, Bool-cases,
  All,
}
use native.Mathlib.Nat.{mul-le-mul_right}
use schoolwork.Common.Bytes.{Bytes}
use schoolwork.Kv.Client.{
  Context, System, Requests, comp_at, submit_one, may_submit, submit_reqs, complete_one,
  may_complete, process_completions, thread_context, add_line_to_req, read_lines, count_lines,
  submit, complete, Reach, here, next,
}

-- From the one state the other is reached in some number of steps.
abbrev pub Reaches : Context → System → System → Type 0
Reaches ctx s t = (n : ℕ) × Reach ctx s n t

submit_reqs-Reaches :
    (ctx : Context) (n : ℕ) (s t : System) → Reaches ctx s t → Reaches ctx s (submit_reqs ctx n t)
unfolding submit_reqs
submit_reqs-Reaches ctx zero s t r = r
submit_reqs-Reaches ctx (suc n) s t (k, r) = elim (Bool-cases (may_submit ctx t)) [
  | inl h ↦
      rw (h, submit_reqs)
        (submit_reqs-Reaches ctx n s (submit_one ctx t) (suc k, next r (submit t h)))
  | inr h ↦ rw (h, submit_reqs) (k, r)
]

process_completions-Reaches :
    (ctx : Context) (n : ℕ) (s t : System)
    → Reaches ctx s t
    → Reaches ctx s (process_completions ctx n t)
unfolding process_completions
process_completions-Reaches ctx zero s t r = r
process_completions-Reaches ctx (suc n) s t (k, r) = elim (Bool-cases (may_complete ctx t)) [
  | inl h ↦
      rw (h, process_completions)
        (process_completions-Reaches ctx n s (complete_one ctx t) (suc k, next r (complete t h)))
  | inr h ↦ rw (h, process_completions) (k, r)
]

-- A round of `thread_function` is a run of steps.
pub round-Reaches :
    (ctx : Context) (n : ℕ) (s : System)
    → Reaches ctx s (process_completions ctx n (submit_reqs ctx n s))
round-Reaches ctx n s =
    process_completions-Reaches ctx n s (submit_reqs ctx n s)
      (submit_reqs-Reaches ctx n s s (0, here))

-- The places in the shared memory of two threads, and the requests that they take.
module _ (ring_bytes : ℕ) (requests : Requests) (num_requests num_threads win_size a b : ℕ)
    (lt : a < b) where
  -- Two threads use no slot in common.
  pub slots-ne :
      (i j : ℕ)
      → i < win_size
      → j < win_size
      → (comp_at (thread_context ring_bytes requests num_requests num_threads win_size a) i
          ≢ comp_at (thread_context ring_bytes requests num_requests num_threads win_size b) j)
  unfolding thread_context
  slots-ne i j hi hj e =
      let below : (a + 1) * win_size ≤ b * win_size = mul-le-mul_right win_size lt' in
      let spread : (a + 1) * win_size ≡ a * win_size + win_size = grind arith in omega arith
    where
      lt' : a + 1 ≤ b
      lt' = omega arith

module _ (atoi : Bytes → ℕ) where
  -- A line that `add_line_to_req` accepts.
  abbrev pub IsRequest : Bytes → Type 0
  IsRequest line = (rs : Requests) (index : ℕ) → (add_line_to_req atoi line rs index).0 ≡ true

  read_lines_more :
      (line : Bytes) (lines : List Bytes) (buffer : Bytes) (rs : Requests) (index : ℕ)
      → IsRequest line
      → All IsRequest lines
      → (read_lines atoi (line ∷ lines) [] buffer rs index).0
        ≡ index + count_lines (line ∷ lines) + 1
  unfolding read_lines count_lines
  read_lines_more line [] buffer rs index ok oks =
      rw (ok rs index) (rw (ok (add_line_to_req atoi line rs index).1 (index + 1)) (omega arith))
  read_lines_more line (line' ∷ lines) buffer rs index ok oks =
      rw (ok rs index, read_lines)
        (read_lines_more line' lines line (add_line_to_req atoi line rs index).1 (index + 1) oks.0
            oks.1
          ∙ omega arith)

  -- A workload of at least one line, each accepted and each with its newline: one request more is
  -- stored than `count_lines` has made room for.
  pub read_lines_twice :
      (line : Bytes) (lines : List Bytes) (buffer : Bytes) (rs : Requests)
      → IsRequest line
      → All IsRequest lines
      → (read_lines atoi (line ∷ lines) [] buffer rs 0).0 ≡ count_lines (line ∷ lines) + 1
  read_lines_twice line lines buffer rs ok oks =
      read_lines_more line lines buffer rs 0 ok oks ∙ omega arith
