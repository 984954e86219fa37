-- ===== src/Kv/Client/Tests.antt =====
-- A client with two requests and a window of one.
use schoolwork.Common.{ℕ, zero, suc, ◌+◌, ◌*◌, ◌≤◌, ◌<◌, ◌≡◌, refl, ◌⊎◌, inl, inr, [], arith}
use schoolwork.Kv.Request.{BufferDescriptor, put_request, get_request}
use schoolwork.Kv.Table.{init_hash_table}
use schoolwork.Kv.Table.Laws.{init_hash_table-IsValid, find_key-init}
use schoolwork.Kv.Server.{serve}
use schoolwork.Kv.Client.{
  Context, System, Requests, submit_one, work_one, complete_one, Step, submit, work, complete,
  Reach, here, next,
}
use schoolwork.Kv.Client.Window.{IsWorkload, IsFresh, Answers, results-Answers, run_completes}

abbrev two_requests : Requests
two_requests zero = record { k = 5; v = 7; t = put_request }
two_requests (suc i) = record { k = 5; v = 0; t = get_request }

abbrev one_thread : Context
one_thread = record { num_reqs = 2; win_size = 1; comp_off = 64; reqs = two_requests }

abbrev no_result : BufferDescriptor
no_result = record { req_type = 0; k = 0; v = 0; res_off = 0; ready = 0 }

abbrev begun : System
begun = record {
  client = record { last_completed = 0; last_submitted = 0; nxt_comp = 0; res = λ i. no_result };
  ring = [];
  server = record { ht = init_hash_table 4; slots = λ o. no_result };
}

one_thread-IsWorkload : IsWorkload one_thread
one_thread-IsWorkload = record {
  positive = omega arith;
  in_ring = omega arith;
  few = omega arith;
  known = known_types;
}
  where
    known_types :
        (i : ℕ) → i < 2 → ((two_requests i).t ≡ put_request) ⊎ ((two_requests i).t ≡ get_request)
    known_types zero lt = inl refl
    known_types (suc i) lt = inr refl

begun-IsFresh : IsFresh one_thread (λ j. 0) one_thread-IsWorkload begun
begun-IsFresh = record {
  none_completed = refl;
  none_submitted = refl;
  first_turn = refl;
  empty = refl;
  valid = init_hash_table-IsValid 4 (omega arith);
  table = find_key-init 4;
  cleared = λ i. refl;
}

abbrev submitted : System
submitted = submit_one one_thread begun

abbrev worked : System
worked = work_one submitted

one_round : Reach one_thread begun 3 (complete_one one_thread worked)
unfolding submit_one work_one serve
one_round =
    next (next (next here (submit begun refl)) (work submitted (λ e. cc))) (complete worked refl)

results-Answers_example :
    ((complete_one one_thread worked).client.last_submitted
      ≤ (complete_one one_thread worked).client.last_completed + 1)
    × ((i : ℕ)
        → i < (complete_one one_thread worked).client.last_completed
        → Answers one_thread (λ j. 0) i ((complete_one one_thread worked).client.res i))
results-Answers_example =
    results-Answers one_thread (λ j. 0) one_thread-IsWorkload begun-IsFresh one_round

run_completes_example :
    (3 ≤ 3 * 2)
    × ((complete_one one_thread worked).client.last_completed < 2
        → (u : System) × Step one_thread (complete_one one_thread worked) u)
run_completes_example =
    run_completes one_thread (λ j. 0) one_thread-IsWorkload begun-IsFresh one_round
