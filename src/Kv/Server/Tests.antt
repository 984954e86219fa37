-- ===== src/Kv/Server/Tests.antt =====
-- The refinement of the server at short runs.
use schoolwork.Common.{◌≡◌, [], ◌∷◌, arith}
use schoolwork.Kv.Request.{BufferDescriptor, put_request, get_request}
use schoolwork.Kv.Table.{init_hash_table, find_key}
use schoolwork.Kv.Table.Laws.{init_hash_table-IsValid, find_key-init}
use schoolwork.Kv.Server.{ServerState, serve_all}
use schoolwork.Kv.Server.Refinement.{store_after, serve_all_refines}

abbrev no_request : BufferDescriptor
no_request = record { req_type = 0; k = 0; v = 0; res_off = 0; ready = 0 }

abbrev begun : ServerState
begun = record { ht = init_hash_table 4; slots = λ o. no_request }

abbrev put_5_7 : BufferDescriptor
put_5_7 = record { req_type = put_request; k = 5; v = 7; res_off = 64; ready = 0 }

abbrev put_9_8 : BufferDescriptor
put_9_8 = record { req_type = put_request; k = 9; v = 8; res_off = 96; ready = 0 }

abbrev get_5 : BufferDescriptor
get_5 = record { req_type = get_request; k = 5; v = 0; res_off = 32; ready = 0 }

-- Two keys of one bucket.
serve_all_refines_example : find_key (serve_all begun (put_5_7 ∷ put_9_8 ∷ get_5 ∷ [])).ht 5 ≡ 7
unfolding store_after
serve_all_refines_example =
    serve_all_refines begun (put_5_7 ∷ put_9_8 ∷ get_5 ∷ []) (λ j. 0)
      (init_hash_table-IsValid 4 (omega arith)) (find_key-init 4) 5
