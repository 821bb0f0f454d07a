-- ===== src/Net/Master/Tests.antt =====
-- A master with one worker, run and checked.
use mzx.Base.{Option, ℕ, ◌≡◌, ◌≢◌, refl, true, none, some, [], ◌∷◌, arith}
use mzx.Run.{Returns}
use mzx.Net.Ids.{parse_net_connection_type, parse_net_connection_index}
use mzx.Net.Buffer.{NetBuffer}
use mzx.Net.Master.{
  NetMaster, NetWorker, NetOutputEvent, Conf, recv, connected, handler_conf, handle_event,
  update_all, update_workers, update_worker, change_worker,
}
use mzx.Net.Master.Requests.{add_acceptor, add_peer_connector}
use mzx.Net.Master.Laws.{add_acceptor-handler_conf, add_peer_connector-handler_conf}

abbrev blank_buffer : NetBuffer
blank_buffer = record { size = 64; read_pos = 0; write_pos = 0 }

-- the output queue holds an event for the first acceptor and one for an id that nobody has
abbrev first_worker : NetWorker
first_worker = record {
  input_events = [];
  input_event_count = 4;
  output_events = recv 5 0x200_0000_0000_0000 1 ∷ connected 6 0x100_0000_0000_0009 2 ∷ [];
  free_input_buffers = 3 ∷ 4 ∷ [];
  free_output_buffers = [];
  buffer = λ b. blank_buffer;
  bytes = λ b. [];
}

abbrev conf : Conf
conf = record { recv_cb = some 11; connect_cb = none; disconnect_cb = some 13 }

abbrev master : NetMaster
master = record {
  worker_list = first_worker ∷ [];
  acceptor_list = record { id = 0x200_0000_0000_0000; sock = 9; conf = conf } ∷ [];
  peer_connector_list = [];
  handle_count = 128;
  input_buffer_size = 64;
  calls = [];
}

add_acceptor-handler_conf_example :
    Returns
      (λ (t, id).
        (handler_conf id t ≡ some conf)
        × ((other : ℕ) → other ≢ id → handler_conf other t ≡ handler_conf other master))
      (add_acceptor (some 10) true conf master)
add_acceptor-handler_conf_example =
    add_acceptor-handler_conf 10 conf master (omega arith) (omega arith)

add_peer_connector-handler_conf_example :
    Returns
      (λ (t, id).
        (handler_conf id t ≡ some conf)
        × ((other : ℕ) → other ≢ id → handler_conf other t ≡ handler_conf other master))
      (add_peer_connector conf master)
add_peer_connector-handler_conf_example =
    add_peer_connector-handler_conf conf master first_worker (omega arith) (omega arith) refl
      (omega arith)

-- a GetOutputEvent that takes the first event of the list
abbrev get_first : NetWorker → Option (NetOutputEvent × NetWorker)
get_first w = elim w.output_events [
  | [] ↦ none
  | event ∷ l ↦ some (event, record w { output_events = l })
]

called : (update_all get_first master).calls ≡ record { cb = 11; id = 5; argument = 1 } ∷ []
unfolding update_all update_workers update_worker handle_event handler_conf change_worker
    parse_net_connection_type parse_net_connection_index
called = refl
