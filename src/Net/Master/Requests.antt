-- ===== src/Net/Master/Requests.antt =====
-- src/net/net_master.cpp: what the master asks of the workers (AddAcceptor, AddPeerConnector, Send and
-- Disconnect).
use mzx.Array.{length, get_elem?}
use mzx.Base.{
  ℕ, ◌-◌, ◌%◌, Bool, true, false, ◌&&◌, Option, none, some, List, [], ◌∷◌, ◌++◌, ◌==◌, ltb, leb,
  if◌then◌else◌,
}
use mzx.Run.{Run, ok, abort, ◌>>=◌, ◌>>◌, check}
use mzx.Net.Ids.{
  net_connection_max_count, peer_connector, acceptor, parse_net_connection_type,
  parse_net_connection_index, parse_net_worker_index, init_net_connection_id,
}
use mzx.Net.Buffer
use mzx.Net.Buffer.{NetBuffer, write_available}
use mzx.Net.Master.{
  NetInputEvent, send, accept, peer_connect, disconnect, Conf, NetWorker, NetMaster, id_invalid,
  change_worker,
}

abbrev pub input_event_write_available : NetWorker → ℕ
input_event_write_available w = w.input_event_count - length w.input_events

-- AddInputEvent of the worker: false when its queue is full
unfoldable pub add_input_event : NetInputEvent → NetWorker → NetWorker × Bool
add_input_event event w =
    if ltb (length w.input_events) w.input_event_count
    then (record w { input_events = w.input_events ++ event ∷ [] }, true)
    else (w, false)

unfoldable pub add_to_all : NetInputEvent → List NetWorker → List NetWorker
unfolding add_input_event
add_to_all event [] = []
add_to_all event (w ∷ l) = (add_input_event event w).0 ∷ add_to_all event l

-- `created` is the socket of CreateTcpSocket, and `listens` says whether Listen succeeds
unfoldable pub add_acceptor :
    (created : Option ℕ) → (listens : Bool) → Conf → NetMaster → Run (NetMaster × ℕ)
unfolding add_to_all
add_acceptor created listens conf m =
    let count = length m.acceptor_list in
    check (ltb count net_connection_max_count && ltb 0 (length m.worker_list)) >> elim created [
      | none ↦ ok (m, id_invalid)
      | some sock ↦
          if listens
          then (init_net_connection_id acceptor 0 count >>= λ id. ok (
            record m {
              acceptor_list = m.acceptor_list ++ record { id = id; sock = sock; conf = conf } ∷ [];
              worker_list = add_to_all (accept id sock) m.worker_list;
            },
            id,
          ))
          else ok (m, id_invalid)
    ]

unfoldable pub add_peer_connector : Conf → NetMaster → Run (NetMaster × ℕ)
unfolding change_worker add_input_event
add_peer_connector conf m =
    let count = length m.peer_connector_list in
    let worker_index = count % length m.worker_list in
    check (ltb count net_connection_max_count && ltb 0 (length m.worker_list))
    >> elim (get_elem? m.worker_list worker_index) [
      | none ↦ abort
      | some w ↦
          if input_event_write_available w == 0
          then ok (m, id_invalid)
          else (init_net_connection_id peer_connector 0 count >>= λ id. ok (
            record m {
              peer_connector_list =
                  m.peer_connector_list
                  ++ record { id = id; worker_index = worker_index; conf = conf } ∷ [];
              worker_list =
                  change_worker worker_index (λ w. (add_input_event (peer_connect id) w).0)
                    m.worker_list;
            },
            if (add_input_event (peer_connect id) w).1 then id else id_invalid,
          ))
    ]

-- the worker of a connection: `none` where Send returns false, and a fatal error for an acceptor
unfoldable pub worker_of : ℕ → NetMaster → Run (Option ℕ)
worker_of id m =
    if parse_net_connection_type id == 0
    then ok (some (parse_net_worker_index id))
    else (if parse_net_connection_type id == 1
        then elim (get_elem? m.peer_connector_list (parse_net_connection_index id)) [
          | none ↦ ok none
          | some p ↦ ok (some p.worker_index)
        ]
        else abort)

-- the buffer after memcpy and Write, and the event for the worker
unfoldable pub push_data : ℕ → List ℕ → ℕ → List ℕ → NetWorker → Run (NetWorker × Bool)
unfolding add_input_event
push_data id bytes b rest w =
    check (leb (length bytes) (write_available (w.buffer b)))
    >> (Buffer.write (w.buffer b) (length bytes) >>= λ filled. ok (
        add_input_event (send id b) (record w {
          free_input_buffers = rest;
          buffer = λ k. if k == b then filled else w.buffer k;
          bytes = λ k. if k == b then w.bytes b ++ bytes else w.bytes k;
        })))

-- Send with the buffers that are free
unfoldable pub send_with : ℕ → ℕ → List ℕ → NetMaster → NetWorker → List ℕ → Run (NetMaster × Bool)
unfolding push_data change_worker
send_with worker_index id bytes m w [] = ok (m, false)
send_with worker_index id bytes m w (b ∷ rest) = push_data id bytes b rest w >>= λ (u, sent).
    ok (record m { worker_list = change_worker worker_index (λ x. u) m.worker_list }, sent)

unfoldable pub send_to : ℕ → ℕ → List ℕ → NetMaster → Run (NetMaster × Bool)
unfolding send_with
send_to worker_index id bytes m = elim (get_elem? m.worker_list worker_index) [
  | none ↦ abort
  | some w ↦
      if input_event_write_available w == 0
      then ok (m, false)
      else send_with worker_index id bytes m w w.free_input_buffers
]

unfoldable pub send_data : ℕ → List ℕ → NetMaster → Run (NetMaster × Bool)
unfolding worker_of send_to
send_data id bytes m =
    check (ltb 0 (length bytes) && leb (length bytes) m.input_buffer_size)
    >> (worker_of id m >>= λ found. elim found [
      | none ↦ ok (m, false)
      | some worker_index ↦ send_to worker_index id bytes m
    ])

unfoldable pub disconnect_from : ℕ → NetMaster → Run (NetMaster × Bool)
unfolding change_worker add_input_event
disconnect_from id m =
    check (parse_net_connection_type id == 0)
    >> elim (get_elem? m.worker_list (parse_net_worker_index id)) [
      | none ↦ abort
      | some w ↦
          if input_event_write_available w == 0
          then ok (m, false)
          else ok (
            record m {
              worker_list =
                  change_worker (parse_net_worker_index id)
                    (λ x. (add_input_event (disconnect id) x).0) m.worker_list;
            },
            (add_input_event (disconnect id) w).1,
          )
    ]
