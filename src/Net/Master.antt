-- ===== src/Net/Master.antt =====
-- src/net/net_master.cpp: the master's side of the connections. What it sends to the workers and
-- gets from them passes through queues, here lists with a bound.
--
-- Sockets are numbers that the system gives; what CreateTcpSocket and Listen return are arguments. A
-- callback is a number, and `calls` is the log of the callbacks' calls; what a callback calls of the
-- master is left out.
pub mod Requests
pub mod Laws
pub mod Send
mod Tests
use mzx.Array.{length, get_elem?, set}
use mzx.Base.{
  ℕ, zero, suc, ◌+◌, ◌-◌, ◌%◌, ◌^◌, Bool, true, false, ◌&&◌, not, Option, none, some, List, [], ◌∷◌,
  ◌++◌, ◌==◌, ltb, leb, if◌then◌else◌,
}
use mzx.Run.{Run, ok, abort, ◌>>=◌, ◌>>◌, check}
use mzx.Net.Ids.{
  net_connection_max_count, peer_connector, acceptor, parse_net_connection_type,
  parse_net_connection_index, parse_net_worker_index, init_net_connection_id,
}
use mzx.Net.Buffer
use mzx.Net.Buffer.{NetBuffer, write_available}

pub data NetInputEvent : Type 0 where
  send accept : ℕ → ℕ → NetInputEvent
  peer_connect disconnect : ℕ → NetInputEvent

-- the connection, its handler, and the buffer, the address or the error
pub data NetOutputEvent : Type 0 where
  recv connected disconnected : ℕ → ℕ → ℕ → NetOutputEvent

-- the callbacks of a NetAcceptorConf or a NetPeerConnectorConf, `none` for nullptr
pub record Conf : Type 0 where
  pub recv_cb : Option ℕ
  pub connect_cb : Option ℕ
  pub disconnect_cb : Option ℕ

pub record NetAcceptorInfo : Type 0 where
  pub id : ℕ
  pub sock : ℕ
  pub conf : Conf

pub record NetPeerConnectorInfo : Type 0 where
  pub id : ℕ
  pub worker_index : ℕ
  pub conf : Conf

-- what the master shares with a worker; `bytes` is what is in the buffers
pub record NetWorker : Type 0 where
  pub input_events : List NetInputEvent
  pub input_event_count : ℕ
  pub output_events : List NetOutputEvent
  pub free_input_buffers : List ℕ
  pub free_output_buffers : List ℕ
  pub buffer : ℕ → NetBuffer
  pub bytes : ℕ → List ℕ

-- a callback, the connection, and what it is told
pub record Called : Type 0 where
  pub cb : ℕ
  pub id : ℕ
  pub argument : ℕ

pub record NetMaster : Type 0 where
  pub worker_list : List NetWorker
  pub acceptor_list : List NetAcceptorInfo
  pub peer_connector_list : List NetPeerConnectorInfo
  pub handle_count : ℕ
  pub input_buffer_size : ℕ
  pub calls : List Called

abbrev pub id_invalid : ℕ
id_invalid = 2 ^ 64 - 1

abbrev pub acceptor_conf : ℕ → Option NetAcceptorInfo → Option Conf
acceptor_conf handler_id none = none
acceptor_conf handler_id (some a) = if a.id == handler_id then some a.conf else none

abbrev pub peer_connector_conf : ℕ → Option NetPeerConnectorInfo → Option Conf
peer_connector_conf handler_id none = none
peer_connector_conf handler_id (some p) = if p.id == handler_id then some p.conf else none

-- the search for the handler, which the three handlers of events share
unfoldable pub handler_conf : ℕ → NetMaster → Option Conf
handler_conf handler_id m =
    let handler_type = parse_net_connection_type handler_id in
    let handler_index = parse_net_connection_index handler_id in
    if handler_type == 2
    then acceptor_conf handler_id (get_elem? m.acceptor_list handler_index)
    else (if handler_type == 1
        then peer_connector_conf handler_id (get_elem? m.peer_connector_list handler_index)
        else none)

-- the callback is called when the handler is there and has it
abbrev pub call : Option ℕ → ℕ → ℕ → NetMaster → NetMaster
call none id argument m = m
call (some cb) id argument m = record m {
  calls = m.calls ++ record { cb = cb; id = id; argument = argument } ∷ [];
}

abbrev pub callback : (Conf → Option ℕ) → Option Conf → Option ℕ
callback field none = none
callback field (some conf) = field conf

unfoldable pub change_worker : ℕ → (NetWorker → NetWorker) → List NetWorker → List NetWorker
change_worker i f [] = []
change_worker zero f (w ∷ l) = f w ∷ l
change_worker (suc i) f (w ∷ l) = w ∷ change_worker i f l

-- HandleRecvEvent, HandleConnectedEvent and HandleDisconnectedEvent
unfoldable pub handle_event : ℕ → NetOutputEvent → NetMaster → NetMaster
unfolding handler_conf change_worker
handle_event worker (recv id handler_id buffer) m =
    let t = call (callback (λ c. c.recv_cb) (handler_conf handler_id m)) id buffer m in
    record t {
      worker_list =
          change_worker worker
            (λ w. record w { free_output_buffers = w.free_output_buffers ++ buffer ∷ [] })
            t.worker_list;
    }
handle_event worker (connected id handler_id addr) m =
    call (callback (λ c. c.connect_cb) (handler_conf handler_id m)) id addr m
handle_event worker (disconnected id handler_id error) m =
    call (callback (λ c. c.disconnect_cb) (handler_conf handler_id m)) id error m

-- the inner `for` of Update, with `rounds` events left to handle
-- `get_output_event` is NetWorker::GetOutputEvent, which is declared and nowhere defined: the event
-- that it stores and the worker that it leaves, or `none` where it returns false
module _ (get_output_event : NetWorker → Option (NetOutputEvent × NetWorker)) where
  unfoldable pub update_worker : ℕ → ℕ → NetMaster → NetMaster
  unfolding handle_event
  update_worker zero i m = m
  update_worker (suc rounds) i m =
      let rest = update_worker rounds i in
      elim (get_elem? m.worker_list i) [
        | none ↦ m
        | some w ↦ elim (get_output_event w) [
          | none ↦ m
          | some (event, u) ↦ rest (
              handle_event i event
                (record m { worker_list = change_worker i (λ w. u) m.worker_list }))
        ]
      ]

  unfoldable pub update_workers : ℕ → ℕ → NetMaster → NetMaster
  unfolding update_worker
  update_workers zero i m = m
  update_workers (suc count) i m = update_workers count (suc i) (update_worker m.handle_count i m)

  unfoldable pub update_all : NetMaster → NetMaster
  unfolding update_workers
  update_all m = update_workers (length m.worker_list) 0 m
