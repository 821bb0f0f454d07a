-- ===== src/Net/Master/Laws.antt =====
-- The id that AddAcceptor or AddPeerConnector returns finds the callbacks again.
use mzx.Array.{length, get_elem?}
use mzx.Base.{
  ℕ, zero, suc, ◌%◌, ◌<◌, ◌≡◌, ◌≢◌, refl, true, false, ◌&&◌, none, some, List, [], ◌∷◌, ◌++◌, ◌==◌,
  ltb, if◌then◌else◌, arith, Bool-cases, inl, inr,
}
use mzx.Run.{Returns, returns, and_then}
use mzx.Net.Ids.{
  net_connection_max_count, peer_connector, acceptor, parse_net_connection_type,
  parse_net_connection_index,
}
use mzx.Net.Ids.Laws.{init_net_connection_id-ParsesTo}
use mzx.Net.Master.{
  NetMaster, NetWorker, Conf, NetAcceptorInfo, NetPeerConnectorInfo, handler_conf, acceptor_conf,
  peer_connector_conf,
}
use mzx.Net.Master.Requests.{
  add_acceptor, add_peer_connector, add_input_event, input_event_write_available,
}

get_elem?-snoc {ℓ} :
    {A : Type ℓ} (l : List A) (x : A) (i : ℕ)
    → get_elem? (l ++ x ∷ []) i ≡ (if i == length l then some x else get_elem? l i)
get_elem?-snoc [] x zero = ground arith
get_elem?-snoc [] x (suc i) = ground arith
get_elem?-snoc (y ∷ l) x zero = ground arith
get_elem?-snoc (y ∷ l) x (suc i) = let h = get_elem?-snoc l x i in ground (arith, h)

get_elem?-past {ℓ} : {A : Type ℓ} (l : List A) (i : ℕ) → i ≡ length l → get_elem? l i ≡ none
get_elem?-past [] i h = refl
get_elem?-past (x ∷ l) zero h = absurd (omega (arith, h))
get_elem?-past (x ∷ l) (suc i) h = get_elem?-past l i (omega (arith, h))

acceptor_added :
    (id sock : ℕ) (conf : Conf) (l : List NetAcceptorInfo)
    → parse_net_connection_index id ≡ length l
    → (acceptor_conf id (
          get_elem?
            (l ++ record { id = id; sock = sock; conf = conf } ∷ [])
            (parse_net_connection_index id))
        ≡ some conf)
      × ((other : ℕ)
          → other ≢ id
          → acceptor_conf other (
              get_elem?
                (l ++ record { id = id; sock = sock; conf = conf } ∷ [])
                (parse_net_connection_index other))
            ≡ acceptor_conf other (get_elem? l (parse_net_connection_index other)))
acceptor_added id sock conf l h =
    let x : NetAcceptorInfo = record { id = id; sock = sock; conf = conf } in
    let hit : (id == id) ≡ true = ground arith in
    let last : (parse_net_connection_index id == length l) ≡ true = ground (arith, h) in
    (
      rw (get_elem?-snoc l x (parse_net_connection_index id), last, hit) refl,
      λ other ne.
          rw (get_elem?-snoc l x (parse_net_connection_index other))
            (elim (Bool-cases (parse_net_connection_index other == length l)) [
              | inl q ↦
                  let miss : (id == other) ≡ false = ground (arith, ne) in
                  rw
                    (
                      q,
                      get_elem?-past l (parse_net_connection_index other) (ground (arith, q)),
                      miss,
                    )
                    refl
              | inr q ↦ rw q refl
            ]),
    )

peer_connector_added :
    (id worker : ℕ) (conf : Conf) (l : List NetPeerConnectorInfo)
    → parse_net_connection_index id ≡ length l
    → (peer_connector_conf id (
          get_elem?
            (l ++ record { id = id; worker_index = worker; conf = conf } ∷ [])
            (parse_net_connection_index id))
        ≡ some conf)
      × ((other : ℕ)
          → other ≢ id
          → peer_connector_conf other (
              get_elem?
                (l ++ record { id = id; worker_index = worker; conf = conf } ∷ [])
                (parse_net_connection_index other))
            ≡ peer_connector_conf other (get_elem? l (parse_net_connection_index other)))
peer_connector_added id worker conf l h =
    let x : NetPeerConnectorInfo = record { id = id; worker_index = worker; conf = conf } in
    let hit : (id == id) ≡ true = ground arith in
    let last : (parse_net_connection_index id == length l) ≡ true = ground (arith, h) in
    (
      rw (get_elem?-snoc l x (parse_net_connection_index id), last, hit) refl,
      λ other ne.
          rw (get_elem?-snoc l x (parse_net_connection_index other))
            (elim (Bool-cases (parse_net_connection_index other == length l)) [
              | inl q ↦
                  let miss : (id == other) ≡ false = ground (arith, ne) in
                  rw
                    (
                      q,
                      get_elem?-past l (parse_net_connection_index other) (ground (arith, q)),
                      miss,
                    )
                    refl
              | inr q ↦ rw q refl
            ]),
    )

-- AddAcceptor, whose socket is created and listens, with room for another id, returns an id of its
-- own: the events of that handler go to the acceptor's callbacks, and those of every other handler
-- where they went before.
pub add_acceptor-handler_conf :
    (sock : ℕ) (conf : Conf) (m : NetMaster)
    → length m.acceptor_list < net_connection_max_count
    → 0 < length m.worker_list
    → Returns
        (λ (t, id).
          (handler_conf id t ≡ some conf)
          × ((other : ℕ) → other ≢ id → handler_conf other t ≡ handler_conf other m))
        (add_acceptor (some sock) true conf m)
unfolding add_acceptor handler_conf
add_acceptor-handler_conf sock conf m h k =
    let count = length m.acceptor_list in
    let pass : (ltb count net_connection_max_count && ltb 0 (length m.worker_list)) ≡ true =
      ground (arith, h, k) in
    rw pass (
      and_then (init_net_connection_id-ParsesTo acceptor 0 count (omega arith) (omega (arith, h)))
        λ id (type, _, index).
          let (own, others) = acceptor_added id sock conf m.acceptor_list index in
          let is_acceptor : (parse_net_connection_type id == 2) ≡ true = ground (arith, type) in
          returns (
            rw is_acceptor own,
            λ other ne. elim (Bool-cases (parse_net_connection_type other == 2)) [
              | inl q ↦ rw q (others other ne)
              | inr q ↦ rw q refl
            ],
          ))

-- AddPeerConnector, when the worker whose turn it is has room in its queue and there is room for
-- another id, returns an id of its own: the events of that handler go to its callbacks, and those
-- of every other handler where they went before.
pub add_peer_connector-handler_conf :
    (conf : Conf) (m : NetMaster) (w : NetWorker)
    → length m.peer_connector_list < net_connection_max_count
    → 0 < length m.worker_list
    → get_elem? m.worker_list (length m.peer_connector_list % length m.worker_list) ≡ some w
    → length w.input_events < w.input_event_count
    → Returns
        (λ (t, id).
          (handler_conf id t ≡ some conf)
          × ((other : ℕ) → other ≢ id → handler_conf other t ≡ handler_conf other m))
        (add_peer_connector conf m)
unfolding add_peer_connector handler_conf add_input_event
add_peer_connector-handler_conf conf m w h k e room =
    let count = length m.peer_connector_list in
    let worker = count % length m.worker_list in
    let pass : (ltb count net_connection_max_count && ltb 0 (length m.worker_list)) ≡ true =
      ground (arith, h, k) in
    let free : (input_event_write_available w == 0) ≡ false = ground (arith, room) in
    let pushed : ltb (length w.input_events) w.input_event_count ≡ true = ground (arith, room) in
    rw (pass, add_peer_connector, e, free)
      (and_then
        (init_net_connection_id-ParsesTo peer_connector 0 count (omega arith) (omega (arith, h)))
        λ id (type, _, index).
          let (own, others) = peer_connector_added id worker conf m.peer_connector_list index in
          let is_peer : (parse_net_connection_type id == 2) ≡ false = ground (arith, type) in
          let is_peer' : (parse_net_connection_type id == 1) ≡ true = ground (arith, type) in
          returns (
            rw (pushed, is_peer, is_peer') own,
            rw pushed (λ other ne. elim (Bool-cases (parse_net_connection_type other == 2)) [
              | inl q ↦ rw q refl
              | inr q ↦ rw q (elim (Bool-cases (parse_net_connection_type other == 1)) [
                | inl r ↦ rw r (others other ne)
                | inr r ↦ rw r refl
              ])
            ]),
          ))
