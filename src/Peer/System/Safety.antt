-- ===== src/Peer/System/Safety.antt =====
-- Every peer that events lead to handles the next event without a fault.
use libbayeux.Prelude.{◌≡◌, refl, sym, subst, ◌∙◌, List, [], some, ◌>>=◌}
use libbayeux.Libc.{CString, codes}
use libbayeux.Json.{JsonC, Laws}
use libbayeux.MsgQueue.Entries.{Entry, IsQueue}
use libbayeux.Client.{Client}
use libbayeux.Client.Api.{BayeuxClientOpts, bayeux_client_create}
use libbayeux.Client.Channels.Table.{Table, HasTable}
use libbayeux.Client.Channels.Heard.{Heard, Heard-same}
use libbayeux.Client.System.Effects.{handle-Heard}
use libbayeux.Client.System.{Event, handle}
use libbayeux.Client.System.Safety.{create-IsSession, handle-IsSession, table_after}
use libbayeux.Client.System.Unique.{IsQueue-unique, HasTable-unique}
use libbayeux.Transport.Libs.{Curl, CurlMsg, CurlLaws, Events}
use libbayeux.Transport.Dispatch.{
  transport_type_http_long_polling, transport_open, transport_http_long_polling_create,
}
use libbayeux.Transport.Calls.{Bodies, AreConns}
use libbayeux.Peer.{Peer, create_peer, on_client}
use libbayeux.Peer.System.{
  PeerEvent, local, flush_due, socket_due, timeout_due, timer_elapsed, with_timer, IsPeer,
  handle_peer, AdmitsPeer, PeerStep, peer_step, PeerReach, created, stepped,
}
use libbayeux.Peer.System.Unique.{AreConns-unique}
use libbayeux.Peer.System.Sending.{flush-IsPeer}
use libbayeux.Peer.System.Receiving.{socket_ready-IsPeer, timer_expired-IsPeer}

-- Only a subscription changes the table.
abbrev pub peer_table : {J T : Type 0} → PeerEvent J T → Table → Table
peer_table (local event) table = table_after event table
peer_table flush_due table = table
peer_table (socket_due fuel fd kind) table = table
peer_table (timeout_due fuel) table = table
peer_table (timer_elapsed timer) table = table

module _ {M K E T J : Type 0} (json : JsonC J) (curl : Curl M K) (ev : Events E T) where
  on_client_steps :
      (event : Event J T) (peer : Peer M E T J) (c' : Client J T)
      → handle json ev.timers event peer.client ≡ some c'
      → on_client (handle json ev.timers event) peer ≡ some (record peer { client = c' })
  unfolding on_client
  on_client_steps event peer c' ran = rw (ran, ◌>>=◌) refl

  abbrev pub new_peer : CString → BayeuxClientOpts → E → Peer M E T J
  new_peer endpoint opts ev_base = record {
    client = bayeux_client_create J ev.timers endpoint opts;
    transport = record {
      type_tag = transport_type_http_long_polling;
      long_polling =
          transport_http_long_polling_create J curl ev ev_base (codes "http://localhost:5000/faye");
    };
  }

  pub create_peer-new_peer :
      (endpoint : CString) (opts : BayeuxClientOpts) (ev_base : E)
      → create_peer json curl ev endpoint opts ev_base ≡ some (new_peer endpoint opts ev_base)
  unfolding create_peer transport_open
  create_peer-new_peer endpoint opts ev_base = refl

  pub new_peer-IsPeer :
      (endpoint : CString) (opts : BayeuxClientOpts) (ev_base : E)
      → IsPeer (new_peer endpoint opts ev_base) [] [] []
  unfolding transport_http_long_polling_create
  new_peer-IsPeer endpoint opts ev_base = record {
    session = create-IsSession J ev.timers endpoint opts;
    conns = tt;
  }

  created-IsPeer :
      (endpoint : CString) (opts : BayeuxClientOpts) (ev_base : E) (peer : Peer M E T J)
      → create_peer json curl ev endpoint opts ev_base ≡ some peer
      → IsPeer peer [] [] []
  created-IsPeer endpoint opts ev_base peer made =
      let same : some (new_peer endpoint opts ev_base) ≡ some peer =
        sym (create_peer-new_peer endpoint opts ev_base) ∙ made in
      let it : new_peer endpoint opts ev_base ≡ peer = cc in
      subst (λ (p : Peer M E T J). IsPeer p [] [] []) it (new_peer-IsPeer endpoint opts ev_base)

module _ {M K E T J : Type 0} (json : JsonC J) (curl : Curl M K) (ev : Events E T)
    (waiting : M → List (CurlMsg K)) where
  -- One event of a peer between two events (`IsPeer`: its client is a session, and the connections
  -- that are not freed hold the texts that came for them), for a json-c and a libcurl that keep their
  -- laws: a call or timer of the client, its flush timer, a ready socket, libcurl's timeout and time that
  -- passes are
  -- handled without a fault, the peer is between two events again, and only callbacks of the table were
  -- called. Asked are of a call of the application what `Admits` says; of the flush timer that the
  -- request fits, and that the handshake which is to be sent, if there is one, is in the outbox; of
  -- libcurl what `Acts` says, of the bodies of the finished transfers that each is an array, and fuel
  -- above their number.
  pub handle_peer-IsPeer :
      Laws json
      → CurlLaws curl waiting
      → (event : PeerEvent J T) (peer : Peer M E T J) (es : List (Entry J)) (table : Table)
        (texts : Bodies)
      → IsPeer peer es table texts
      → AdmitsPeer json curl ev waiting peer es table texts event
      → (peer' : Peer M E T J) × (es' : List (Entry J)) × (texts' : Bodies) × (handle_peer json curl
            ev event peer
          ≡ some peer')
        × IsPeer peer' es' (peer_table event table) texts'
        × Heard table peer.client peer'.client
  unfolding handle_peer
  handle_peer-IsPeer laws curl_laws (local event) peer es table texts v (call, ok) =
      let (c', es', ran, v') =
        handle-IsSession json ev.timers laws event peer.client es table v.session ok in
      (
        record peer { client = c' },
        es',
        texts,
        on_client_steps json curl ev event peer c' ran,
        record { session = v'; conns = v.conns },
        handle-Heard json ev.timers laws event peer.client c' es table v.session ok ran,
      )
  handle_peer-IsPeer laws curl_laws flush_due peer es table texts v ok =
      let (peer', es', texts', ran, v', heard) =
        flush-IsPeer json curl ev laws peer es table texts v ok in
      (peer', es', texts', ran, v', heard)
  handle_peer-IsPeer laws curl_laws (socket_due fuel fd kind) peer es table texts v ok =
      let (peer', es', texts', ran, v', heard) =
        socket_ready-IsPeer json curl ev waiting curl_laws fuel fd kind peer es table texts v ok in
      (peer', es', texts', ran, v', heard)
  handle_peer-IsPeer laws curl_laws (timeout_due fuel) peer es table texts v ok =
      let (peer', es', texts', ran, v', heard) =
        timer_expired-IsPeer json curl ev waiting curl_laws fuel peer es table texts v ok in
      (peer', es', texts', ran, v', heard)
  handle_peer-IsPeer laws curl_laws (timer_elapsed timer) peer es table texts v ok = (
    with_timer timer peer,
    es,
    texts,
    refl,
    record { session = v.session; conns = v.conns },
    Heard-same table peer.client peer.client refl,
  )

  -- What a view of a peer admits, another view of it does.
  AdmitsPeer-unique :
      (event : PeerEvent J T) (peer : Peer M E T J) (es fs : List (Entry J)) (table table1 : Table)
      (texts texts1 : Bodies)
      → IsQueue peer.client.outbox es
      → HasTable peer.client table
      → AreConns peer.transport.long_polling.conns texts
      → IsPeer peer fs table1 texts1
      → AdmitsPeer json curl ev waiting peer es table texts event
      → AdmitsPeer json curl ev waiting peer fs table1 texts1 event
  AdmitsPeer-unique event peer es fs table table1 texts texts1 q held conns v ok =
      let entries : es ≡ fs = IsQueue-unique peer.client.outbox es fs q v.session.client.queue in
      let tables : table ≡ table1 =
        HasTable-unique peer.client table table1 held v.session.client.table_held in
      let bodies : texts ≡ texts1 =
        AreConns-unique peer.transport.long_polling.conns texts texts1 conns v.conns in
      subst (λ b. AdmitsPeer json curl ev waiting peer fs table1 b event) bodies
        (subst (λ t. AdmitsPeer json curl ev waiting peer fs t texts event) tables
          (subst (λ l. AdmitsPeer json curl ev waiting peer l table texts event) entries ok))

  PeerStep-IsPeer :
      Laws json
      → CurlLaws curl waiting
      → (peer peer' : Peer M E T J) (es : List (Entry J)) (table : Table) (texts : Bodies)
      → IsPeer peer es table texts
      → PeerStep json curl ev waiting peer peer'
      → (es' : List (Entry J)) × (table' : Table) × (texts' : Bodies) × IsPeer peer' es' table'
          texts'
  PeerStep-IsPeer laws curl_laws peer peer' es table texts v
        (peer_step event fs table1 texts1 q held conns ok ran) =
      let admitted =
        AdmitsPeer-unique event peer fs es table1 table texts1 texts q held conns v ok in
      let (next, es', texts', ran', v', _) =
        handle_peer-IsPeer laws curl_laws event peer es table texts v admitted in
      let same : next ≡ peer' = cc in
      (
        es',
        peer_table event table,
        texts',
        subst (λ (p : Peer M E T J). IsPeer p es' (peer_table event table) texts') same v',
      )

  PeerReach-IsPeer :
      Laws json
      → CurlLaws curl waiting
      → (peer : Peer M E T J) → PeerReach json curl ev waiting peer
      → (es : List (Entry J)) × (table : Table) × (texts : Bodies) × IsPeer peer es table texts
  PeerReach-IsPeer laws curl_laws peer (created endpoint opts ev_base made) =
      ([], [], [], created-IsPeer json curl ev endpoint opts ev_base peer made)
  PeerReach-IsPeer laws curl_laws peer (stepped {peer = before} reached moved) =
      let (es, table, texts, v) = PeerReach-IsPeer laws curl_laws before reached in
      PeerStep-IsPeer laws curl_laws before peer es table texts v moved

  -- For a peer that `create_peer` made and any sequence of events changed, with a json-c and a libcurl
  -- that keep their laws: the next event (a call of the application, a timer, a ready socket, libcurl's
  -- timeout) is handled without a fault, if it and all events before it were as `AdmitsPeer` says: the
  -- bodies that arrive are arrays, and `handshake_msg_index`, when the flush timer fires, is not set or
  -- names an entry of the outbox. The
  -- entries, the table and the texts are those that the peer's arrays hold.
  pub handle_peer-PeerReach :
      Laws json
      → CurlLaws curl waiting
      → (peer : Peer M E T J) (es : List (Entry J)) (table : Table) (texts : Bodies)
        (event : PeerEvent J T)
      → PeerReach json curl ev waiting peer
      → IsQueue peer.client.outbox es
      → HasTable peer.client table
      → AreConns peer.transport.long_polling.conns texts
      → AdmitsPeer json curl ev waiting peer es table texts event
      → (peer' : Peer M E T J) × (handle_peer json curl ev event peer ≡ some peer')
        × PeerReach json curl ev waiting peer'
  handle_peer-PeerReach laws curl_laws peer es table texts event reached q held conns ok =
      let (fs, table1, texts1, v) = PeerReach-IsPeer laws curl_laws peer reached in
      let admitted =
        AdmitsPeer-unique event peer es fs table table1 texts texts1 q held conns v ok in
      let (peer', _, _, ran, _, _) =
        handle_peer-IsPeer laws curl_laws event peer fs table1 texts1 v admitted in
      (peer', ran, stepped reached (peer_step event es table texts q held conns ok ran))
