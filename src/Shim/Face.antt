-- ===== src/Shim/Face.antt =====
-- What `Shim::step` of src/main.rs leaves as it was: where a shim connects and where it listens.
use raknet_shim.Prelude.{
  Option-cases, ErrorKind, ℕ, zero, suc, ◌≡◌, ◌∙◌, refl, arith, ◌⊎◌, inl, inr, ErrorKind,
  Option-cases, List, [], ◌∷◌, length, take, Outcome, ok, err, panic, stuck,
}
use raknet_shim.Prelude.Table.{Table, get, insert}
use raknet_shim.Bits.{BitWrite, BitRead}
use raknet_shim.Packet.{MessageType, code, open_connection_reply, no_free_incoming_connections}
use raknet_shim.Strings.{Utf8}
use raknet_shim.TcpUdp as TcpUdpConn
use raknet_shim.Bridge.{
  SocketAddrs, UdpSocket, Received, came, failed, Sockets, Shorts, Bridge, Shim, ShimCommand,
  local_addr,
}
use raknet_shim.Bridge.Receive as Receive
use raknet_shim.Raknet.Connection as RakConn
use raknet_shim.Raknet.Connection.Socket.{drop_look}
use raknet_shim.TcpUdp.Connect.{connect}
use raknet_shim.Bridge.Receive.{World, client_socket, drop, tcpudp_receive}
use raknet_shim.Bridge.Receive.Socket.{drop-look, tcpudp_receive-look}
use raknet_shim.TcpUdp.{read_into}
use raknet_shim.Shim.{
  Left, with_socket, with_bridges, respond, answer, bridge_or_drop, create_bridge, receive_unknown,
  keep_or_remove, receive_datagram, raknet_receive, Retained, and_retain, retain_or_drop, retain,
  receive_tcpudp, step,
}

-- What the program relies on: a socket stays bound to its address when it receives and sends.
pub record SocketLaws {A S : Type 0} (socket : UdpSocket A S) : Type 0 where
  pub recv_local : (s : S) → socket.local_addr (socket.recv_from s).1 ≡ socket.local_addr s
  pub send_local :
      (bytes : List ℕ) (a : A) (s : S)
      → socket.local_addr (socket.send_to bytes a s).1 ≡ socket.local_addr s

Outcome-cases :
    {A : Type 0} (o : Outcome A)
    → ((a : A) × (o ≡ ok a)) ⊎ (((kind : ErrorKind) × (o ≡ err kind)) ⊎ ((o ≡ panic) ⊎ (o ≡ stuck)))
Outcome-cases (ok a) = inl (a, refl)
Outcome-cases (err kind) = inr (inl (kind, refl))
Outcome-cases panic = inr (inr (inl refl))
Outcome-cases stuck = inr (inr (inr refl))

Received-cases :
    {A : Type 0} (r : Received A)
    → ((kind : ErrorKind) × (r ≡ failed kind)) ⊎ ((bytes : List ℕ) × (a : A) × (r ≡ came bytes a))
Received-cases (came bytes a) = inr (bytes, a, refl)
Received-cases (failed kind) = inl (kind, refl)

module _ {A S T U : Type 0} ⦃socket : UdpSocket A S⦄ where
  -- The address that the shim connects to, and where it listens.
  unfoldable pub face : Shim A S T U → A × Outcome A
  face shim = (shim.connect_addr, local_addr shim)

  pub face_lem :
      (x y : Shim A S T U)
      → x.connect_addr ≡ y.connect_addr
      → socket.local_addr x.raknet ≡ socket.local_addr y.raknet
      → face x ≡ face y
  unfolding face local_addr
  face_lem x y e f = cc

module _ {A S T U O : Type 0} ⦃socket : UdpSocket A S⦄ (laws : SocketLaws socket) where
  respond-face :
      (m : MessageType) (source : A) (l : Left A S T U O)
      → face (respond m source l).1.shim ≡ face l.shim
  unfolding respond
  respond-face m source l =
      face_lem _ _ refl (laws.send_local (code m ∷ 0 ∷ []) source l.shim.raknet)

  module _ ⦃addresses : SocketAddrs A⦄ where
    answer-face :
        (source : A) (l : Left A S T U O) (made : Outcome (Bridge A T U))
        → face (answer source l made).1.shim ≡ face l.shim
    unfolding answer
    answer-face source l (ok b) =
        respond-face open_connection_reply source
          (with_bridges (insert ⦃eq = addresses.eq⦄ source b l.shim.bridges) l)
        ∙ face_lem _ _ refl refl
    answer-face source l (err kind) = respond-face no_free_incoming_connections source l
    answer-face source l panic = refl
    answer-face source l stuck = refl

    module _ (W : Type 0) ⦃bw : BitWrite W⦄ where
      bridge_or_drop-local_addr :
          (source : A) (s : S) (r : Outcome (TcpUdpConn.Connection × T × U) × O)
          → socket.local_addr (bridge_or_drop W source s r).1 ≡ socket.local_addr s
      unfolding bridge_or_drop
      bridge_or_drop-local_addr source s (ok (c, t, u), os) = refl
      bridge_or_drop-local_addr source s (err kind, os) =
          drop_look W ⦃udp = client_socket socket source⦄ socket.local_addr
            (λ bytes s'. laws.send_local bytes source s') RakConn.new s
      bridge_or_drop-local_addr source s (panic, os) = refl
      bridge_or_drop-local_addr source s (stuck, os) = refl

      create_bridge-local_addr :
          ⦃sockets : Sockets A S T U O⦄
          → (source : A) (shim : Shim A S T U) (os : O)
          → socket.local_addr (create_bridge W source shim os).1 ≡ socket.local_addr shim.raknet
      unfolding create_bridge
      create_bridge-local_addr ⦃sockets⦄ source shim os =
          elim (Outcome-cases (socket.try_clone shim.raknet)) [
            | inl (u, e) ↦
                rw (e, create_bridge)
                  (bridge_or_drop-local_addr source shim.raknet
                    (connect ⦃network = sockets.network⦄ shim.connect_addr os))
            | inr (inl (kind, e)) ↦ rw (e, create_bridge) refl
            | inr (inr (inl e)) ↦ rw (e, create_bridge) refl
            | inr (inr (inr e)) ↦ rw (e, create_bridge) refl
          ]

      receive_unknown-face :
          ⦃sockets : Sockets A S T U O⦄
          → (length : ℕ) (source : A) (l : Left A S T U O)
          → face (receive_unknown W length source l).1.shim ≡ face l.shim
      unfolding receive_unknown
      receive_unknown-face length source l =
          let (made, s, os) = create_bridge W source l.shim l.os in
          let l' : Left A S T U O = with_socket s (record l { os = os }) in
          let bound = create_bridge-local_addr source l.shim l.os in
          let same = face_lem l'.shim l.shim refl bound in
          ground (arith, answer-face source l' made, same)

      keep_or_remove-face :
          (source : A) (l : Left A S T U O) (r : Outcome (Unit {0}) × Bridge A T U)
          → face (keep_or_remove W source l r).1.shim ≡ face l.shim
      unfolding keep_or_remove
      keep_or_remove-face source l (ok u, b) = face_lem _ _ refl refl
      keep_or_remove-face source l (err kind, b) =
          face_lem _ _ refl (drop-look W socket.local_addr laws.send_local b l.shim.raknet)
      keep_or_remove-face source l (panic, b) = refl
      keep_or_remove-face source l (stuck, b) = refl

      module _ (R : Type 0) ⦃br : BitRead R⦄ ⦃tcp : TcpUdpConn.Tcp T⦄ ⦃udp : TcpUdpConn.Udp U⦄
          ⦃sockets : Sockets A S T U O⦄ where
        receive_datagram-face :
            (n : ℕ) (source : A) (l : Left A S T U O)
            → face (receive_datagram W R n source l).1.shim ≡ face l.shim
        unfolding receive_datagram
        receive_datagram-face n source l =
            elim (Option-cases (get ⦃eq = addresses.eq⦄ source l.shim.bridges)) [
              | inl none_known ↦ rw (none_known, receive_datagram) (receive_unknown-face n source l)
              | inr (b, known) ↦
                  rw (known, receive_datagram)
                    (keep_or_remove-face source l (Receive.raknet_receive R (take n l.buf) b))
            ]

        raknet_receive-face :
            (fuel : ℕ) (l : Left A S T U O) → face (raknet_receive W R fuel l).1.shim ≡ face l.shim
        unfolding raknet_receive
        raknet_receive-face zero l = refl
        raknet_receive-face (suc fuel) l =
            let (result, s) = socket.recv_from l.shim.raknet in
            let l₁ : Left A S T U O = with_socket s l in
            let received = face_lem l₁.shim l.shim refl (laws.recv_local l.shim.raknet) in
            elim (Received-cases result) [
              | inl (kind, e) ↦ rw (e, raknet_receive) received
              | inr (bytes, source, e) ↦
                  let l₂ : Left A S T U O = record l₁ { buf = read_into l₁.buf 0 bytes } in
                  let (outcome, l₃) = receive_datagram W R (length bytes) source l₂ in
                  let kept = receive_datagram-face (length bytes) source l₂ in
                  let before = face_lem l₂.shim l₁.shim refl refl in
                  let later = raknet_receive-face fuel l₃ in
                  rw (e, raknet_receive) (ground (arith, received, before, kept, later))
            ]

module _ (W : Type 0) ⦃bw : BitWrite W⦄ {A S T U O : Type 0} ⦃addresses : SocketAddrs A⦄
    ⦃socket : UdpSocket A S⦄ (laws : SocketLaws socket) where
  retain_or_drop-local_addr :
      (a : A) (cmds : List (ShimCommand A S T U)) (r : Receive.Received A S T U O)
      → socket.local_addr (retain_or_drop W a cmds r).3.socket ≡ socket.local_addr r.2.socket
  unfolding retain_or_drop
  retain_or_drop-local_addr a cmds (ok new, b, w) = refl
  retain_or_drop-local_addr a cmds (err kind, b, w) =
      drop-look W socket.local_addr laws.send_local b w.socket
  retain_or_drop-local_addr a cmds (panic, b, w) = refl
  retain_or_drop-local_addr a cmds (stuck, b, w) = refl

  and_retain-local_addr :
      (r s : Retained A S T U O)
      → socket.local_addr s.3.socket ≡ socket.local_addr r.3.socket
      → socket.local_addr (and_retain r s).3.socket ≡ socket.local_addr r.3.socket
  unfolding and_retain
  and_retain-local_addr (ok u, kept, cmds, w) (result, kept', cmds', w') e = e
  and_retain-local_addr (err kind, kept, cmds, w) s e = refl
  and_retain-local_addr (panic, kept, cmds, w) s e = refl
  and_retain-local_addr (stuck, kept, cmds, w) s e = refl

  module _ ⦃tcp : TcpUdpConn.Tcp T⦄ ⦃udp : TcpUdpConn.Udp U⦄ ⦃sockets : Sockets A S T U O⦄
      ⦃shorts : Shorts⦄ ⦃utf8 : Utf8⦄ where
    retain-local_addr :
        (fuel : ℕ) (addrs : Table A A) (bridges : Table A (Bridge A T U))
        (cmds : List (ShimCommand A S T U)) (w : World S O)
        → socket.local_addr (retain W fuel addrs bridges cmds w).3.socket
          ≡ socket.local_addr w.socket
    unfolding retain
    retain-local_addr fuel addrs [] cmds w = refl
    retain-local_addr fuel addrs ((a, b) ∷ bridges) cmds w =
        let r = tcpudp_receive W fuel addrs b w in
        let here : Retained A S T U O = retain_or_drop W a cmds r in
        let bound = retain_or_drop-local_addr a cmds r in
        let same = tcpudp_receive-look W socket.local_addr laws.send_local fuel addrs b w in
        let later = retain-local_addr fuel addrs bridges here.2 here.3 in
        and_retain-local_addr here (retain W fuel addrs bridges here.2 here.3) later
        ∙ (bound ∙ same)

    receive_tcpudp-face :
        (fuel : ℕ) (addrs : Table A A) (cmds : List (ShimCommand A S T U))
        (r : Outcome (Unit {0}) × Left A S T U O)
        → face (receive_tcpudp W fuel addrs cmds r).2.shim ≡ face r.1.shim
    unfolding receive_tcpudp
    receive_tcpudp-face fuel addrs cmds (ok u, l) = face_lem _ _ refl (
        retain-local_addr fuel addrs l.shim.bridges cmds
          (record { buf = l.buf; socket = l.shim.raknet; os = l.os }))
    receive_tcpudp-face fuel addrs cmds (err kind, l) = refl
    receive_tcpudp-face fuel addrs cmds (panic, l) = refl
    receive_tcpudp-face fuel addrs cmds (stuck, l) = refl

    pub step-face :
        (R : Type 0) ⦃br : BitRead R⦄
        → (fuel : ℕ) (addrs : Table A A) (cmds : List (ShimCommand A S T U)) (l : Left A S T U O)
        → face (step W R fuel addrs cmds l).2.shim ≡ face l.shim
    unfolding step
    step-face R fuel addrs cmds l =
        receive_tcpudp-face fuel addrs cmds (raknet_receive W R fuel l)
        ∙ raknet_receive-face laws W R fuel l
