-- ===== src/Session/Multicast.antt =====
-- SendPacketMulticast of IOCPNetLib/NetLib_Server.cpp, for a packet that is framed as for SendPacket
-- (Frame.frame_packet) and comes from the pool with no references.
use iocpnet_module_mono_repo.Prelude.{ℕ, ◌+◌, List, [], ◌∷◌, none, some, ltb, if◌then◌else◌, length}
use iocpnet_module_mono_repo.Session.{drop_packet}
use iocpnet_module_mono_repo.Session.Server.{
  Server, find_session, refuse_full, queue_packet, post_queued, put_count,
}

abbrev pub drop_at : ℕ → Server → Server
drop_at p v = record v { shared = drop_packet p v.shared }

-- one round of the loop over the sessions
unfoldable pub multicast_one : ℕ → ℕ → Server → Server
multicast_one handle p v =
    let (found, v1) = find_session handle v in
    elim found [
      | none ↦ drop_at p v1
      | some index ↦
          if ltb v.max_of_send_packets (length (v1.sessions index).send_buffer)
          then drop_at p (refuse_full handle index v1)
          else (post_queued index (queue_packet p index v1)).1
    ]

unfoldable pub multicast_all : List ℕ → ℕ → Server → Server
multicast_all [] p v = v
multicast_all (handle ∷ handles) p v = multicast_all handles p (multicast_one handle p v)

-- `SendPacketMulticast(sessionHandles, sessionCount, packet)`
unfoldable pub send_packet_multicast : List ℕ → ℕ → Server → Server
send_packet_multicast [] p v = v
send_packet_multicast (handle ∷ handles) p v =
    let n = length (handle ∷ handles) in
    multicast_all (handle ∷ handles) p
      (record v { shared = put_count p (v.shared.ref_count p + n) v.shared })
