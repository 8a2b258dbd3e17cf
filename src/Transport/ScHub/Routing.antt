-- ===== src/Transport/ScHub/Routing.antt =====
-- Where the hub of sc/hub.rs puts a frame.
use bacnet_sim.Prelude.{
  ℕ, ◌<◌, ◌≡◌, ◌≢◌, refl, ap, ◌∙◌, true, false, Option, none, some, List, [], ◌∷◌, ◌++◌, arith,
  if◌then◌else◌, ◌==◌, ==_iff, lt→ltb, length,
}
use bacnet_sim.Prelude.Maps.{
  nat_key, bytes_key, same_bytes, same_bytes_iff, lookup, insert, lookup-insert, lookup-remove,
}
use bacnet_sim.Codec.Sc.{ScFrame, ScFunction, as_u8 as function_code, encode}
use bacnet_sim.Codec.Sc.RoundTrip.{IsWellFormed, decode-encode_sc}
use bacnet_sim.Transport.ScHub.{
  NodeHandle, ScHub, connect, capacity, put, try_send, send_to, forward, on_decoded, on_message,
  disconnect,
}

-- A frame for a node.
pub record IsFor (vmac : List ℕ) (f : ScFrame) : Type 0 where
  pub whole : IsWellFormed f
  pub carries : f.function ≡ function_code ScFunction.encapsulated_npdu
  pub dest : f.destination_vmac ≡ some vmac

on_message-forward :
    (hub : ScHub) (from vmac : List ℕ) (f : ScFrame)
    → IsFor vmac f
    → on_message hub from (encode f) ≡ send_to hub (lookup hub.nodes vmac) (encode f)
unfolding on_message on_decoded forward
on_message-forward hub from vmac f for_it =
    let known = (==_iff f.function (function_code ScFunction.encapsulated_npdu)).1 for_it.carries in
    rw (decode-encode_sc f for_it.whole, known, for_it.dest) refl

send_to-room :
    (hub : ScHub) (handle : NodeHandle) (waiting : List (List ℕ)) (bytes : List ℕ)
    → lookup hub.channels handle.tx ≡ some waiting
    → length waiting < capacity
    → send_to hub (some handle) bytes
      ≡ record hub { channels = insert hub.channels handle.tx (waiting ++ (bytes ∷ [])) }
unfolding send_to try_send put
send_to-room hub handle waiting bytes is_open room =
    rw (is_open, lt→ltb (length waiting) capacity room) refl

-- A frame for a registered node whose channel has room is put behind the frames that wait in that
-- channel, byte for byte, and no other channel changes, nor does the registry, whoever sends it.
pub on_message-delivers :
    (hub : ScHub) (from vmac : List ℕ) (f : ScFrame) (handle : NodeHandle) (waiting : List (List ℕ))
    (connection : ℕ)
    → IsFor vmac f
    → lookup hub.nodes vmac ≡ some handle
    → lookup hub.channels handle.tx ≡ some waiting
    → length waiting < capacity
    → (lookup (on_message hub from (encode f)).channels connection ≡ (
        if handle.tx == connection
        then some (waiting ++ (encode f ∷ []))
        else lookup hub.channels connection))
      × ((on_message hub from (encode f)).nodes ≡ hub.nodes)
on_message-delivers hub from vmac f handle waiting connection for_it registered is_open room =
    rw
      (
        on_message-forward hub from vmac f for_it,
        registered,
        send_to-room hub handle waiting (encode f) is_open room,
      )
      (lookup-insert hub.channels handle.tx connection (waiting ++ (encode f ∷ [])), refl)

-- A node's first connection ends after the node has connected again under its address.
abbrev pub after_reconnect : ScHub → ℕ → ℕ → List ℕ → List ℕ → ScHub
after_reconnect hub old new id vmac =
    disconnect (connect (connect hub old id vmac) new id vmac) old vmac

-- When a node connects again under its address before its old connection ends, the end of the old
-- connection takes the node out of the registry: the new connection has not ended, but whatever is
-- sent to the node is dropped.
pub reconnected_node-lost :
    (hub : ScHub) (old new : ℕ) (id vmac from : List ℕ) (f : ScFrame)
    → old ≢ new
    → IsFor vmac f
    → (lookup (after_reconnect hub old new id vmac).channels new ≡ some [])
      × (on_message (after_reconnect hub old new id vmac) from (encode f)
          ≡ after_reconnect hub old new id vmac)
unfolding connect disconnect send_to
reconnected_node-lost hub old new id vmac from f differ for_it =
    let other : (old == new) ≡ false = ground (arith, differ) in
    let itself : (new == new) ≡ true = (==_iff new new).1 refl in
    let same : same_bytes vmac vmac ≡ true = (same_bytes_iff vmac vmac).1 refl in
    let gone : lookup (after_reconnect hub old new id vmac).nodes vmac ≡ none =
      rw (lookup-remove (connect (connect hub old id vmac) new id vmac).nodes vmac vmac, same)
        refl in
    (
      rw
          (
            lookup-remove (connect (connect hub old id vmac) new id vmac).channels old new,
            other,
            lookup-insert (connect hub old id vmac).channels new new [],
            itself,
          )
          refl,
      on_message-forward (after_reconnect hub old new id vmac) from vmac f for_it
          ∙ ap
              (λ (h : Option NodeHandle).
                send_to (after_reconnect hub old new id vmac) h (encode f))
              gone,
    )
