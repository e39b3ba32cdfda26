-- ===== src/Session/Serves.antt =====
-- What a connection does for its client over some steps, in both directions, and each kind of step.
use flydragon.Base.{
  ℕ, ◌≡◌, ◌≢◌, ◌≤◌, refl, sym, ap, ◌∙◌, subst, List, [], ◌∷◌, ◌++◌, map, some, length, append-nil,
  append_assoc, map-append,
}
use flydragon.State.{Msg, Conn, Server}
use flydragon.Recv.{got, wait_request_handler}
use flydragon.Recv.Framing.{frame, frame-append_packets, frame-append_rest}
use flydragon.Recv.Represents.{Represents, packet}
use flydragon.Recv.Readable.{wait_request_handler-Delivers}
use flydragon.Recv.Sending.{SendsSame, wait_request_handler-SendsSame}
use flydragon.Send.Stream.{IsSendable}
use flydragon.Send.Queue.{waiting}
use flydragon.Send.Run.{Sends, Sends-trans}
use flydragon.Send.Receiving.{ReceivesSame}
use flydragon.Logic.{pop_message, process}
use flydragon.Session.Task.{replies, popped, process-Queues, pop_message-popped}
use flydragon.Session.Carried.{
  Represents-same, queues-Sends, of_conn, of_conn-append, of_conn-packets, of_conn_others,
}

-- From `s`, where connection `j` holds the part `p` of a packet, to `t`: it holds what the reference
-- leaves of `p` and the bytes `xs` that arrived; its messages that tasks took, `ms`, and then those
-- still in the queue are those that were in the queue and then the packets of the reference; and its
-- bytes to the client are those that it had and then those that were queued, `os`.
pub record Serves (j : ℕ) (s t : Server) (p xs : List ℕ) (ms : List Msg) (os : List ℕ)
    : Type 0 where
  pub left : Represents j (t.conn j) (frame p xs).1
  pub handed :
      ms ++ of_conn j t.msg_recv_queue
      ≡ of_conn j s.msg_recv_queue ++ map (packet j (s.conn j).sequence) (frame p xs).0
  pub sends : Sends j s t os

frame_none : (p : List ℕ) → frame p [] ≡ ([], p)
unfolding frame
frame_none p = refl

-- Nothing arrives and nothing of connection `j` is taken.
pub still :
    (j : ℕ) (s t : Server) (p os : List ℕ) (ms : List Msg)
    → Represents j (t.conn j) p
    → ms ++ of_conn j t.msg_recv_queue ≡ of_conn j s.msg_recv_queue
    → Sends j s t os
    → Serves j s t p [] ms os
still j s t p os ms h q sends = record {
  left = subst (λ (f : List (List ℕ) × List ℕ). Represents j (t.conn j) f.1) (sym (frame_none p)) h;
  handed =
      q
      ∙ sym (append-nil (of_conn j s.msg_recv_queue))
      ∙ ap
          (λ (f : List (List ℕ) × List ℕ).
            of_conn j s.msg_recv_queue ++ map (packet j (s.conn j).sequence) f.0)
          (sym (frame_none p));
  sends = sends;
}

pub Serves-trans :
    {j : ℕ} {s t u : Server} {p xs ys os ps : List ℕ} {ms ns : List Msg}
    → Serves j s t p xs ms os
    → Serves j t u (frame p xs).1 ys ns ps
    → Serves j s u p (xs ++ ys) (ms ++ ns) (os ++ ps)
Serves-trans {j} {s} {t} {u} {p} {xs} {ys} {ms = ms} {ns = ns} a b =
    let of_packet = packet j (s.conn j).sequence in
    record {
      left =
          subst (λ (r : List ℕ). Represents j (u.conn j) r) (sym (frame-append_rest p xs ys))
            b.left;
      handed =
          append_assoc ms ns (of_conn j u.msg_recv_queue)
          ∙ ap (◌++◌ ms) (
              b.handed
              ∙ ap
                  (λ (n : ℕ).
                    of_conn j t.msg_recv_queue ++ map (packet j n) (frame (frame p xs).1 ys).0)
                  a.sends.sequence)
          ∙ sym (append_assoc ms (of_conn j t.msg_recv_queue) _)
          ∙ ap (λ (q : List Msg). q ++ map of_packet (frame (frame p xs).1 ys).0) a.handed
          ∙ append_assoc (of_conn j s.msg_recv_queue) _ _
          ∙ ap (◌++◌ (of_conn j s.msg_recv_queue)) (
              sym (map-append of_packet (frame p xs).0 _)
              ∙ ap (map of_packet) (sym (frame-append_packets p xs ys)));
      sends = Sends-trans a.sends b.sends;
    }

SendsSame-Sends : (j : ℕ) (s t : Server) → SendsSame j s t → IsSendable (s.conn j) → Sends j s t []
SendsSame-Sends j s t same h =
    queues-Sends j [] s t same.fields same.wire (same.queue ∙ sym (append-nil s.msg_send_queue)) h

pub comes-Serves :
    (lo : ℕ → ℕ) (j now x : ℕ) (xs p : List ℕ) (s : Server)
    → length (x ∷ xs) ≤ (s.conn j).irecvlen
    → Represents j (s.conn j) p
    → IsSendable (s.conn j)
    → Serves j s (wait_request_handler lo (got (x ∷ xs)) now j s) p (x ∷ xs) [] []
comes-Serves lo j now x xs p s fits h able =
    let d = wait_request_handler-Delivers lo j s p x xs now h fits in
    record {
      left = d.left;
      handed =
          ap (of_conn j) d.queue
          ∙ of_conn-append j s.msg_recv_queue _
          ∙ ap (◌++◌ (of_conn j s.msg_recv_queue)) (of_conn-packets j (s.conn j).sequence _);
      sends = SendsSame-Sends j s _ (wait_request_handler-SendsSame lo j j x xs now s) able;
    }

pub other_comes-Serves :
    (lo : ℕ → ℕ) (i j now x : ℕ) (xs p r : List ℕ) (s : Server)
    → i ≢ j
    → Represents i (s.conn i) r
    → length (x ∷ xs) ≤ (s.conn i).irecvlen
    → Represents j (s.conn j) p
    → IsSendable (s.conn j)
    → Serves j s (wait_request_handler lo (got (x ∷ xs)) now i s) p [] [] []
other_comes-Serves lo i j now x xs p r s differ other fits h able =
    let d = wait_request_handler-Delivers lo i s r x xs now other fits in
    let t = wait_request_handler lo (got (x ∷ xs)) now i s in
    still j s t p [] []
      (subst (λ (c : Conn). Represents j c p) (sym (d.others j (λ e. differ (sym e)))) h)
      (ap (of_conn j) d.queue
        ∙ of_conn-append j s.msg_recv_queue _
        ∙ ap (◌++◌ (of_conn j s.msg_recv_queue)) (of_conn_others i j (s.conn i).sequence _ differ)
        ∙ append-nil _)
      (SendsSame-Sends j s t (wait_request_handler-SendsSame lo i j x xs now s) able)

-- The sending half does not change what connection `j` receives.
pub sending-Serves :
    (j : ℕ) (s t : Server) (p : List ℕ)
    → ReceivesSame j s t
    → Represents j (s.conn j) p
    → Sends j s t []
    → Serves j s t p [] [] []
sending-Serves j s t p same h sends =
    still j s t p [] [] (Represents-same j (s.conn j) (t.conn j) p same.fields h)
      (ap (of_conn j) same.queue) sends

-- A task takes a message from the queue.
pub pops-Serves :
    (j : ℕ) (m : Msg) (q : List Msg) (s t : Server) (p : List ℕ)
    → s.msg_recv_queue ≡ m ∷ q
    → pop_message s.msg_recv_queue s ≡ some (m, t)
    → Represents j (s.conn j) p
    → IsSendable (s.conn j)
    → Serves j s t p [] (of_conn j (m ∷ [])) []
pops-Serves j m q s t p first e h able =
    subst (λ (u : Server). Serves j s u p [] (of_conn j (m ∷ [])) [])
      (pop_message-popped m q s t first e)
      (still j s (popped q s) p [] (of_conn j (m ∷ [])) h
        (sym (of_conn-append j (m ∷ []) q) ∙ ap (of_conn j) (sym first))
        (queues-Sends j [] s (popped q s) refl refl (sym (append-nil s.msg_send_queue)) able))

-- A task handles a message that was taken.
pub handles-Serves :
    (lo : ℕ → ℕ) (j now : ℕ) (m : Msg) (s : Server) (p : List ℕ)
    → Represents j (s.conn j) p
    → IsSendable (s.conn j)
    → Serves j s (process lo now m s) p [] [] (waiting j (s.conn j).sequence (replies lo m s))
handles-Serves lo j now m s p h able =
    let k = process-Queues j lo now m s in
    let t = process lo now m s in
    still j s t p _ [] (Represents-same j (s.conn j) (t.conn j) p k.receives h)
      (ap (of_conn j) k.received)
      (queues-Sends j (replies lo m s) s t k.sends k.wire k.to_send able)
