-- ===== src/Events/Reads.antt =====
-- The loop of a worker, while one client sends.
use flydragon.Base.{ℕ, ◌≡◌, refl, sym, ap, ◌∙◌, List, [], ◌∷◌, ◌++◌, map, Bool, true, false, arith}
use flydragon.State.{Server, wait_request}
use flydragon.Epoll.{epollin, epollout}
use flydragon.Recv.{got, wait_request_handler}
use flydragon.Recv.Framing.{frame}
use flydragon.Recv.Represents.{Represents, Delivers}
use flydragon.Recv.Stream.{handle_reads, AreReads, all_bytes, handle_reads-Delivers}
use flydragon.Recv.Sending.{handle_reads-SendsSame, same_rhandler, wait_request_handler-SendsSame}
use flydragon.Events.{
  Event, has_flag, call, on_readable, on_writable, process_event, process_events, WaitResult,
  waited, no_or_some, epoll_process_events, process_events_and_timers,
}
use flydragon.Process.Worker.{worker_loop}

module _ (lo : ℕ → ℕ) (i : ℕ) (e : Event) (readable : has_flag e.revents epollin ≡ true)
    (not_writable : has_flag e.revents epollout ≡ false) where
  -- The event `e`, for connection `i`, with bytes that come at a time.
  abbrev pub with_bytes : ℕ × List ℕ → Event
  with_bytes (now, xs) = record e { conn = i; now = now; read = got xs }

  readable_event :
      (now : ℕ) (xs : List ℕ) (s : Server) (b : Bool)
      → (s.conn i).rhandler ≡ wait_request
      → process_event lo (with_bytes (now, xs)) (s, b)
        ≡ (wait_request_handler lo (got xs) now i s, b)
  unfolding process_event on_readable on_writable call
  readable_event now xs s b h = rw (readable, not_writable, h) refl

  readable_events :
      (rs : List (ℕ × List ℕ)) (s : Server) (b : Bool)
      → (s.conn i).rhandler ≡ wait_request
      → AreReads lo i rs s
      → process_events lo (map with_bytes rs) (s, b) ≡ (handle_reads lo i rs s, b)
  unfolding process_events
  readable_events [] s b h are = refl
  readable_events ((now, []) ∷ rs) s b h are = absurd (omega arith)
  readable_events ((now, x ∷ xs) ∷ rs) s b h are =
      ap (process_events lo (map with_bytes rs)) (readable_event now (x ∷ xs) s b h)
      ∙ readable_events rs _ b
          (same_rhandler (wait_request_handler-SendsSame lo i i x xs now s) ∙ h) are.2

  -- What `epoll_wait` gives in some rounds.
  abbrev pub waits : List (List (ℕ × List ℕ)) → List WaitResult
  waits = map (λ rs. waited (map with_bytes rs))

  readable_round :
      (rs : List (ℕ × List ℕ)) (s : Server) (b : Bool)
      → (s.conn i).rhandler ≡ wait_request
      → AreReads lo i rs s
      → process_events_and_timers lo (waited (map with_bytes rs)) (s, b)
        ≡ (handle_reads lo i rs s, b)
  unfolding process_events_and_timers epoll_process_events no_or_some
  readable_round [] s b h are = refl
  readable_round (r ∷ rs) s b h are = readable_events (r ∷ rs) s b h are

handle_reads-append :
    (lo : ℕ → ℕ) (i : ℕ) (rs qs : List (ℕ × List ℕ)) (s : Server)
    → handle_reads lo i (rs ++ qs) s ≡ handle_reads lo i qs (handle_reads lo i rs s)
handle_reads-append lo i [] qs s = refl
handle_reads-append lo i ((now, xs) ∷ rs) qs s = handle_reads-append lo i rs qs _

AreReads-append :
    (lo : ℕ → ℕ) (i : ℕ) (rs qs : List (ℕ × List ℕ)) (s : Server)
    → AreReads lo i (rs ++ qs) s
    → AreReads lo i rs s × AreReads lo i qs (handle_reads lo i rs s)
AreReads-append lo i [] qs s are = (_, are)
AreReads-append lo i ((now, xs) ∷ rs) qs s are =
    let (first, second) = AreReads-append lo i rs qs _ are.2 in ((are.0, are.1, first), second)

handle_reads_rhandler :
    (lo : ℕ → ℕ) (i : ℕ) (rs : List (ℕ × List ℕ)) (s : Server)
    → AreReads lo i rs s
    → ((handle_reads lo i rs s).conn i).rhandler ≡ (s.conn i).rhandler
handle_reads_rhandler lo i rs s are = same_rhandler (handle_reads-SendsSame lo i rs s are)

-- The events of all rounds.
abbrev pub join : List (List (ℕ × List ℕ)) → List (ℕ × List ℕ)
join [] = []
join (rs ∷ rss) = rs ++ join rss

worker_loop_reads :
    (lo : ℕ → ℕ) (i : ℕ) (e : Event) (readable : has_flag e.revents epollin ≡ true)
    (not_writable : has_flag e.revents epollout ≡ false) (rss : List (List (ℕ × List ℕ)))
    (s : Server) (b : Bool)
    → (s.conn i).rhandler ≡ wait_request
    → AreReads lo i (join rss) s
    → worker_loop lo (waits lo i e readable not_writable rss) (s, b)
      ≡ (handle_reads lo i (join rss) s, b)
unfolding worker_loop
worker_loop_reads lo i e r n [] s b h are = refl
worker_loop_reads lo i e r n (rs ∷ rss) s b h are =
    let (first, second) = AreReads-append lo i rs (join rss) s are in
    ap (worker_loop lo (waits lo i e r n rss)) (readable_round lo i e r n rs s b h first)
    ∙ worker_loop_reads lo i e r n rss (handle_reads lo i rs s) b
        (handle_reads_rhandler lo i rs s first ∙ h) second
    ∙ ap (λ (t : Server). (t, b)) (sym (handle_reads-append lo i rs (join rss) s))

-- If a client's connection holds the part `p` of a packet and is handled by
-- `flyd_wait_request_handler`, and in some rounds of the loop of a worker `epoll_wait` gives only
-- events at which it is readable and not writable, with from one byte to what was asked for, then the
-- packets that reach the message queue, their tasks, and the part that is held in the end are those
-- of the reference on all the bytes that came in these rounds, and the choice of the call for accepting
-- clients stays.
pub worker_loop-Delivers :
    (lo : ℕ → ℕ) (i : ℕ) (e : Event) (readable : has_flag e.revents epollin ≡ true)
    (not_writable : has_flag e.revents epollout ≡ false) (rss : List (List (ℕ × List ℕ)))
    (s : Server) (b : Bool) (p : List ℕ)
    → (s.conn i).rhandler ≡ wait_request
    → Represents i (s.conn i) p
    → AreReads lo i (join rss) s
    → let (t, b') = worker_loop lo (waits lo i e readable not_writable rss) (s, b) in
      Delivers i s t (frame p (all_bytes (join rss))).0 (frame p (all_bytes (join rss))).1
      × (b' ≡ b)
worker_loop-Delivers lo i e r n rss s b p h part are =
    rw (worker_loop_reads lo i e r n rss s b h are)
      (handle_reads-Delivers lo i (join rss) s p part are, refl)
