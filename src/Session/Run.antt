-- ===== src/Session/Run.antt =====
-- A client's connection under any order of what arrives, tasks, rounds of the sending thread and
-- notifications that a socket is writable.
use flydragon.Base.{ℕ, ◌≡◌, ◌≢◌, ◌≤◌, List, [], ◌∷◌, ◌++◌, some, Bool, length}
use flydragon.State.{Msg, Server}
use flydragon.Recv.{got, wait_request_handler}
use flydragon.Recv.Represents.{Represents}
use flydragon.Send.{SendCall, Kernel, send_round, write_request_handler}
use flydragon.Send.Stream.{IsWilling, Busy}
use flydragon.Send.Queue.{waiting, AreWilling}
use flydragon.Logic.{pop_message, process}
use flydragon.Session.Task.{replies}
use flydragon.Session.Carried.{of_conn}
use flydragon.Session.Serves.{Serves}

-- What happens in a worker, as connection `j` sees it: with the messages that tasks took and did not
-- handle yet, before and after, with the bytes that arrive at it, those of its messages that a task
-- takes, and the bytes that are queued for it. `read` gives a byte or more and no more than was asked
-- for, `send` reports no error, and the messages to be sent are whole. A task is two steps, between
-- which all else may happen, other tasks included. That a message is taken, and that a packet is put
-- in the queue, is one step each: that they do not overlap is assumed here, since the code does not
-- ensure it (it locks m_pthreadMutex for the one and m_recvMessageQueueMutex for the other).
pub data Step (j : ℕ)
    : List Msg × Server → List Msg × Server → List ℕ → List Msg → List ℕ → Type 0 where
  comes :
      (lo : ℕ → ℕ) (now x : ℕ) (xs : List ℕ) (taken : List Msg) (s : Server)
      → length (x ∷ xs) ≤ (s.conn j).irecvlen
      → Step j (taken, s) (taken, wait_request_handler lo (got (x ∷ xs)) now j s) (x ∷ xs) [] []
  other_comes :
      (lo : ℕ → ℕ) (i now x : ℕ) (xs p : List ℕ) (taken : List Msg) (s : Server)
      → i ≢ j
      → Represents i (s.conn i) p
      → length (x ∷ xs) ≤ (s.conn i).irecvlen
      → Step j (taken, s) (taken, wait_request_handler lo (got (x ∷ xs)) now i s) [] [] []
  pops :
      (m : Msg) (q taken : List Msg) (s t : Server)
      → s.msg_recv_queue ≡ m ∷ q
      → pop_message s.msg_recv_queue s ≡ some (m, t)
      → Step j (taken, s) (taken ++ m ∷ [], t) [] (of_conn j (m ∷ [])) []
  handles :
      (lo : ℕ → ℕ) (now : ℕ) (m : Msg) (before after : List Msg) (s : Server)
      → Step j
          (before ++ m ∷ after, s)
          (before ++ after, process lo now m s)
          []
          []
          (waiting j (s.conn j).sequence (replies lo m s))
  round :
      (idle : Bool) (kernel : Kernel) (taken : List Msg) (s : Server)
      → AreWilling kernel 0 s.msg_send_queue
      → Step j (taken, s) (taken, (send_round idle kernel s).0) [] [] []
  writable :
      (call : SendCall) (ok : Bool) (taken : List Msg) (s : Server) (m : Msg)
      → Busy (s.conn j) m
      → IsWilling call (s.conn j).isendlen
      → Step j (taken, s) (taken, write_request_handler call ok j s) [] [] []
  other_writable :
      (call : SendCall) (ok : Bool) (i : ℕ) (taken : List Msg) (s : Server)
      → i ≢ j
      → Step j (taken, s) (taken, write_request_handler call ok i s) [] [] []

pub data Run (j : ℕ)
    : List Msg × Server → List Msg × Server → List ℕ → List Msg → List ℕ → Type 0 where
  start : {s : List Msg × Server} → Run j s s [] [] []
  next :
      {s t u : List Msg × Server} {xs ys : List ℕ} {ms ns : List Msg} {os ps : List ℕ}
      → Run j s t xs ms os
      → Step j t u ys ns ps
      → Run j s u (xs ++ ys) (ms ++ ns) (os ++ ps)
