-- ===== src/Tcp/Flow/Dequeue.antt =====
-- `tcp_data_dequeue` of src/tcp_data.c with the bytes of one sender.
use hf_ip.Prelude.{List, ap, append_assoc, ap₂, take-append-drop, ℕ, ◌++◌, ◌∙◌}
use hf_ip.Tcp.{Conn}
use hf_ip.Tcp.Data.{tcp_data_dequeue}
use hf_ip.Tcp.Data.Round.{stream}
use hf_ip.Tcp.Data.Stream.{tcp_data_dequeue-stream}
use hf_ip.Tcp.Flow.{Intact}

-- A read hands over bytes that were queued.
pub dequeue-Intact :
    (sent : List ℕ) (base : ℕ) (got : List ℕ) (len : ℕ) (c : Conn)
    → Intact sent base got c
    → let (d, bytes) = tcp_data_dequeue len c in Intact sent base (got ++ bytes) d
unfolding tcp_data_dequeue
dequeue-Intact sent base got len c i =
    let f = i.filled in
    let (b, rest, counted, whole) = tcp_data_dequeue-stream len c f.queue f.whole in
    let (d, bytes) = tcp_data_dequeue len c in
    record {
      count = i.count;
      filled = record {
        text =
            append_assoc got bytes (stream d.sk.receive_queue.head)
            ∙ ap₂ (λ x y. got ++ (x ++ y)) b rest
            ∙ ap (λ x. got ++ x) (take-append-drop len (stream c.sk.receive_queue.head))
            ∙ f.text;
        bound = f.bound;
        queue = counted;
        whole = whole;
        ofo = f.ofo;
        pieces = f.pieces;
      };
      synced = i.synced;
      next = i.next;
      ended = i.ended;
    }
