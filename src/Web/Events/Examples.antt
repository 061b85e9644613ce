-- ===== src/Web/Events/Examples.antt =====
-- A hub with two clients, one of which leaves.
use altclaw.Common.{
  true, false, none, some, List, [], ◌∷◌, ◌++◌, Bytes, codes, text_eq, arith, ◌≡◌, refl,
}
use altclaw.Web.Events.{
  ChatEvent, Json, Subscriber, Hub, new_hub, frame, connected, HubEvent, subscribes, unsubscribes,
  broadcasts, broadcasts_raw, writes, run_hub,
}
use altclaw.Web.Events.Delivery.{Gets, run_hub-Gets}
use altclaw.Web.Events.Frames.{stream, scan_lines, read_all, read_all-stream}

abbrev json : Json
json = record {
  marshal_text = λ s. some (codes "\"" ++ (s ++ codes "\""));
  marshal_event = λ e. some (codes "{}");
  marshal_status = λ n. codes "status";
  digits = λ n. codes "7";
}

abbrev chunk : ChatEvent
chunk = record { type = codes "chunk"; content = codes "hi"; chat_id = 7; message_id = [] }

abbrev one_leaves : List HubEvent
one_leaves =
    subscribes
    ∷ broadcasts chunk
    ∷ subscribes
    ∷ writes 0
    ∷ unsubscribes 0
    ∷ broadcasts_raw (codes "{}")
    ∷ []

abbrev chunk_frame : Bytes
chunk_frame = frame (codes "{\"type\":\"chunk\",\"content\":\"hi\",\"chat_id\":7}")

abbrev left : Subscriber
left = record {
  channel = [];
  written = frame connected ∷ frame (codes "status") ∷ chunk_frame ∷ [];
  since = 0;
  is_open = false;
}

abbrev stays : Subscriber
stays = record {
  channel = frame (codes "{}") ∷ [];
  written = frame connected ∷ frame (codes "status") ∷ [];
  since = 1;
  is_open = true;
}

abbrev after : Hub
after = record {
  subscribers = left ∷ stays ∷ [];
  log = codes "{\"type\":\"chunk\",\"content\":\"hi\",\"chat_id\":7}" ∷ codes "{}" ∷ [];
}

one_leaves_lem : run_hub json one_leaves new_hub ≡ some after
unfolding run_hub text_eq
one_leaves_lem = refl

run_hub-Gets_example : Gets json after.log stays
run_hub-Gets_example = run_hub-Gets json one_leaves after 1 stays one_leaves_lem refl

-- To unsubscribe twice is a panic.
twice : run_hub json (subscribes ∷ unsubscribes 0 ∷ unsubscribes 0 ∷ []) new_hub ≡ none
unfolding run_hub
twice = refl

read_all-stream_example :
    read_all 2 (scan_lines [] (stream (codes "{}" ∷ codes "[1]" ∷ [])))
    ≡ codes "{}" ∷ codes "[1]" ∷ []
read_all-stream_example =
    read_all-stream 2 (codes "{}" ∷ codes "[1]" ∷ []) (omega arith)
      ((refl, (refl, tt)), ((refl, (refl, (refl, tt))), tt)) (omega arith, (omega arith, tt))
