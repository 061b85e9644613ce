-- ===== src/Web/Events/Client.antt =====
-- What a step leaves of what one client was sent.
use altclaw.Common.{
  ◌≤◌, Bool, true, false, List, [], ◌∷◌, ◌++◌, Bytes, ltb, ltb→lt, if◌then◌else◌, length,
  length-append, drop-snoc, drop-length, drop, map, map-append, append_assoc, arith, ◌≡◌, refl, sym,
  ap, ◌∙◌,
}
use mathlib.Core.List.{Sublistᴰ}
use altclaw.Web.Events.{Json, Subscriber, channel_size, frame, connected, offer}

snoc-Sublist : (xs ys : List Bytes) (p : Bytes) → Sublistᴰ xs ys → Sublistᴰ xs (ys ++ p ∷ [])
snoc-Sublist _ _ p Sublistᴰ.slnil = Sublistᴰ.cons Sublistᴰ.slnil
snoc-Sublist xs _ p (Sublistᴰ.cons {l₂ = ys} s) = Sublistᴰ.cons (snoc-Sublist xs ys p s)
snoc-Sublist _ _ p (Sublistᴰ.cons-cons {l₁ = xs} {l₂ = ys} e s) =
    Sublistᴰ.cons-cons e (snoc-Sublist xs ys p s)

snoc_both-Sublist :
    (xs ys : List Bytes) (p : Bytes) → Sublistᴰ xs ys → Sublistᴰ (xs ++ p ∷ []) (ys ++ p ∷ [])
snoc_both-Sublist _ _ p Sublistᴰ.slnil = Sublistᴰ.cons-cons refl Sublistᴰ.slnil
snoc_both-Sublist xs _ p (Sublistᴰ.cons {l₂ = ys} s) = Sublistᴰ.cons (snoc_both-Sublist xs ys p s)
snoc_both-Sublist _ _ p (Sublistᴰ.cons-cons {l₁ = xs} {l₂ = ys} e s) =
    Sublistᴰ.cons-cons e (snoc_both-Sublist xs ys p s)

-- The invariant of a client, with the data that it was sent.
pub record IsDelivered (j : Json) (log : List Bytes) (s : Subscriber) : Type 0 where
  pub got : List Bytes
  pub since_le : s.since ≤ length log
  pub frames : s.written ++ s.channel ≡ map frame (connected ∷ (j.marshal_status s.since ∷ got))
  pub in_order : Sublistᴰ got (drop s.since log)
  pub bounded : length s.channel ≤ channel_size
  pub room : length s.channel ≤ length got
  pub complete :
      s.is_open ≡ true → length (drop s.since log) ≤ channel_size → got ≡ drop s.since log

module _ (j : Json) where
  pub new-IsDelivered :
      (log : List Bytes)
      → IsDelivered j log (record {
        channel = [];
        written = frame connected ∷ frame (j.marshal_status (length log)) ∷ [];
        since = length log;
        is_open = true;
      })
  new-IsDelivered log = record {
    got = [];
    since_le = omega arith;
    frames = refl;
    in_order = rw (drop-length log) Sublistᴰ.slnil;
    bounded = omega arith;
    room = omega arith;
    complete = λ o le. sym (drop-length log);
  }

  log-IsDelivered :
      (log : List Bytes) (p : Bytes) (s : Subscriber)
      → s.is_open ≡ false
      → IsDelivered j log s
      → IsDelivered j (log ++ p ∷ []) s
  log-IsDelivered log p s c d = record {
    got = d.got;
    since_le = omega (arith, d.since_le, length-append log (p ∷ []));
    frames = d.frames;
    in_order = rw (drop-snoc s.since log p d.since_le) (snoc-Sublist d.got _ p d.in_order);
    bounded = d.bounded;
    room = d.room;
    complete = λ o le. absurd (cc);
  }

  pub offer-IsDelivered :
      (log : List Bytes) (p : Bytes) (s : Subscriber)
      → IsDelivered j log s
      → IsDelivered j (log ++ p ∷ []) (offer (frame p) s)
  unfolding offer
  offer-IsDelivered log p s d = by_tests s.is_open (ltb (length s.channel) channel_size) refl refl
    where
      by_tests :
          (o b : Bool)
          → s.is_open ≡ o
          → ltb (length s.channel) channel_size ≡ b
          → IsDelivered j
              (log ++ p ∷ [])
              (if o then (if b then record s { channel = s.channel ++ frame p ∷ [] } else s) else s)
      by_tests false b eo eb = log-IsDelivered log p s eo d
      by_tests true true eo eb = record {
        got = d.got ++ p ∷ [];
        since_le = omega (arith, d.since_le, length-append log (p ∷ []));
        frames =
            sym (append_assoc s.written s.channel (frame p ∷ []))
            ∙ ap (λ ls. ls ++ frame p ∷ []) d.frames
            ∙ sym (map-append frame (connected ∷ (j.marshal_status s.since ∷ d.got)) p);
        in_order = rw (drop-snoc s.since log p d.since_le) (snoc_both-Sublist d.got _ p d.in_order);
        bounded = omega (arith, length-append s.channel (frame p ∷ []), ltb→lt _ _ eb);
        room =
            omega
              (arith, length-append s.channel (frame p ∷ []), length-append d.got (p ∷ []), d.room);
        complete = λ o le.
            let e = drop-snoc s.since log p d.since_le in
            ap (λ ps. ps ++ p ∷ [])
              (d.complete eo
                (omega (arith, le, ap length e, length-append (drop s.since log) (p ∷ []))))
            ∙ sym e;
      }
      by_tests true false eo eb = record {
        got = d.got;
        since_le = omega (arith, d.since_le, length-append log (p ∷ []));
        frames = d.frames;
        in_order = rw (drop-snoc s.since log p d.since_le) (snoc-Sublist d.got _ p d.in_order);
        bounded = d.bounded;
        room = d.room;
        complete = λ o le.
            let e = drop-snoc s.since log p d.since_le in
            let all =
              d.complete eo
                (omega (arith, le, ap length e, length-append (drop s.since log) (p ∷ []))) in
            absurd (
              ground (
                arith,
                d.room,
                le,
                ap length all,
                ap length e,
                length-append (drop s.since log) (p ∷ []),
              ));
      }

  pub closed-IsDelivered :
      (log : List Bytes) (s : Subscriber)
      → IsDelivered j log s
      → IsDelivered j log (record s { is_open = false })
  closed-IsDelivered log s d = record {
    got = d.got;
    since_le = d.since_le;
    frames = d.frames;
    in_order = d.in_order;
    bounded = d.bounded;
    room = d.room;
    complete = λ o le. absurd (cc);
  }

  pub written-IsDelivered :
      (log : List Bytes) (s : Subscriber) (line : Bytes) (lines : List Bytes)
      → s.channel ≡ line ∷ lines
      → IsDelivered j log s
      → IsDelivered j log (record s { channel = lines; written = s.written ++ line ∷ [] })
  written-IsDelivered log s line lines e d = record {
    got = d.got;
    since_le = d.since_le;
    frames = append_assoc s.written (line ∷ []) lines ∙ ap (λ c. s.written ++ c) (sym e) ∙ d.frames;
    in_order = d.in_order;
    bounded = omega (arith, d.bounded, ap length e);
    room = omega (arith, d.room, ap length e);
    complete = d.complete;
  }
