-- ===== src/Agent/Ring/Fifo.antt =====
-- The agent's ring (ring.rs) over any channel with the documented behaviour: what is drained, in what
-- order, and what the drop counter says.
use perf_weave.Base.{
  ℕ, zero, suc, ◌+◌, ◌^◌, ◌≤◌, ◌<◌, ◌≡◌, refl, sym, ◌∙◌, ap, ◌⊎◌, inl, inr, some, List, [], ◌∷◌,
  ◌++◌, arith, length, take, length-append, Subseq, Subseq-append, Subseq-append_right, Subseq-refl,
  none_left,
}
use native.Mathlib.Decide.{dec_lt}
use mathlib.Core.List.{append-nil, append_assoc}
use perf_weave.Proto.{Event, MetricFrame}
use perf_weave.Agent.Channel.{Channel}
use perf_weave.Agent.Ring.{
  EventRing, new, push, drain_loop, drain_up_to, drain_frames_loop, drain_frames,
}

pub data Op : Type 0 where
  put : Event → Op
  drain : ℕ → Op

abbrev pub pushed : List Op → List Event
pushed [] = []
pushed (put e ∷ ops) = e ∷ pushed ops
pushed (drain n ∷ ops) = pushed ops

Queue-cases : {A : Type 0} (q : List A) → (q ≡ []) ⊎ ((a : A) × (rest : List A) × (q ≡ a ∷ rest))
Queue-cases [] = inl refl
Queue-cases (a ∷ rest) = inr (a, rest, refl)

module _ (ce : Channel Event) (cf : Channel MetricFrame) where
  open ce use {
    Chan as EventChan, queue as event_queue, capacity as event_capacity, send_room, send_full,
    recv_empty, recv_some,
  }
  open cf use {
    Chan as FrameChan, queue as frame_queue, recv_empty as frame_recv_empty,
    recv_some as frame_recv_some,
  }

  -- What the uploader has drained, after a sequence of calls.
  unfoldable pub run : EventRing ce cf → List Event → List Op → EventRing ce cf × List Event
  run r seen [] = (r, seen)
  run r seen (put e ∷ ops) = run (push ce cf r e) seen ops
  run r seen (drain n ∷ ops) = let (r', out) = drain_up_to ce cf n r in run r' (seen ++ out) ops

  -- The events that reached the uploader or still wait are some of those pushed, in their order, and
  -- the counter has the rest.
  pub record Conserves (r : EventRing ce cf) (seen all : List Event) : Type 0 where
    pub order : Subseq (seen ++ event_queue r.events) all
    pub count : length seen + length (event_queue r.events) + r.dropped ≡ length all
    pub bounded : length (event_queue r.events) ≤ event_capacity r.events

  push-Conserves :
      {r : EventRing ce cf} {seen all : List Event} (e : Event)
      → Conserves r seen all
      → length all + 1 < 2 ^ 64
      → Conserves (push ce cf r e) seen (all ++ e ∷ [])
  unfolding push
  push-Conserves {r} {seen} {all} e c h =
      elim (dec_lt (length (event_queue r.events)) (event_capacity r.events)) [
        | yes room ↦
            let (ok, q, n) = send_room r.events e room in
            rw ok (record {
              order = rw (q, ← append_assoc) (Subseq-append c.order (Subseq-refl (e ∷ [])));
              count = omega (
                arith,
                ap length q,
                length-append (event_queue r.events) (e ∷ []),
                length-append all (e ∷ []),
                c.count,
              );
              bounded =
                  omega (arith, ap length q, n, length-append (event_queue r.events) (e ∷ []));
            })
        | no packed ↦
            let (refused, q, n) = send_full r.events e (omega arith) in
            rw refused (record {
              order = rw q (Subseq-append_right (e ∷ []) c.order);
              count = omega (arith, ap length q, length-append all (e ∷ []), c.count);
              bounded = omega (arith, ap length q, n, c.bounded);
            })
      ]

  -- Draining takes from the front of the queue, up to the number asked for.
  drain_loop_lem :
      (room : ℕ) (c : EventChan) (out : List Event)
      → let (c', out') = drain_loop ce cf room c out in
        (out' ≡ out ++ take room (event_queue c))
        × (out' ++ event_queue c' ≡ out ++ event_queue c)
        × (event_capacity c' ≡ event_capacity c)
  unfolding drain_loop
  drain_loop_lem zero c out = (sym (append-nil out), refl, refl)
  drain_loop_lem (suc room) c out = elim (Queue-cases (event_queue c)) [
    | inl empty ↦
        let (got, q, n) = recv_empty c empty in
        rw (got, drain_loop) (rw empty (sym (append-nil out)), rw (q, empty), n)
    | inr (e, rest, full) ↦
        let (got, q, n) = recv_some c full in
        let (taken, same, n') = drain_loop_lem room (ce.try_recv c).1 (out ++ e ∷ []) in
        rw (got, drain_loop)
          (rw full (rw (q, append_assoc) at taken), rw full (rw (q, append_assoc) at same), n' ∙ n)
  ]

  drain-Conserves :
      {r : EventRing ce cf} {seen all : List Event} (n : ℕ)
      → Conserves r seen all
      → let (r', out) = drain_up_to ce cf n r in Conserves r' (seen ++ out) all
  unfolding drain_up_to
  drain-Conserves {r} {seen} {all} n c =
      let done = drain_loop ce cf n r.events [] in
      let (taken, same, cap_same) = drain_loop_lem n r.events [] in
      let sizes = length-append done.1 (event_queue done.0) in
      record {
        order = rw (append_assoc, same) c.order;
        count = omega (arith, sizes, ap length same, length-append seen done.1, c.count);
        bounded = omega (arith, sizes, ap length same, cap_same, c.bounded);
      }

  -- Over any sequence of pushes and drains, from a state where this holds, and for fewer than 2^64
  -- events: what was drained, followed by what is queued, is a
  -- subsequence of what was pushed; the drop counter is exactly the number of events missing; and the
  -- queue never exceeds its capacity.
  pub run-Conserves :
      (ops : List Op) {r : EventRing ce cf} {seen all : List Event}
      → Conserves r seen all
      → length all + length (pushed ops) < 2 ^ 64
      → let (r', seen') = run r seen ops in Conserves r' seen' (all ++ pushed ops)
  unfolding run
  run-Conserves [] {r} {seen} {all} c h = rw append-nil c
  run-Conserves (put e ∷ ops) {r} {seen} {all} c h =
      let step = push-Conserves e c (omega arith) in
      let rest = run-Conserves ops step (omega (arith, length-append all (e ∷ []))) in
      rw append_assoc at rest
  run-Conserves (drain n ∷ ops) {r} {seen} {all} c h = run-Conserves ops (drain-Conserves n c) h

  -- A new ring has nothing in it and has dropped nothing.
  pub new-Conserves : (capacity : ℕ) → Conserves (new ce cf capacity) [] []
  new-Conserves capacity =
      let (empty, n) = ce.queue-bounded capacity in
      record {
        order = rw empty none_left;
        count = omega (arith, ap length empty);
        bounded = omega (arith, ap length empty);
      }

  -- A drain returns the oldest events, as many as are asked for and there are, and keeps the others.
  pub drain_up_to_lem :
      (n : ℕ) (r : EventRing ce cf)
      → let (r', out) = drain_up_to ce cf n r in
        (out ≡ take n (event_queue r.events))
        × (out ++ event_queue r'.events ≡ event_queue r.events)
  unfolding drain_up_to
  drain_up_to_lem n r = let (taken, same, cap_same) = drain_loop_lem n r.events [] in (taken, same)

  drain_frames_loop_lem :
      (fuel : ℕ) (c : FrameChan) (out : List MetricFrame)
      → length (frame_queue c) < fuel
      → (c' : FrameChan) × (drain_frames_loop ce cf fuel c out ≡ some (c', out ++ frame_queue c))
        × (frame_queue c' ≡ [])
  unfolding drain_frames_loop
  drain_frames_loop_lem zero c out h = absurd (omega arith)
  drain_frames_loop_lem (suc fuel) c out h = elim (Queue-cases (frame_queue c)) [
    | inl empty ↦
        let (got, q, n) = frame_recv_empty c empty in
        ((cf.try_recv c).1, rw (got, drain_frames_loop) (rw (empty, append-nil)), q)
    | inr (f, rest, full) ↦
        let (got, q, n) = frame_recv_some c full in
        let (c', done, clear) =
          drain_frames_loop_lem fuel (cf.try_recv c).1 (out ++ f ∷ [])
            (omega (arith, ap length q, ap length full)) in
        (c', rw (got, drain_frames_loop) (rw full (rw (q, append_assoc) at done)), clear)
  ]

  -- One more turn than there are frames ends the loop: all the frames are returned, oldest first, the
  -- frame lane is empty, and nothing else has changed.
  pub drain_frames_lem :
      (fuel : ℕ) (r : EventRing ce cf)
      → length (frame_queue r.frames) < fuel
      → (c : FrameChan) × (drain_frames ce cf fuel r
          ≡ some (record r { frames = c }, frame_queue r.frames))
        × (frame_queue c ≡ [])
  unfolding drain_frames
  drain_frames_lem fuel r h =
      let (c, done, clear) = drain_frames_loop_lem fuel r.frames [] h in
      (c, rw (done, drain_frames), clear)
