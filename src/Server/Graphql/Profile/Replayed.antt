-- ===== src/Server/Graphql/Profile/Replayed.antt =====
-- A replay by a synthetic agent, from the mutation to the table of cards.
use Prim.Native.String.{String}
use perf_weave.Base.{
  ℕ, suc, ◌+◌, ◌%◌, ◌≡◌, refl, sym, ap, ◌∙◌, subst, Bool, true, Option, List, [], ◌∷◌, ◌++◌, map,
  length, length-map, All,
}
use mathlib.Core.List.{append_assoc, append-nil}
use perf_weave.Agent.Replay as Agent
use perf_weave.Agent.Replay.{Status, synthetic_replay}
use perf_weave.Agent.Replay.Cards.{
  cards_from, replay_from-cards, ids-cards_from, cards_from-IsExact, IsExact,
}
use perf_weave.Base.Floats.{Floats}
use perf_weave.Base.Results.{Result, ok}
use perf_weave.Base.Text.{Text}
use perf_weave.Base.Words.{u32_mod}
use perf_weave.Proto.{
  Getters, KernelSol, ProfileRequest, Confidence, Source, confidence_num, source_num,
}
use perf_weave.Server.Graphql.Profile.{
  Names, Transport, replay_kernels, kernel_sol_to_row, request_of, profile_kernels,
}
use perf_weave.Server.Graphql.Profile.Outcome.{received, taken, acknowledged}
use perf_weave.Server.Graphql.Rows.{ProfileKernelsAck, KernelSolRow}
use perf_weave.Server.Registry.{AgentRegistry, Target, replay_target}
use perf_weave.Server.Sink.Loop.{SinkMsg, Rows, no_rows, accept}
use perf_weave.Server.Sink.Rows as Stored
use perf_weave.Server.Sink.Rows.{row_of_sol}

pub received-ok : (cards : List KernelSol) → received {Status = Status} (map ok cards) ≡ cards
received-ok [] = refl
received-ok (s ∷ cards) = ap (◌∷◌ s) (received-ok cards)

taken_all :
    (takes : ℕ → Bool) (node_id k : ℕ) (cards : List KernelSol)
    → ((i : ℕ) → takes i ≡ true)
    → taken takes node_id k cards ≡ map (SinkMsg.kernel_sol node_id) cards
taken_all takes node_id k [] opened = refl
taken_all takes node_id k (s ∷ cards) opened =
    rw (opened k)
      (ap (◌∷◌ (SinkMsg.kernel_sol node_id s)) (taken_all takes node_id (k + 1) cards opened))

module _ (g : Getters) (now : ℕ) where
  -- The rows of the sink's buffers after a queue of messages.
  abbrev pub accept_all : List SinkMsg → Rows → Rows
  accept_all [] p = p
  accept_all (m ∷ ms) p = accept_all ms (accept g now m p)

  accept_all-cards :
      (node_id : ℕ) (cards : List KernelSol) (p : Rows)
      → (accept_all (map (SinkMsg.kernel_sol node_id) cards) p).sol
        ≡ p.sol ++ map (row_of_sol g now node_id) cards
  unfolding accept
  accept_all-cards node_id [] p = sym (append-nil p.sol)
  accept_all-cards node_id (s ∷ cards) p =
      accept_all-cards node_id cards (accept g now (SinkMsg.kernel_sol node_id s) p)
      ∙ append_assoc p.sol (row_of_sol g now node_id s ∷ []) (map (row_of_sol g now node_id) cards)

  -- A stored card of a replay: high confidence, from a replay.
  abbrev pub StoredExact : Stored.KernelSolRow → Type 0
  StoredExact r =
      (r.confidence ≡ confidence_num Confidence.high) × (r.source ≡ source_num Source.replay)

  stored-ids :
      (node_id : ℕ) (cards : List KernelSol)
      → map (λ r. r.correlation_id) (map (row_of_sol g now node_id) cards)
        ≡ map (λ s. s.correlation_id) cards
  unfolding row_of_sol
  stored-ids node_id [] = refl
  stored-ids node_id (s ∷ cards) = ap (◌∷◌ s.correlation_id) (stored-ids node_id cards)

  stored-StoredExact :
      (node_id : ℕ) (cards : List KernelSol)
      → All IsExact cards
      → All StoredExact (map (row_of_sol g now node_id) cards)
  unfolding row_of_sol
  stored-StoredExact node_id [] h = tt
  stored-StoredExact node_id (s ∷ cards) h = (
    (
      ap (λ c. confidence_num (g.confidence c)) h.0.0
          ∙ ap confidence_num (g.confidence_known Confidence.high),
      ap (λ c. source_num (g.source c)) h.0.1 ∙ ap source_num (g.source_known Source.replay),
    ),
    stored-StoredExact node_id cards h.1,
  )

-- An answer's card of a replay.
abbrev pub ShownExact : Names → KernelSolRow → Type 0
ShownExact names r =
    (r.confidence ≡ names.confidence Confidence.high) × (r.source ≡ names.source Source.replay)

module _ (g : Getters) (f : Floats) (names : Names) where
  shown-ShownExact :
      (cards : List KernelSol)
      → All IsExact cards
      → All (ShownExact names) (map (kernel_sol_to_row g f names) cards)
  unfolding kernel_sol_to_row
  shown-ShownExact [] h = tt
  shown-ShownExact (s ∷ cards) h = (
    (
      ap (λ c. names.confidence (g.confidence c)) h.0.0
          ∙ ap names.confidence (g.confidence_known Confidence.high),
      ap (λ c. names.source (g.source c)) h.0.1 ∙ ap names.source (g.source_known Source.replay),
    ),
    shown-ShownExact cards h.1,
  )

length-cards :
    (f : Floats) (hash : String → ℕ) (i : ℕ) (ids : List ℕ)
    → length (cards_from f hash i ids) ≡ length ids
length-cards f hash i [] = refl
length-cards f hash i (c ∷ ids) = ap suc (length-cards f hash (i + 1) ids)

-- The mutation asks by correlation ids alone, so that the agent answers exactly these.
stream_of :
    (f : Floats) (hash : String → ℕ) (gpu_id from to : ℕ) (ids : List ℕ) (timeout_ms : Option ℕ)
    (g : Getters) (names : Names)
    → Agent.profile_kernels f hash true (request_of g f names gpu_id from to ids timeout_ms)
      ≡ map ok (cards_from f hash 0 ids)
unfolding Agent.profile_kernels synthetic_replay
stream_of f hash gpu_id from to [] timeout_ms g names = replay_from-cards f hash 0 []
stream_of f hash gpu_id from to (c ∷ ids) timeout_ms g names = replay_from-cards f hash 0 (c ∷ ids)

module _ (g : Getters) (f : Floats) (names : Names) (hash : String → ℕ) (t : Transport Status)
    (takes : ℕ → Bool) (agents : AgentRegistry) (node_id gpu_id window_start_ns window_end_ns : ℕ)
    (ids : List ℕ) (timeout_ms : Option ℕ) (addr : String) (client : t.Client) (now : ℕ) where
  done_lem :
      replay_target agents node_id ≡ Target.call addr
      → t.connect addr ≡ ok client
      → ((req : ProfileRequest) → t.call client req ≡ ok (Agent.profile_kernels f hash true req))
      → ((k : ℕ) → takes k ≡ true)
      → profile_kernels g f names t takes agents node_id gpu_id window_start_ns window_end_ns ids
          timeout_ms
        ≡ (
          ok record {
            node_id = node_id;
            requested = length ids % u32_mod;
            completed = length (cards_from f hash 0 ids) % u32_mod;
            results = map (kernel_sol_to_row g f names) (cards_from f hash 0 ids);
          },
          map (SinkMsg.kernel_sol node_id) (cards_from f hash 0 ids),
        )
  unfolding profile_kernels replay_kernels
  done_lem h c answers opened =
      let cards = cards_from f hash 0 ids in
      let req = request_of g f names gpu_id window_start_ns window_end_ns ids timeout_ms in
      let a =
        answers req
        ∙ ap ok (stream_of f hash gpu_id window_start_ns window_end_ns ids timeout_ms g names) in
      let (n, r, q) = acknowledged g f names {Status = Status} takes node_id (map ok cards) in
      let back = received-ok cards in
      let all = taken_all takes node_id 0 cards opened in
      rw (h, c, a, profile_kernels, replay_kernels) (rw (n, r, q, back, all) refl)

  -- What a complete replay answers, and what it stores.
  abbrev pub Replays : Result Text ProfileKernelsAck × List SinkMsg → Type 0
  Replays done =
      let rows = (accept_all g now done.1 no_rows).sol in
      (ack : ProfileKernelsAck) × (done.0 ≡ ok ack)
      × (ack.completed ≡ ack.requested)
      × (length ack.results ≡ length ids)
      × All (ShownExact names) ack.results
      × (map (λ r. r.correlation_id) rows ≡ ids)
      × All (StoredExact g now) rows

  -- If the node gave an address, a synthetic agent answers there, and the sink's queue takes every
  -- message: the mutation completes as many kernels as were requested; its answer has one card for each,
  -- shown as exact numbers from a replay; and the sink's rows are, in order, those of the requested
  -- correlation ids, stored with high confidence and as from a replay.
  pub profile_kernels-synthetic :
      replay_target agents node_id ≡ Target.call addr
      → t.connect addr ≡ ok client
      → ((req : ProfileRequest) → t.call client req ≡ ok (Agent.profile_kernels f hash true req))
      → ((k : ℕ) → takes k ≡ true)
      → Replays (
          profile_kernels g f names t takes agents node_id gpu_id window_start_ns window_end_ns ids
            timeout_ms)
  profile_kernels-synthetic h c answers opened =
      let cards = cards_from f hash 0 ids in
      let exact = cards_from-IsExact f hash 0 ids in
      let rows = accept_all-cards g now node_id cards no_rows in
      let count = length-cards f hash 0 ids in
      subst Replays (sym (done_lem h c answers opened)) (
        _,
        refl,
        ap (λ n. n % u32_mod) count,
        length-map (kernel_sol_to_row g f names) cards ∙ count,
        shown-ShownExact g f names cards exact,
        ap (map (λ r. r.correlation_id)) rows
            ∙ stored-ids g now node_id cards
            ∙ ids-cards_from f hash 0 ids,
        subst (All (StoredExact g now)) (sym rows) (stored-StoredExact g now node_id cards exact),
      )
