-- ===== src/Cli/Start/Loopback.antt =====
-- Where the local agent of `start` connects (crates/perfweave-cli/src/main.rs).
use Prim.Native.String.{String}
use perf_weave.Base.{ℕ, ◌≡◌, refl, sym, ap, false, Option, some, [], ◌∷◌, ◌++◌, arith, ◌==◌, ==_ne}
use mathlib.Core.List.{append-nil}
use perf_weave.Base.Text.{Text, codes}
use perf_weave.Base.Text.Lines.{starts_with}
use perf_weave.Base.Text.Parts.{Lacks}
use perf_weave.Cli.LocalAgent.{Opts}
use perf_weave.Cli.Start.{StartArgs, Desktop, replace_from, agent_opts, cmd_start}

no_address : (c : ℕ) (s : Text) → Lacks b'.' s → starts_with (c ∷ s) (codes "0.0.0.0") ≡ false
no_address c [] h = ground arith
no_address c (d ∷ s) h =
    let other : (46 == d) ≡ false = ==_ne 46 d (λ e. h.0 (sym e)) in rw other (ground arith)

-- A text without a full stop holds no address.
replace_from-Lacks : (to s : Text) → Lacks b'.' s → replace_from (codes "0.0.0.0") to 0 s ≡ s
unfolding replace_from
replace_from-Lacks to [] h = refl
replace_from-Lacks to (c ∷ s) h = rw (no_address c s h.1) (ap (◌∷◌ c) (replace_from-Lacks to s h.1))

agent_opts-Loopback :
    (args : StartArgs) (port : Text)
    → Lacks b'.' port
    → args.collector_listen ≡ codes "0.0.0.0:" ++ port
    → (agent_opts args).collector_url ≡ codes "http://127.0.0.1:" ++ port
unfolding replace_from
agent_opts-Loopback args port h listens =
    rw listens (rw (replace_from-Lacks (codes "127.0.0.1") port h) (simp append-nil))

-- Without the option against it, `start` runs a local agent; if the collector listens at a port of all addresses,
-- and the port's text holds no full stop, the agent connects to that port of the loopback address, and
-- the server listens where it is told.
pub cmd_start-Loopback :
    (env : String → Option Text) (desktop : Desktop) (args : StartArgs) (port : Text)
    → Lacks b'.' port
    → args.collector_listen ≡ codes "0.0.0.0:" ++ port
    → args.no_local_agent ≡ false
    → (o : Opts) × ((cmd_start env desktop args).local_agent ≡ some o)
      × (o.collector_url ≡ codes "http://127.0.0.1:" ++ port)
      × ((cmd_start env desktop args).server.grpc_listen ≡ codes "0.0.0.0:" ++ port)
unfolding cmd_start
cmd_start-Loopback env desktop args port h listens wanted =
    (agent_opts args, rw wanted refl, agent_opts-Loopback args port h listens, listens)
